-- ===== src/Checkpt/Items/Pointers.antt =====
-- Pointers to registered objects: `checkpt_fptr`, `restore_fptr`, `reanimate_fptr`, `checkpt_ptr`
-- and `restore_ptr` of src/util/checkpt/checkpt.cc. What is stored is the object's identifier.
use mathlib.Core.List.{append_assoc}
use vpic.Prelude.{
  ℕ, ◌^◌, ◌<◌, ◌≡◌, ◌≢◌, refl, true, not, List, ◌++◌, arith, ◌==◌, if◌then◌else◌, is_some, ap, ◌∙◌,
  ◌⊎◌, inl, inr,
}
use vpic.Checkpt.Service.{
  Service, ok, err, M, ◌>>=◌, ◌>>◌, pure, error_if, malformed, unregistered_pointer,
  dangling_pointer,
}
use vpic.Checkpt.Stream.{checkpt_val, restore_val, to_bytes}
use vpic.Checkpt.Stream.Laws.{writing, reading, checkpt_val_lem, restore_val_lem}
use vpic.Checkpt.Registry.{object_id, object_ptr, find_obj, find_id, id_of, obj_of}
use vpic.Checkpt.Registry.Valid.{IsValid, object_ptr-object_id}

abbrev null_ptr : ℕ
null_ptr = 0x2c11977

abbrev ptr_header : ℕ
ptr_header = 0x977

unfoldable pub checkpt_fptr : ℕ → M (Unit {0})
checkpt_fptr ptr = if ptr == 0 then checkpt_val null_ptr else (do
  id ← object_id ptr
  error_if (id == 0) unregistered_pointer
  checkpt_val ptr_header
  checkpt_val id)

-- Until it is reanimated, a restored pointer is the identifier.
unfoldable pub restore_fptr : M ℕ
restore_fptr = do
  header ← restore_val
  if header == null_ptr then pure 0 else (do
    error_if (not (header == ptr_header)) malformed
    id ← restore_val
    error_if (id == 0) malformed
    pure id)

unfoldable pub reanimate_fptr : ℕ → M ℕ
reanimate_fptr ptr =
    if ptr == 0
    then pure 0
    else (do found ← object_ptr ptr; error_if (found == 0) dangling_pointer; pure found)

unfoldable pub checkpt_ptr : ℕ → M (Unit {0})
checkpt_ptr ptr = checkpt_fptr ptr

unfoldable pub restore_ptr : M ℕ
restore_ptr = do ptr ← restore_fptr; reanimate_fptr ptr

unfoldable pub ptr_bytes : ℕ → List ℕ
ptr_bytes id = if id == 0 then to_bytes 8 null_ptr else to_bytes 8 ptr_header ++ to_bytes 8 id

object_id-writing :
    (s : Service) (out : List ℕ) (ptr : ℕ)
    → object_id ptr (writing s out) ≡ ok (id_of (find_obj s.registry ptr)) (writing s out)
unfolding object_id writing
object_id-writing s out ptr = refl

pub object_ptr-reading :
    (s : Service) (rest : List ℕ) (id : ℕ)
    → object_ptr id (reading s rest) ≡ ok (obj_of (find_id s.registry id)) (reading s rest)
unfolding object_ptr reading
object_ptr-reading s rest id = refl

-- A pointer to an object that is not registered is refused.
pub checkpt_fptr-unregistered :
    (s : Service) (out : List ℕ) (ptr : ℕ)
    → ptr ≢ 0
    → id_of (find_obj s.registry ptr) ≡ 0
    → checkpt_fptr ptr (writing s out) ≡ err unregistered_pointer
unfolding checkpt_fptr
checkpt_fptr-unregistered s out ptr nz e = ground (arith, object_id-writing s out ptr)

-- One that is registered is written as its identifier.
pub checkpt_fptr_lem :
    (s : Service) (out : List ℕ) (ptr : ℕ)
    → ptr ≢ 0
    → id_of (find_obj s.registry ptr) ≢ 0
    → checkpt_fptr ptr (writing s out)
      ≡ ok tt (writing s (out ++ ptr_bytes (id_of (find_obj s.registry ptr))))
unfolding checkpt_fptr ptr_bytes
checkpt_fptr_lem s out ptr nz e = ground (
  arith,
  object_id-writing s out ptr,
  checkpt_val_lem s out ptr_header,
  checkpt_val_lem s (out ++ to_bytes 8 ptr_header) (id_of (find_obj s.registry ptr)),
  append_assoc out (to_bytes 8 ptr_header) (to_bytes 8 (id_of (find_obj s.registry ptr))),
)

pub checkpt_fptr-null :
    (s : Service) (out : List ℕ)
    → checkpt_fptr 0 (writing s out) ≡ ok tt (writing s (out ++ ptr_bytes 0))
unfolding checkpt_fptr ptr_bytes
checkpt_fptr-null s out = checkpt_val_lem s out null_ptr

pub restore_fptr_lem :
    (s : Service) (rest : List ℕ) (id : ℕ)
    → id < 2 ^ 64
    → restore_fptr (reading s (ptr_bytes id ++ rest)) ≡ ok id (reading s rest)
unfolding restore_fptr ptr_bytes
restore_fptr_lem s rest id h = ground (
  arith,
  append_assoc (to_bytes 8 ptr_header) (to_bytes 8 id) rest,
  restore_val_lem s rest null_ptr,
  restore_val_lem s (to_bytes 8 id ++ rest) ptr_header,
  restore_val_lem s rest id,
)

-- What a restored service has in the place of an object of the saved one: NULL for NULL, else the
-- object that carries the same identifier there.
abbrev pub Relocates : Service → Service → ℕ → ℕ → Type 0
Relocates s t ptr ptr' =
    (obj_of (find_id t.registry (id_of (find_obj s.registry ptr))) ≡ ptr')
    × ((ptr ≡ 0) × (ptr' ≡ 0) ⊎ (ptr ≢ 0) × (ptr' ≢ 0) × (is_some (find_obj s.registry ptr) ≡ true))

restore_ptr_lem :
    (t : Service) (rest : List ℕ) (id : ℕ)
    → id < 2 ^ 64
    → id ≢ 0
    → obj_of (find_id t.registry id) ≢ 0
    → restore_ptr (reading t (ptr_bytes id ++ rest))
      ≡ ok (obj_of (find_id t.registry id)) (reading t rest)
unfolding restore_ptr reanimate_fptr
restore_ptr_lem t rest id h nz e =
    ground (arith, restore_fptr_lem t rest id h, object_ptr-reading t rest id)

restore_ptr-null :
    (t : Service) (rest : List ℕ)
    → restore_ptr (reading t (ptr_bytes 0 ++ rest)) ≡ ok 0 (reading t rest)
unfolding restore_ptr reanimate_fptr
restore_ptr-null t rest = rw (restore_fptr_lem t rest 0 (omega arith)) refl

-- The bytes of a pointer depend neither on what is written before nor on what is read behind them.
pub checkpt_restore_ptr_lem :
    (s t : Service) (ptr ptr' : ℕ)
    → IsValid s
    → s.booted ≡ true
    → s.next_id < 2 ^ 64
    → Relocates s t ptr ptr'
    → (bytes : List ℕ) × ((out : List ℕ)
        → checkpt_ptr ptr (writing s out) ≡ ok tt (writing s (out ++ bytes)))
      × ((rest : List ℕ) → restore_ptr (reading t (bytes ++ rest)) ≡ ok ptr' (reading t rest))
unfolding checkpt_ptr object_id
checkpt_restore_ptr_lem s t ptr ptr' v b h (e, inl (z, z')) =
    (ptr_bytes 0, λ out. rw z (checkpt_fptr-null s out), λ rest. rw z' (restore_ptr-null t rest))
checkpt_restore_ptr_lem s t ptr ptr' v b h (e, inr (nz, nz', found)) =
    let (id, at, back, lo, hi) = object_ptr-object_id ptr v b found in
    let same : id_of (find_obj s.registry ptr) ≡ id = ground arith in
    (
      ptr_bytes (id_of (find_obj s.registry ptr)),
      λ out. checkpt_fptr_lem s out ptr nz (omega arith),
      λ rest.
          restore_ptr_lem t rest (id_of (find_obj s.registry ptr)) (omega arith) (omega arith)
            (rw e nz')
          ∙ ap (λ p. ok p (reading t rest)) e,
    )

-- A pointer saved from a valid registry is restored as the object that has the same identifier in
-- the registry of the restoring service; NULL is restored as NULL.
pub restore_ptr-checkpt_ptr :
    (s t : Service) (out rest : List ℕ) (ptr ptr' : ℕ)
    → IsValid s
    → s.booted ≡ true
    → s.next_id < 2 ^ 64
    → Relocates s t ptr ptr'
    → (bytes : List ℕ) × (checkpt_ptr ptr (writing s out) ≡ ok tt (writing s (out ++ bytes)))
      × (restore_ptr (reading t (bytes ++ rest)) ≡ ok ptr' (reading t rest))
restore_ptr-checkpt_ptr s t out rest ptr ptr' v b h r =
    let (bytes, written, read) = checkpt_restore_ptr_lem s t ptr ptr' v b h r in
    (bytes, written out, read rest)
