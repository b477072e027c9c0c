-- ===== src/Checkpt/Registry/Valid.antt =====
-- The registry's invariant: the identifiers ascend, are not 0 and stay below the next one, and no
-- object is NULL or stands there twice. `object_id` and `object_ptr` are then inverse.
use vpic.Prelude.{
  ℕ, ◌+◌, ◌%◌, ◌^◌, ◌<◌, ◌≤◌, ◌≡◌, ◌≢◌, refl, true, none, some, List, [], ◌∷◌, ◌++◌, arith, ◌==◌,
  if◌then◌else◌, is_some, Bool-cases, inl, inr, Option-cases,
}
use vpic.Checkpt.Service.{Node, Service, ok, check_idle}
use vpic.Checkpt.Registry.{
  find_obj, find_id, id_of, object_id, object_ptr, register_object, remove_obj, unregister_object,
}

-- Every identifier of the list is at least `lo`, less than `hi`, and greater than those before it.
abbrev pub IdsWithin : ℕ → List Node → ℕ → Type 0
IdsWithin lo [] hi = lo ≤ hi
IdsWithin lo (n ∷ r) hi = (lo ≤ n.id) × IdsWithin (n.id + 1) r hi

abbrev pub ObjsDistinct : List Node → Type 0
ObjsDistinct [] = Unit
ObjsDistinct (n ∷ r) = (n.obj ≢ 0) × (find_obj r n.obj ≡ none) × ObjsDistinct r

pub record IsValid (s : Service) : Type 0 where
  pub ids : IdsWithin 1 s.registry s.next_id
  pub objs : ObjsDistinct s.registry

find_id-below : (lo hi id : ℕ) (r : List Node) → IdsWithin lo r hi → id < lo → find_id r id ≡ none
unfolding find_id
find_id-below lo hi id [] w h = refl
find_id-below lo hi id (n ∷ r) w h = ground (arith, find_id-below (n.id + 1) hi id r w.1)

lo-le-hi : (lo hi : ℕ) (r : List Node) → IdsWithin lo r hi → lo ≤ hi
lo-le-hi lo hi [] w = w
lo-le-hi lo hi (n ∷ r) w = omega (arith, lo-le-hi (n.id + 1) hi r w.1)

-- An object of the list is found again by its identifier, which is in range.
pub find_id-find_obj :
    (lo hi obj : ℕ) (r : List Node) (n : Node)
    → IdsWithin lo r hi
    → find_obj r obj ≡ some n
    → (find_id r n.id ≡ some n) × (lo ≤ n.id) × (n.id < hi) × (n.obj ≡ obj)
unfolding find_obj find_id
find_id-find_obj lo hi obj [] n w e = cc
find_id-find_obj lo hi obj (m ∷ r) n w e =
    ground (arith, find_id-find_obj (m.id + 1) hi obj r n w.1, lo-le-hi (m.id + 1) hi r w.1)

find_obj-find_id :
    (lo hi id : ℕ) (r : List Node) (n : Node)
    → ObjsDistinct r
    → find_id r id ≡ some n
    → (find_obj r n.obj ≡ some n) × (n.id ≡ id) × (n.obj ≢ 0)
unfolding find_obj find_id
find_obj-find_id lo hi id [] n w e = cc
find_obj-find_id lo hi id (m ∷ r) n w e = ground (arith, find_obj-find_id lo hi id r n w.2)

find_obj-append :
    (r q : List Node) (obj : ℕ)
    → find_obj (r ++ q) obj ≡ (if is_some (find_obj r obj) then find_obj r obj else find_obj q obj)
unfolding find_obj
find_obj-append [] q obj = refl
find_obj-append (n ∷ r) q obj = ground (arith, find_obj-append r q obj)

IdsWithin-append :
    (lo hi : ℕ) (r : List Node) (n : Node)
    → IdsWithin lo r hi
    → n.id ≡ hi
    → IdsWithin lo (r ++ (n ∷ [])) (hi + 1)
IdsWithin-append lo hi [] n w e = omega arith
IdsWithin-append lo hi (m ∷ r) n w e = (w.0, IdsWithin-append (m.id + 1) hi r n w.1 e)

ObjsDistinct-append :
    (r : List Node) (n : Node)
    → ObjsDistinct r
    → n.obj ≢ 0
    → find_obj r n.obj ≡ none
    → ObjsDistinct (r ++ (n ∷ []))
unfolding find_obj
ObjsDistinct-append [] n w z e = (z, refl, tt)
ObjsDistinct-append (m ∷ r) n w z e = (
  w.0,
  ground (arith, find_obj-append r (n ∷ []) m.obj),
  ObjsDistinct-append r n w.2 z (ground arith),
)

IdsWithin-lower : (a b hi : ℕ) (r : List Node) → b ≤ a → IdsWithin a r hi → IdsWithin b r hi
IdsWithin-lower a b hi [] h w = omega arith
IdsWithin-lower a b hi (n ∷ r) h w = (omega arith, w.1)

IdsWithin-remove :
    (lo hi obj : ℕ) (r : List Node) → IdsWithin lo r hi → IdsWithin lo (remove_obj r obj) hi
unfolding remove_obj
IdsWithin-remove lo hi obj [] w = w
IdsWithin-remove lo hi obj (n ∷ r) w = elim (Bool-cases (n.obj == obj)) [
  | inl e ↦ rw e (IdsWithin-lower (n.id + 1) lo hi r (omega arith) w.1)
  | inr e ↦ rw e (w.0, IdsWithin-remove (n.id + 1) hi obj r w.1)
]

-- An object is found after a removal just as before, but for the removed one.
pub find_obj-remove_obj :
    (r : List Node) (obj other : ℕ)
    → ObjsDistinct r
    → find_obj (remove_obj r obj) other ≡ (if other == obj then none else find_obj r other)
unfolding find_obj remove_obj
find_obj-remove_obj [] obj other w = ground arith
find_obj-remove_obj (n ∷ r) obj other w = ground (arith, find_obj-remove_obj r obj other w.2)

ObjsDistinct-remove : (obj : ℕ) (r : List Node) → ObjsDistinct r → ObjsDistinct (remove_obj r obj)
unfolding remove_obj
ObjsDistinct-remove obj [] w = w
ObjsDistinct-remove obj (n ∷ r) w = elim (Bool-cases (n.obj == obj)) [
  | inl e ↦ rw e w.2
  | inr e ↦
      rw e (w.0, ground (arith, find_obj-remove_obj r obj n.obj w.2), ObjsDistinct-remove obj r w.2)
]

abbrev entry : Service → ℕ → ℕ → ℕ → ℕ → Node
entry s obj c r a = record {
  obj = obj;
  checkpt_func = c;
  restore_func = r;
  reanimate_func = a;
  id = s.next_id;
}

register_object-inv :
    (s t : Service) (obj c r a : ℕ)
    → register_object obj c r a s ≡ ok tt t
    → (obj ≢ 0)
      × (find_obj s.registry obj ≡ none)
      × (s.booted ≡ true)
      × (t.booted ≡ true)
      × (t.registry ≡ s.registry ++ (entry s obj c r a ∷ []))
      × (t.next_id ≡ (s.next_id + 1) % 2 ^ 64)
unfolding register_object check_idle
register_object-inv s t obj c r a e = ground arith

unregister_object-inv :
    (s t : Service) (obj : ℕ)
    → unregister_object obj s ≡ ok tt t
    → (is_some (find_obj s.registry obj) ≡ true)
      × (t.booted ≡ true)
      × (t.registry ≡ remove_obj s.registry obj)
      × (t.next_id ≡ s.next_id)
unfolding unregister_object check_idle
unregister_object-inv s t obj e = ground arith

object_id-booted :
    (t : Service) (obj : ℕ)
    → t.booted ≡ true
    → object_id obj t ≡ ok (id_of (find_obj t.registry obj)) t
unfolding object_id
object_id-booted t obj e = ground arith

-- A registration that succeeds keeps the invariant, as long as the counter does not wrap: the new
-- object gets the former `next_id`, and every other object keeps its identifier.
pub register_object-IsValid :
    {s t : Service} (obj c r a : ℕ)
    → IsValid s
    → s.next_id + 1 < 2 ^ 64
    → register_object obj c r a s ≡ ok tt t
    → IsValid t
      × (object_id obj t ≡ ok s.next_id t)
      × ((other : ℕ)
          → id_of (find_obj t.registry other)
            ≡ (if other == obj then s.next_id else id_of (find_obj s.registry other)))
unfolding find_obj
register_object-IsValid {s} {t} obj c r a v h e =
    let (nz, fresh, b, b', reg, next) = register_object-inv s t obj c r a e in
    let new = entry s obj c r a in
    let small : (s.next_id + 1) % 2 ^ 64 ≡ s.next_id + 1 = omega arith in
    (
      record {
        ids = rw (reg, next, small) (IdsWithin-append 1 s.next_id s.registry new v.ids refl);
        objs = rw reg (ObjsDistinct-append s.registry new v.objs nz fresh);
      },
      rw (object_id-booted t obj b', reg, find_obj-append s.registry (new ∷ []) obj) (ground arith),
      λ other. rw (reg, find_obj-append s.registry (new ∷ []) other) (ground (arith, fresh)),
    )

-- An unregistration that succeeds keeps the invariant: the object has no identifier any more, and
-- every other object keeps its own.
pub unregister_object-IsValid :
    {s t : Service} (obj : ℕ)
    → IsValid s
    → unregister_object obj s ≡ ok tt t
    → IsValid t
      × (object_id obj t ≡ ok 0 t)
      × ((other : ℕ)
          → id_of (find_obj t.registry other)
            ≡ (if other == obj then 0 else id_of (find_obj s.registry other)))
unregister_object-IsValid {s} {t} obj v e =
    let (found, b', reg, next) = unregister_object-inv s t obj e in
    (
      record {
        ids = rw (reg, next) (IdsWithin-remove 1 s.next_id obj s.registry v.ids);
        objs = rw reg (ObjsDistinct-remove obj s.registry v.objs);
      },
      rw (object_id-booted t obj b', reg, find_obj-remove_obj s.registry obj obj v.objs)
          (ground arith),
      λ other. rw (reg, find_obj-remove_obj s.registry obj other v.objs) (ground arith),
    )

-- In a valid registry of a booted service, the identifier of a registered object leads back to
-- the object, is not 0, and is below the next one to be given.
pub object_ptr-object_id :
    {s : Service} (obj : ℕ)
    → IsValid s
    → s.booted ≡ true
    → is_some (find_obj s.registry obj) ≡ true
    → (id : ℕ) × (object_id obj s ≡ ok id s)
      × (object_ptr id s ≡ ok obj s)
      × (0 < id)
      × (id < s.next_id)
unfolding object_ptr
object_ptr-object_id {s} obj v b found = elim (Option-cases (find_obj s.registry obj)) [
  | inl e ↦ cc
  | inr (n, e) ↦
      let (back, lo, hi, same) = find_id-find_obj 1 s.next_id obj s.registry n v.ids e in
      (n.id, rw (object_id-booted s obj b, e), ground arith, lo, hi)
]

-- An address other than NULL that `object_ptr` gives for an identifier is that of an object which
-- has this identifier.
object_id-object_ptr :
    {s : Service} (id obj : ℕ)
    → IsValid s
    → object_ptr id s ≡ ok obj s
    → obj ≢ 0
    → object_id obj s ≡ ok id s
unfolding object_ptr object_id
object_id-object_ptr {s} id obj v e nz = elim (Option-cases (find_id s.registry id)) [
  | inl none_there ↦ ground arith
  | inr (n, there) ↦ ground (arith, find_obj-find_id 1 s.next_id id s.registry n v.objs there)
]
