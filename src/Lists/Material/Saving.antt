-- ===== src/Lists/Material/Saving.antt =====
-- `checkpt_material` and `restore_material` of src/material/material.cc, on the checkpoint service.
-- The structure is saved as its 72 bytes of memory; `name` and `next` are what its pointers lead to.
use mathlib.Core.List.{append_assoc}
use vpic.Lists.Saving.Structure.{whole_lem, with_pointers}
use vpic.Prelude.{
  [], ◌∷◌, ap, ℕ, ◌^◌, ◌<◌, ◌≡◌, refl, true, Option, some, List, ◌++◌, arith, length, get_elem?,
}
use vpic.Checkpt.Service.{Service, ok, M, ◌>>=◌, ◌>>◌, pure}
use vpic.Checkpt.Stream.Laws.{writing, reading}
use vpic.Checkpt.Registry.Valid.{IsValid}
use vpic.Checkpt.Items.Data.{set_pointer, Block, checkpt_data, restore_data, is_alignment}
use vpic.Checkpt.Items.Strings.{
  IsString, checkpt_str, restore_str, str_bytes, checkpt_str_lem, restore_str_lem,
}
use vpic.Checkpt.Items.Pointers.{checkpt_ptr, restore_ptr, Relocates, checkpt_restore_ptr_lem}

abbrev pub sizeof_material : ℕ
sizeof_material = 72

unfoldable pub checkpt_material : (m : List ℕ) (name : Option (List ℕ)) (next : ℕ) → M (Unit {0})
checkpt_material m name next = do
  checkpt_data (some m) sizeof_material sizeof_material 1 1 0
  checkpt_str name
  checkpt_ptr next

-- The new memory of the structure, and what its pointers lead to. `restore_str` places the name at
-- `name_at`, which is NULL for none.
unfoldable pub restore_material : (name_at : ℕ) → M (Block × Option (List ℕ) × ℕ)
restore_material name_at = do
  m ← restore_data
  name ← restore_str
  next ← restore_ptr
  pure (set_pointer (set_pointer m 0 name_at) 64 next, name, next)

-- A material that is saved by one service and restored by another has the same name, and for the
-- next material the one that has its identifier in the registry of the restoring service. Its
-- structure is of the same size and has the saved bytes but for the members `name` and `next`,
-- which point to these. Nothing but its own bytes is taken from the stream.
pub restore_material-checkpt_material :
    (s t : Service) (out rest m : List ℕ) (name : Option (List ℕ)) (next next' name_at : ℕ)
    → length m ≡ 72
    → IsString name
    → IsValid s
    → s.booted ≡ true
    → s.next_id < 2 ^ 64
    → Relocates s t next next'
    → (bytes : List ℕ) × (b : Block) × (checkpt_material m name next (writing s out)
        ≡ ok tt (writing s (out ++ bytes)))
      × (restore_material name_at (reading t (bytes ++ rest))
          ≡ ok (b, name, next') (reading t rest))
      × (b.size ≡ 72)
      × (b.byte ≡ with_pointers ((0, name_at) ∷ (64, next') ∷ []) (get_elem? m))
unfolding checkpt_material restore_material is_alignment set_pointer
restore_material-checkpt_material s t out rest m name next next' name_at size str valid booted small
      reloc =
    let (w, b, write_m, read_m, size_m, same) =
      whole_lem m 72 0 size (omega arith) (omega arith) refl in
    let (p, write_p, read_p) = checkpt_restore_ptr_lem s t next next' valid booted small reloc in
    (
      w ++ (str_bytes name ++ p),
      set_pointer (set_pointer b 0 name_at) 64 next',
      rw (write_m s out, checkpt_str_lem s (out ++ w) name, write_p ((out ++ w) ++ str_bytes name))
          (simp append_assoc),
      simp append_assoc (
          rw
            (
              read_m t (str_bytes name ++ (p ++ rest)),
              restore_str_lem t (p ++ rest) name str,
              read_p rest,
            )
            refl),
      size_m,
      ap (with_pointers ((0, name_at) ∷ (64, next') ∷ [])) same,
    )
