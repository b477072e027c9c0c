-- ===== src/Lists/Species/Saving.antt =====
-- `checkpt_species` and `restore_species` of src/species_advance/species_advance.cc, on the
-- checkpoint service. The structure and the arrays that it points to are saved as their bytes of
-- memory.
use mathlib.Core.List.{append_assoc}
use vpic.Lists.Saving.Structure.{whole_lem, with_pointers}
use vpic.Prelude.{
  [], ◌∷◌, ap, take, ℕ, ◌+◌, ◌*◌, ◌^◌, ◌≤◌, ◌<◌, ◌≡◌, refl, true, Option, some, List, ◌++◌, arith,
  length, get_elem?,
}
use vpic.Checkpt.Service.{Service, ok, M, ◌>>=◌, ◌>>◌, pure}
use vpic.Checkpt.Stream.Laws.{writing, reading}
use vpic.Checkpt.Registry.Valid.{IsValid}
use vpic.Checkpt.Items.Data.{set_pointer, Block, checkpt_data, restore_data, is_alignment}
use vpic.Checkpt.Items.Data.RoundTrip.{block_lem}
use vpic.Checkpt.Items.Strings.{
  IsString, checkpt_str, restore_str, str_bytes, checkpt_str_lem, restore_str_lem,
}
use vpic.Checkpt.Items.Pointers.{checkpt_ptr, restore_ptr, Relocates, checkpt_restore_ptr_lem}

abbrev pub sizeof_species : ℕ
sizeof_species = 96

abbrev pub sizeof_particle : ℕ
sizeof_particle = 32

abbrev pub sizeof_mover : ℕ
sizeof_mover = 16

-- A species in memory: the bytes of the structure and of the arrays `p`, `pm` and `partition`, the
-- lengths that say how much of the arrays is used, and what `name`, `g` and `next` lead to.
pub record Image : Type 0 where
  pub bytes : List ℕ
  pub name : Option (List ℕ)
  pub p : List ℕ
  pub np : ℕ
  pub max_np : ℕ
  pub pm : List ℕ
  pub nm : ℕ
  pub max_nm : ℕ
  pub partition : List ℕ
  pub nv : ℕ
  pub g : ℕ
  pub next : ℕ

-- A species that was restored.
pub record Restored : Type 0 where
  pub sp : Block
  pub name : Option (List ℕ)
  pub p : Block
  pub pm : Block
  pub partition : Block
  pub g : ℕ
  pub next : ℕ

unfoldable pub checkpt_species : Image → M (Unit {0})
checkpt_species sp = do
  checkpt_data (some sp.bytes) sizeof_species sizeof_species 1 1 0
  checkpt_str sp.name
  checkpt_data (some sp.p) (sp.np * sizeof_particle) (sp.max_np * sizeof_particle) 1 1 128
  checkpt_data (some sp.pm) (sp.nm * sizeof_mover) (sp.max_nm * sizeof_mover) 1 1 128
  checkpt_data (some sp.partition) ((sp.nv + 1) * 4) ((sp.nv + 1) * 4) 1 1 128
  checkpt_ptr sp.g
  checkpt_ptr sp.next

-- Where `restore_str` and `malloc` place the name and the arrays of a species, NULL for none.
pub record Addresses : Type 0 where
  pub name : ℕ
  pub p : ℕ
  pub pm : ℕ
  pub partition : ℕ

-- The pointers of the structure that are set: `name`, `p`, `pm`, `partition`, `g` and `next`.
unfoldable pub set_members : Addresses → (g next : ℕ) → Block → Block
set_members at g next sp =
    let named = set_pointer sp 0 at.name in
    let filled = set_pointer (set_pointer named 24 at.p) 40 at.pm in
    set_pointer (set_pointer (set_pointer filled 64 at.partition) 72 g) 88 next

unfoldable pub restore_species : Addresses → M Restored
restore_species at = do
  sp ← restore_data
  name ← restore_str
  p ← restore_data
  pm ← restore_data
  partition ← restore_data
  g ← restore_ptr
  next ← restore_ptr
  pure (record {
    sp = set_members at g next sp;
    name = name;
    p = p;
    pm = pm;
    partition = partition;
    g = g;
    next = next;
  })

-- The arrays have the sizes that the species says, and no more elements used than allocated.
pub record IsImage (sp : Image) : Type 0 where
  pub bytes : length sp.bytes ≡ 96
  pub name : IsString sp.name
  pub p : (sp.np ≤ sp.max_np) × (length sp.p ≡ sp.max_np * 32) × (sp.max_np * 32 < 2 ^ 64)
  pub pm : (sp.nm ≤ sp.max_nm) × (length sp.pm ≡ sp.max_nm * 16) × (sp.max_nm * 16 < 2 ^ 64)
  pub partition : (length sp.partition ≡ (sp.nv + 1) * 4) × ((sp.nv + 1) * 4 < 2 ^ 64)

-- A species that is saved by one service and restored by another has the same name, particles,
-- movers and partition in arrays of the same sizes, of which none needs to have elements in use, and
-- for its grid and the next species those that have their identifiers in the registry of the
-- restoring service. Its structure has the saved bytes but for the pointers `name`, `p`, `pm`,
-- `partition`, `g` and `next`, which lead to these. Nothing but its own bytes is taken from the
-- stream.
pub restore_species-checkpt_species :
    (s t : Service) (out rest : List ℕ) (sp : Image) (at : Addresses) (g' next' : ℕ)
    → IsImage sp
    → IsValid s
    → s.booted ≡ true
    → s.next_id < 2 ^ 64
    → Relocates s t sp.g g'
    → Relocates s t sp.next next'
    → (bytes : List ℕ) × (r : Restored) × (checkpt_species sp (writing s out)
        ≡ ok tt (writing s (out ++ bytes)))
      × (restore_species at (reading t (bytes ++ rest)) ≡ ok r (reading t rest))
      × (r.sp.byte
          ≡ with_pointers
              ((0, at.name)
                ∷ (24, at.p)
                ∷ (40, at.pm)
                ∷ (64, at.partition)
                ∷ (72, g')
                ∷ (88, next')
                ∷ [])
              (get_elem? sp.bytes))
      × (r.name ≡ sp.name)
      × (r.p.size ≡ sp.max_np * 32)
      × (r.p.byte ≡ get_elem? (take (sp.np * 32) sp.p))
      × (r.pm.size ≡ sp.max_nm * 16)
      × (r.pm.byte ≡ get_elem? (take (sp.nm * 16) sp.pm))
      × (r.partition.size ≡ (sp.nv + 1) * 4)
      × (r.partition.byte ≡ get_elem? sp.partition)
      × (r.g ≡ g')
      × (r.next ≡ next')
unfolding checkpt_species restore_species is_alignment set_members set_pointer
restore_species-checkpt_species s t out rest sp at g' next' v valid booted small grid after =
    let (w1, b1, write1, read1, size1, same1) =
      whole_lem sp.bytes 96 0 v.bytes (omega arith) (omega arith) refl in
    let (w2, b2, write2, read2, size2, align2, same2) =
      block_lem sp.p (sp.np * 32) (sp.max_np * 32) 128 (omega (arith, v.p.0)) v.p.1 v.p.2
        (omega arith) refl in
    let (w3, b3, write3, read3, size3, align3, same3) =
      block_lem sp.pm (sp.nm * 16) (sp.max_nm * 16) 128 (omega (arith, v.pm.0)) v.pm.1 v.pm.2
        (omega arith) refl in
    let (w4, b4, write4, read4, size4, same4) =
      whole_lem sp.partition ((sp.nv + 1) * 4) 128 v.partition.0 v.partition.1 (omega arith) refl in
    let (w5, write5, read5) = checkpt_restore_ptr_lem s t sp.g g' valid booted small grid in
    let (w6, write6, read6) = checkpt_restore_ptr_lem s t sp.next next' valid booted small after in
    (
      w1 ++ (str_bytes sp.name ++ (w2 ++ (w3 ++ (w4 ++ (w5 ++ w6))))),
      record {
        sp = set_members at g' next' b1;
        name = sp.name;
        p = b2;
        pm = b3;
        partition = b4;
        g = g';
        next = next';
      },
      rw
          (
            write1 s out,
            checkpt_str_lem s _ sp.name,
            write2 s _,
            write3 s _,
            write4 s _,
            write5 _,
            write6 _,
          )
          (simp append_assoc),
      simp append_assoc (
          rw
            (
              read1 t _,
              restore_str_lem t _ sp.name v.name,
              read2 t _,
              read3 t _,
              read4 t _,
              read5 _,
              read6 _,
            )
            refl),
      ap
          (with_pointers (
            (0, at.name)
            ∷ (24, at.p)
            ∷ (40, at.pm)
            ∷ (64, at.partition)
            ∷ (72, g')
            ∷ (88, next')
            ∷ []))
          same1,
      refl,
      size2,
      same2,
      size3,
      same3,
      size4,
      same4,
      refl,
      refl,
    )
