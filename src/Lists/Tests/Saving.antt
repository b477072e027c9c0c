-- ===== src/Lists/Tests/Saving.antt =====
-- The theorems on saved materials and species at small ones.
use vpic.Prelude.{
  get_elem?, take, zero, suc, true, ◌++◌, inl, inr, ℕ, ◌≡◌, refl, none, some, List, [], ◌∷◌, arith,
}
use vpic.Checkpt.Service.{Node, Service, ok}
use vpic.Checkpt.Stream.Laws.{writing, reading}
use vpic.Checkpt.Registry.{find_obj, find_id}
use vpic.Checkpt.Registry.Valid.{IsValid}
use vpic.Checkpt.Items.Data.{Block}
use vpic.Checkpt.Items.Strings.{strlen}
use vpic.Checkpt.Items.Symbols.{Linker, SymbolInfo}
use vpic.Lists.Saving.Structure.{with_pointers}
use vpic.Checkpt.Items.Pointers.{Relocates}
use vpic.Lists.Material.Saving.{
  checkpt_material, restore_material, restore_material-checkpt_material,
}
use vpic.Lists.Species.Saving.{
  Addresses, Image, Restored, IsImage, checkpt_species, restore_species,
  restore_species-checkpt_species,
}

-- A service with the objects 32 and 16 under the identifiers 1 and 2, and one where these are 1032
-- and 1016.
abbrev registered : ℕ → ℕ → Node
registered obj id = record {
  obj = obj;
  checkpt_func = 0;
  restore_func = 0;
  reanimate_func = 0;
  id = id;
}

abbrev saving : Service
saving = record {
  booted = true;
  checkpt = none;
  restore = none;
  registry = registered 32 1 ∷ registered 16 2 ∷ [];
  next_id = 3;
}

abbrev restoring : Service
restoring = record saving { registry = registered 1032 1 ∷ registered 1016 2 ∷ [] }

saving-IsValid : IsValid saving
unfolding find_obj
saving-IsValid = record {
  ids = (omega arith, (omega arith, omega arith));
  objs = (omega arith, refl, (omega arith, refl, tt));
}

sixteen-Relocates : Relocates saving restoring 16 1016
unfolding find_obj find_id
sixteen-Relocates = (refl, inr (omega arith, omega arith, refl))

-- `n` bytes.
abbrev bytes_of : ℕ → List ℕ
bytes_of zero = []
bytes_of (suc n) = n ∷ bytes_of n

restore_material-checkpt_material_example :
    (bytes : List ℕ) × (b : Block) × (checkpt_material
        (bytes_of 72)
        (some (98 ∷ []))
        16
        (writing saving [])
      ≡ ok tt (writing saving bytes))
    × (restore_material 3000 (reading restoring (bytes ++ (7 ∷ [])))
        ≡ ok (b, some (98 ∷ []), 1016) (reading restoring (7 ∷ [])))
    × (b.size ≡ 72)
    × (b.byte ≡ with_pointers ((0, 3000) ∷ (64, 1016) ∷ []) (get_elem? (bytes_of 72)))
unfolding strlen
restore_material-checkpt_material_example =
    restore_material-checkpt_material saving restoring [] (7 ∷ []) (bytes_of 72) (some (98 ∷ [])) 16
      1016 3000 refl (refl, omega arith) saving-IsValid refl (omega arith) sixteen-Relocates

-- One particle of two that fit, no mover of one, and a grid of two voxels.
abbrev image : Image
image = record {
  bytes = bytes_of 96;
  name = some (98 ∷ []);
  p = bytes_of 64;
  np = 1;
  max_np = 2;
  pm = bytes_of 16;
  nm = 0;
  max_nm = 1;
  partition = bytes_of 12;
  nv = 2;
  g = 16;
  next = 0;
}

image-IsImage : IsImage image
unfolding strlen
image-IsImage = record {
  bytes = refl;
  name = (refl, omega arith);
  p = (omega arith, refl, omega arith);
  pm = (omega arith, refl, omega arith);
  partition = (refl, omega arith);
}

null-Relocates : Relocates saving restoring 0 0
unfolding find_obj find_id
null-Relocates = (refl, inl (refl, refl))

abbrev addresses : Addresses
addresses = record { name = 3000; p = 4096; pm = 5120; partition = 6144 }

restore_species-checkpt_species_example :
    (bytes : List ℕ) × (r : Restored) × (checkpt_species image (writing saving [])
      ≡ ok tt (writing saving bytes))
    × (restore_species addresses (reading restoring (bytes ++ (7 ∷ [])))
        ≡ ok r (reading restoring (7 ∷ [])))
    × (r.sp.byte
        ≡ with_pointers
            ((0, 3000) ∷ (24, 4096) ∷ (40, 5120) ∷ (64, 6144) ∷ (72, 1016) ∷ (88, 0) ∷ [])
            (get_elem? (bytes_of 96)))
    × (r.name ≡ some (98 ∷ []))
    × (r.p.size ≡ 64)
    × (r.p.byte ≡ get_elem? (take 32 (bytes_of 64)))
    × (r.pm.size ≡ 16)
    × (r.pm.byte ≡ get_elem? (take 0 (bytes_of 16)))
    × (r.partition.size ≡ 12)
    × (r.partition.byte ≡ get_elem? (bytes_of 12))
    × (r.g ≡ 1016)
    × (r.next ≡ 0)
restore_species-checkpt_species_example =
    restore_species-checkpt_species saving restoring [] (7 ∷ []) image addresses 1016 0
      image-IsImage saving-IsValid refl (omega arith) sixteen-Relocates null-Relocates

-- A linker that knows no names: symbols are saved by their addresses.
abbrev nameless : SymbolInfo
nameless = record { sname = none; fname = none }

abbrev linker : Linker
linker = record { dladdr = λ a. some nameless; dlsym = λ name. none }
