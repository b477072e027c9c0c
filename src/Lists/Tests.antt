-- ===== src/Lists/Tests.antt =====
-- The theorems on the lists at two nodes.
mod Saving
use vpic.Prelude.{
  zero, suc, true, ◌++◌, inl, inr, ℕ, ◌+◌, ◌<◌, ◌≤◌, ◌≡◌, ◌≢◌, refl, ◌⊎◌, none, some, List, [], ◌∷◌,
  arith, ◌==◌, if◌then◌else◌,
}
use vpic.Checkpt.Service.{Node, Service, ok}
use vpic.Checkpt.Stream.Laws.{writing, reading}
use vpic.Checkpt.Registry.{find_obj, find_id}
use vpic.Checkpt.Registry.Valid.{IsValid}
use vpic.Checkpt.Items.Data.{Block}
use vpic.Checkpt.Items.Strings.{strlen}
use vpic.Checkpt.Items.Pointers.{Relocates}
use vpic.Lists.Material.Saving.{
  checkpt_material, restore_material, restore_material-checkpt_material,
}
use vpic.Lists.Species.Saving.{
  Image, Restored, IsImage, checkpt_species, restore_species, restore_species-checkpt_species,
}
use vpic.Lists.Chain.{IsChain, Absent, first_in}
use vpic.Lists.Names.{named, same_name}
use vpic.Lists.Material
use vpic.Lists.Material.Append.{IsMaterials, append_material-IsMaterials}
use vpic.Lists.Material.Find.{find_material_lem}
use vpic.Lists.Species
use vpic.Lists.Species.Append.{IsSpecies, append_species-IsSpecies}
use vpic.Lists.Species.Find.{find_species_lem}
use vpic.Lists.Collision.{
  CollisionOp, next_op, num_collision_op, append_collision_op, num_collision_op-append_collision_op,
  append_collision_op-last,
}
use vpic.Prelude.Int.{ℤ, pos, negsuc}
use vpic.Lists.Boundary.{
  ParticleBc, next_pbc, CountedDown, append_particle_bc, num_particle_bc,
  append_particle_bc-CountedDown,
}
use vpic.Lists.Emitter.{Emitter, next_emitter, append_emitter, append_emitter-IsChain}
use vpic.Lists.Result.{done, failed, bad_args, already_in_list, name_taken, too_many, other_grid}

-- At 16 stands "a", appended first, at 32 stands "b", and 48 holds a "c" in no list.
abbrev name_of : ℕ → List ℕ
name_of a = (if a == 16 then 97 else if a == 32 then 98 else 99) ∷ []

abbrev id_of : ℕ → ℕ
id_of a = if a == 32 then 1 else 0

abbrev next_of : ℕ → ℕ
next_of a = if a == 32 then 16 else 0

abbrev nodes : List ℕ
nodes = 32 ∷ 16 ∷ []

abbrev materials : ℕ → Material.Material ℕ
materials a = record {
  name = name_of a;
  epsx = 1;
  epsy = 1;
  epsz = 1;
  mux = 1;
  muy = 1;
  muz = 1;
  sigmax = 0;
  sigmay = 0;
  sigmaz = 0;
  zetax = 0;
  zetay = 0;
  zetaz = 0;
  id = id_of a;
  next = next_of a;
}

nodes-IsMaterials : IsMaterials materials 32 nodes
unfolding same_name first_in
nodes-IsMaterials = record {
  chain = (refl, omega arith, (refl, omega arith, refl));
  numbered = (refl, (refl, tt));
  names = (omega arith, refl, (omega arith, refl, tt));
}

append_material-IsMaterials_example :
    ((Material.append_material materials 5 48 (some 32) ≡ failed bad_args) × ◌≡◌ {A = ℕ} 48 0)
    ⊎ ((Material.append_material materials 5 48 (some 32) ≡ failed already_in_list)
        × ◌≢◌ {A = ℕ} 48 0
        × (Material.next_at materials 48 ≢ 0))
    ⊎ ((Material.append_material materials 5 48 (some 32) ≡ failed name_taken)
        × ◌≢◌ {A = ℕ} 48 0
        × (Material.next_at materials 48 ≡ 0)
        × (first_in (named (Material.name_at materials) (99 ∷ [])) nodes ≢ 0))
    ⊎ ((Material.append_material materials 5 48 (some 32) ≡ failed too_many)
        × ◌≢◌ {A = ℕ} 48 0
        × (Material.next_at materials 48 ≡ 0)
        × (first_in (named (Material.name_at materials) (99 ∷ [])) nodes ≡ 0)
        × (Material.max_material ≤ 2))
    ⊎ ((s' : ℕ → Material.Material ℕ) × (Material.append_material materials 5 48 (some 32)
          ≡ done (s', 48))
        × IsMaterials s' 48 (48 ∷ nodes)
        × ◌≢◌ {A = ℕ} 48 0
        × (Material.next_at materials 48 ≡ 0)
        × (first_in (named (Material.name_at materials) (99 ∷ [])) nodes ≡ 0)
        × (2 < Material.max_material))
append_material-IsMaterials_example =
    append_material-IsMaterials materials 32 nodes nodes-IsMaterials 5 48 (omega arith)

find_material_lem_example :
    (Material.find_material_id materials 5 0 32 ≡ some 16)
    × (Material.find_material_name materials 5 (some (97 ∷ [])) 32 ≡ some 16)
    × (◌≡◌ {A = ℕ} (0 + 1 + 1) 2)
find_material_lem_example =
    find_material_lem materials 32 nodes nodes-IsMaterials 5 1 16 (omega arith) refl

-- All of the grid at 1000.
abbrev all_species : ℕ → Species.Species ℕ
all_species a = record { name = name_of a; q = 1; m = 1; g = 1000; id = id_of a; next = next_of a }

nodes-IsSpecies : IsSpecies all_species 32 nodes
unfolding same_name first_in
nodes-IsSpecies = record {
  chain = (refl, omega arith, (refl, omega arith, refl));
  numbered = (refl, (refl, tt));
  names = (omega arith, refl, (omega arith, refl, tt));
}

append_species-IsSpecies_example :
    ((Species.append_species all_species 5 48 (some 32) ≡ failed bad_args) × ◌≡◌ {A = ℕ} 48 0)
    ⊎ ((Species.append_species all_species 5 48 (some 32) ≡ failed already_in_list)
        × ◌≢◌ {A = ℕ} 48 0
        × (Species.next_at all_species 48 ≢ 0))
    ⊎ ((Species.append_species all_species 5 48 (some 32) ≡ failed name_taken)
        × ◌≢◌ {A = ℕ} 48 0
        × (Species.next_at all_species 48 ≡ 0)
        × (first_in (named (Species.name_at all_species) (99 ∷ [])) nodes ≢ 0))
    ⊎ ((Species.append_species all_species 5 48 (some 32) ≡ failed other_grid)
        × ◌≢◌ {A = ℕ} 48 0
        × (Species.next_at all_species 48 ≡ 0)
        × (first_in (named (Species.name_at all_species) (99 ∷ [])) nodes ≡ 0)
        × ◌≢◌ {A = ℕ} 32 0
        × (Species.grid_at all_species 48 ≢ Species.grid_at all_species 32))
    ⊎ ((s' : ℕ → Species.Species ℕ) × (Species.append_species all_species 5 48 (some 32)
          ≡ done (s', 48))
        × IsSpecies s' 48 (48 ∷ nodes)
        × ◌≢◌ {A = ℕ} 48 0
        × (Species.next_at all_species 48 ≡ 0)
        × (first_in (named (Species.name_at all_species) (99 ∷ [])) nodes ≡ 0)
        × ((◌≡◌ {A = ℕ} 32 0) ⊎ (Species.grid_at all_species 48 ≡ Species.grid_at all_species 32)))
append_species-IsSpecies_example =
    append_species-IsSpecies all_species 32 nodes nodes-IsSpecies 5 48 (omega arith)

find_species_lem_example :
    (Species.find_species_id all_species 5 0 32 ≡ some 16)
    × (Species.find_species_name all_species 5 (some (97 ∷ [])) 32 ≡ some 16)
    × (◌≡◌ {A = ℕ} (0 + 1 + 1) 2)
find_species_lem_example =
    find_species_lem all_species 32 nodes nodes-IsSpecies 5 1 16 (omega arith) refl

abbrev ops : ℕ → CollisionOp
ops a = record { params = 7; apply = 8; delete_cop = 9; next = next_of a }

num_collision_op-append_collision_op_example :
    (s' : ℕ → CollisionOp) × (append_collision_op ops 48 (some 32) ≡ some (s', 48))
    × IsChain (next_op s') 48 (48 ∷ nodes)
    × (num_collision_op s' 5 48 ≡ some 3)
num_collision_op-append_collision_op_example =
    num_collision_op-append_collision_op ops 5 48 32 nodes
      (refl, omega arith, (refl, omega arith, refl)) (omega arith, (omega arith, tt)) (omega arith)
      refl (omega arith)

append_collision_op-last_example :
    (s' : ℕ → CollisionOp) × (append_collision_op ops 16 (some 32) ≡ some (s', 16))
    × ((fuel : ℕ) → num_collision_op s' fuel 16 ≡ none)
append_collision_op-last_example =
    append_collision_op-last ops 16 32 (32 ∷ []) (refl, omega arith, (refl, omega arith, refl))

abbrev emitters : ℕ → Emitter
emitters a = record {
  params = 7;
  emit = 8;
  delete_e = 9;
  component = 0;
  n_component = 0;
  next = next_of a;
}

append_emitter-IsChain_example :
    ((append_emitter emitters 5 16 (some 32) ≡ failed bad_args) × ◌≡◌ {A = ℕ} 16 0)
    ⊎ ((append_emitter emitters 5 16 (some 32) ≡ done (emitters, 32))
        × ◌≢◌ {A = ℕ} 16 0
        × (first_in (λ ee. ee == 16) nodes ≡ 16))
    ⊎ ((append_emitter emitters 5 16 (some 32) ≡ failed already_in_list)
        × ◌≢◌ {A = ℕ} 16 0
        × Absent 16 nodes
        × (next_emitter emitters 16 ≢ 0))
    ⊎ ((s' : ℕ → Emitter) × (append_emitter emitters 5 16 (some 32) ≡ done (s', 16))
        × IsChain (next_emitter s') 16 (16 ∷ nodes)
        × ◌≢◌ {A = ℕ} 16 0
        × Absent 16 nodes
        × (next_emitter emitters 16 ≡ 0))
append_emitter-IsChain_example =
    append_emitter-IsChain emitters 5 16 32 nodes (refl, omega arith, (refl, omega arith, refl))
      (omega arith)

-- The nodes under the identifiers -4 and -3.
abbrev boundaries : ℕ → ParticleBc
boundaries a = record {
  params = 7;
  interact = 8;
  delete_pbc = 9;
  id = if a == 32 then negsuc 3 else negsuc 2;
  next = next_of a;
}

append_particle_bc-CountedDown_example :
    (s' : ℕ → ParticleBc) × (append_particle_bc boundaries 48 (some 32) ≡ some (s', 48))
    × IsChain (next_pbc s') 48 (48 ∷ nodes)
    × CountedDown s' (48 ∷ nodes)
    × (num_particle_bc s' 48 ≡ pos 3)
append_particle_bc-CountedDown_example =
    append_particle_bc-CountedDown boundaries 48 32 nodes
      (refl, omega arith, (refl, omega arith, refl)) (refl, (refl, tt))
      (omega arith, (omega arith, tt)) (omega arith) refl
