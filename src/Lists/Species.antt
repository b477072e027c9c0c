-- ===== src/Lists/Species.antt =====
-- The list of species, src/species_advance/species_advance.cc: its search and its growth. A species'
-- charge and mass are of a type `F`.
pub mod Append
pub mod Find
pub mod Saving
use vpic.Prelude.{
  ℕ, ◌+◌, Bool, not, ◌&&◌, Option, none, some, List, update, ◌==◌, leb, if◌then◌else◌,
}
use vpic.Lists.Result.{
  Result, done, failed, bad_args, already_in_list, name_taken, too_many, other_grid, out_of_fuel,
}
use vpic.Lists.Chain.{find_first}
use vpic.Lists.Names.{named}
use vpic.Lists.Listed.{number_of}

-- The members of `species_t` that do not belong to its particles; `g` is the address of its grid.
pub record Species {ℓ} (F : Type ℓ) : Type ℓ where
  pub name : List ℕ
  pub q : F
  pub m : F
  pub g : ℕ
  pub id : ℕ
  pub next : ℕ

module _ {ℓ} {F : Type ℓ} (s : ℕ → Species F) where
  abbrev pub name_at : ℕ → List ℕ
  name_at a = (s a).name

  abbrev pub id_at : ℕ → ℕ
  id_at a = (s a).id

  abbrev pub next_at : ℕ → ℕ
  next_at a = (s a).next

  abbrev pub grid_at : ℕ → ℕ
  grid_at a = (s a).g

  unfoldable pub num_species : ℕ → ℕ
  num_species list = number_of id_at list

  unfoldable pub find_species_name : (fuel : ℕ) → Option (List ℕ) → ℕ → Option ℕ
  find_species_name fuel none list = some 0
  find_species_name fuel (some name) list = find_first next_at (named name_at name) fuel list

  unfoldable pub find_species_id : (fuel id list : ℕ) → Option ℕ
  find_species_id fuel id list = find_first next_at (λ a. id_at a == id) fuel list

  -- The memory and the list after the call, which returns the species.
  unfoldable pub append_species : (fuel sp : ℕ) → Option ℕ → Result ((ℕ → Species F) × ℕ)
  append_species fuel sp none = failed bad_args
  append_species fuel sp (some list) =
      if sp == 0
      then failed bad_args
      else if not (next_at sp == 0)
      then failed already_in_list
      else elim (find_species_name fuel (some (name_at sp)) list) [
        | none ↦ failed out_of_fuel
        | some a ↦
            if not (a == 0)
            then failed name_taken
            else if not (list == 0) && not (grid_at sp == grid_at list)
            then failed other_grid
            else done (update s sp (record (s sp) { id = num_species list; next = list }), sp)
      ]
