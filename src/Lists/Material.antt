-- ===== src/Lists/Material.antt =====
-- The list of materials, src/material/material.cc: its search and its growth. A material's numbers
-- are of a type `F`.
pub mod Append
pub mod Find
pub mod Saving
use vpic.Prelude.{ℕ, ◌+◌, Bool, not, Option, none, some, List, update, ◌==◌, leb, if◌then◌else◌}
use vpic.Prelude.Int.{ℤ, pos, negsuc}
use vpic.Lists.Result.{
  Result, done, failed, bad_args, already_in_list, name_taken, too_many, other_grid, out_of_fuel,
}
use vpic.Lists.Chain.{find_first}
use vpic.Lists.Names.{named}
use vpic.Lists.Listed.{number_of}

-- `material_t`
pub record Material {ℓ} (F : Type ℓ) : Type ℓ where
  pub name : List ℕ
  pub epsx : F
  pub epsy : F
  pub epsz : F
  pub mux : F
  pub muy : F
  pub muz : F
  pub sigmax : F
  pub sigmay : F
  pub sigmaz : F
  pub zetax : F
  pub zetay : F
  pub zetaz : F
  pub id : ℕ
  pub next : ℕ

abbrev pub max_material : ℕ
max_material = 32768

module _ {ℓ} {F : Type ℓ} (s : ℕ → Material F) where
  abbrev pub name_at : ℕ → List ℕ
  name_at a = (s a).name

  abbrev pub id_at : ℕ → ℕ
  id_at a = (s a).id

  abbrev pub next_at : ℕ → ℕ
  next_at a = (s a).next

  unfoldable pub num_material : ℕ → ℕ
  num_material list = number_of id_at list

  unfoldable pub get_material_id : (m : ℕ) → ℤ
  get_material_id m = if m == 0 then negsuc 0 else pos (id_at m)

  unfoldable pub find_material_name : (fuel : ℕ) → Option (List ℕ) → ℕ → Option ℕ
  find_material_name fuel none list = some 0
  find_material_name fuel (some name) list = find_first next_at (named name_at name) fuel list

  unfoldable pub find_material_id : (fuel id list : ℕ) → Option ℕ
  find_material_id fuel id list = find_first next_at (λ a. id_at a == id) fuel list

  -- The memory and the list after the call, which returns the material. The conversion of `id` to
  -- `material_id`, of 16 bits, keeps what passes the test against `max_material`.
  unfoldable pub append_material : (fuel m : ℕ) → Option ℕ → Result ((ℕ → Material F) × ℕ)
  append_material fuel m none = failed bad_args
  append_material fuel m (some list) =
      if m == 0
      then failed bad_args
      else if not (next_at m == 0)
      then failed already_in_list
      else elim (find_material_name fuel (some (name_at m)) list) [
        | none ↦ failed out_of_fuel
        | some a ↦
            if not (a == 0)
            then failed name_taken
            else if leb max_material (num_material list)
            then failed too_many
            else done (update s m (record (s m) { id = num_material list; next = list }), m)
      ]
