-- ===== src/Lists/Material/Find.antt =====
-- The searches find every material of a list.
use vpic.Prelude.{ℕ, ◌+◌, ◌<◌, ◌≡◌, some, List, length, get_elem?, ◌==◌, ◌∙◌, ap}
use vpic.Lists.Chain.{find_first-first_in, Numbered-first_in}
use vpic.Lists.Names.{first_in-named}
use vpic.Lists.Material.{Material, name_at, id_at, next_at, find_material_id, find_material_name}
use vpic.Lists.Material.Append.{IsMaterials, find_material_name_lem}

module _ {ℓ} {F : Type ℓ} (s : ℕ → Material F) (list : ℕ) (nodes : List ℕ)
    (v : IsMaterials s list nodes) where
  -- With fuel for every node, each material of a well-formed list is found by its identifier and by
  -- its name, and its identifier is the number of materials behind it.
  pub find_material_lem :
      (fuel k a : ℕ)
      → length nodes < fuel
      → get_elem? nodes k ≡ some a
      → (find_material_id s fuel (id_at s a) list ≡ some a)
        × (find_material_name s fuel (some (name_at s a)) list ≡ some a)
        × (id_at s a + k + 1 ≡ length nodes)
  unfolding find_material_id
  find_material_lem fuel k a enough e =
      let (place, found) = Numbered-first_in (id_at s) nodes k a v.numbered e in
      (
        find_first-first_in (next_at s) (λ b. id_at s b == id_at s a) fuel list nodes v.chain enough
            ∙ ap some found,
        find_material_name_lem s list nodes v fuel (name_at s a) enough
            ∙ ap some (first_in-named (name_at s) nodes k a v.names e),
        place,
      )
