-- ===== src/Lists/Material/Append.antt =====
-- A list of materials as `append_material` builds it, and that it keeps this form.
use vpic.Prelude.{
  ℕ, ◌≤◌, ◌<◌, ◌≡◌, ◌≢◌, refl, ap, ◌⊎◌, some, List, ◌∷◌, arith, length, update, ◌==◌, leb,
  Bool-cases, inl, inr,
}
use vpic.Lists.Result.{done, failed, bad_args, already_in_list, name_taken, too_many}
use vpic.Lists.Chain.{find_first-first_in, first_in}
use vpic.Lists.Listed.{IsListed, IsLinked, IsListed-IsLinked, number_of-length}
use vpic.Lists.Names.{named}
use vpic.Lists.Material.{
  Material, name_at, id_at, next_at, max_material, num_material, find_material_name,
  append_material,
}

abbrev pub IsMaterials {ℓ} : {F : Type ℓ} → (ℕ → Material F) → ℕ → List ℕ → Type 0
IsMaterials s list nodes = IsListed (next_at s) (id_at s) (name_at s) list nodes

-- The memory after an append of `m` to a list of `n` materials.
unfoldable linked {ℓ} : {F : Type ℓ} (s : ℕ → Material F) (m n list : ℕ) → ℕ → Material F
linked s m n list = update s m (record (s m) { id = n; next = list })

linked-IsLinked {ℓ} :
    {F : Type ℓ} (s : ℕ → Material F) (m n list : ℕ)
    → IsLinked
        (next_at s)
        (id_at s)
        (next_at (linked s m n list))
        (id_at (linked s m n list))
        (name_at s)
        (name_at (linked s m n list))
        m
        n
        list
unfolding linked update
linked-IsLinked s m n list = record {
  link = ground arith;
  number = ground arith;
  links_kept = λ a ne. ground arith;
  numbers_kept = λ a ne. ground arith;
  names_kept = λ a. ground (arith, ap (name_at s) {x = a} {y = m});
}

module _ {ℓ} {F : Type ℓ} (s : ℕ → Material F) (list : ℕ) (nodes : List ℕ)
    (v : IsMaterials s list nodes) where
  pub num_material-length : num_material s list ≡ length nodes
  unfolding num_material
  num_material-length = number_of-length (next_at s) (id_at s) list nodes v.chain v.numbered

  pub find_material_name_lem :
      (fuel : ℕ) (name : List ℕ)
      → length nodes < fuel
      → find_material_name s fuel (some name) list ≡ some (first_in (named (name_at s) name) nodes)
  unfolding find_material_name
  find_material_name_lem fuel name enough =
      find_first-first_in (next_at s) (named (name_at s) name) fuel list nodes v.chain enough

  -- With fuel for every node, appending a material to a well-formed list ends. The first of these
  -- that holds says how: the material is NULL, or is linked to another, or has a name that the list
  -- has, or the list is full, each with an error of its own; else the list is well-formed with the
  -- material in front.
  pub append_material-IsMaterials :
      (fuel m : ℕ)
      → length nodes < fuel
      → ((append_material s fuel m (some list) ≡ failed bad_args) × (m ≡ 0))
        ⊎ ((append_material s fuel m (some list) ≡ failed already_in_list)
            × (m ≢ 0)
            × (next_at s m ≢ 0))
        ⊎ ((append_material s fuel m (some list) ≡ failed name_taken)
            × (m ≢ 0)
            × (next_at s m ≡ 0)
            × (first_in (named (name_at s) (name_at s m)) nodes ≢ 0))
        ⊎ ((append_material s fuel m (some list) ≡ failed too_many)
            × (m ≢ 0)
            × (next_at s m ≡ 0)
            × (first_in (named (name_at s) (name_at s m)) nodes ≡ 0)
            × (max_material ≤ length nodes))
        ⊎ ((s' : ℕ → Material F) × (append_material s fuel m (some list) ≡ done (s', m))
            × IsMaterials s' m (m ∷ nodes)
            × (m ≢ 0)
            × (next_at s m ≡ 0)
            × (first_in (named (name_at s) (name_at s m)) nodes ≡ 0)
            × (length nodes < max_material))
  unfolding append_material linked
  append_material-IsMaterials fuel m enough =
      let search = find_material_name_lem fuel (name_at s m) enough in
      let taken = first_in (named (name_at s) (name_at s m)) nodes in
      elim (Bool-cases (m == 0)) [
        | inl null ↦ inl (rw null refl, ground arith)
        | inr valid ↦ elim (Bool-cases (next_at s m == 0)) [
          | inr joined ↦ inr (inl (rw (valid, joined) refl, ground arith, ground arith))
          | inl single ↦ elim (Bool-cases (taken == 0)) [
            | inr known ↦ inr (
                inr (
                  inl (
                    rw (valid, single, search, known) refl,
                    ground arith,
                    ground arith,
                    ground arith,
                  )))
            | inl new ↦ elim (Bool-cases (leb max_material (length nodes))) [
              | inl full ↦ inr (
                  inr (
                    inr (
                      inl (
                        rw (valid, single, search, new, num_material-length, full) refl,
                        ground arith,
                        ground arith,
                        ground arith,
                        ground arith,
                      ))))
              | inr room ↦ inr (
                  inr (
                    inr (
                      inr (
                        linked s m (length nodes) list,
                        rw (valid, single, search, new, num_material-length, room) refl,
                        IsListed-IsLinked m nodes v (linked-IsLinked s m (length nodes) list)
                            (ground arith) (ground arith),
                        ground arith,
                        ground arith,
                        ground arith,
                        ground arith,
                      ))))
            ]
          ]
        ]
      ]
