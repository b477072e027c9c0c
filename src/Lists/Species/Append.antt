-- ===== src/Lists/Species/Append.antt =====
-- A list of species as `append_species` builds it, and that it keeps this form.
use vpic.Prelude.{
  ℕ, ◌<◌, ◌≡◌, ◌≢◌, refl, ap, ◌⊎◌, not, some, List, ◌∷◌, arith, length, update, ◌==◌, ◌&&◌,
  Bool-cases, inl, inr,
}
use vpic.Lists.Result.{done, failed, bad_args, already_in_list, name_taken, other_grid}
use vpic.Lists.Chain.{find_first-first_in, first_in}
use vpic.Lists.Listed.{IsListed, IsLinked, IsListed-IsLinked, number_of-length}
use vpic.Lists.Names.{named}
use vpic.Lists.Species.{
  Species, grid_at, name_at, id_at, next_at, num_species, find_species_name, append_species,
}

abbrev pub IsSpecies {ℓ} : {F : Type ℓ} → (ℕ → Species F) → ℕ → List ℕ → Type 0
IsSpecies s list nodes = IsListed (next_at s) (id_at s) (name_at s) list nodes

-- The memory after an append of `m` to a list of `n` species.
unfoldable linked {ℓ} : {F : Type ℓ} (s : ℕ → Species F) (m n list : ℕ) → ℕ → Species F
linked s m n list = update s m (record (s m) { id = n; next = list })

linked-IsLinked {ℓ} :
    {F : Type ℓ} (s : ℕ → Species F) (m n list : ℕ)
    → IsLinked
        (next_at s)
        (id_at s)
        (next_at (linked s m n list))
        (id_at (linked s m n list))
        (name_at s)
        (name_at (linked s m n list))
        m
        n
        list
unfolding linked update
linked-IsLinked s m n list = record {
  link = ground arith;
  number = ground arith;
  links_kept = λ a ne. ground arith;
  numbers_kept = λ a ne. ground arith;
  names_kept = λ a. ground (arith, ap (name_at s) {x = a} {y = m});
}

module _ {ℓ} {F : Type ℓ} (s : ℕ → Species F) (list : ℕ) (nodes : List ℕ)
    (v : IsSpecies s list nodes) where
  pub num_species-length : num_species s list ≡ length nodes
  unfolding num_species
  num_species-length = number_of-length (next_at s) (id_at s) list nodes v.chain v.numbered

  pub find_species_name_lem :
      (fuel : ℕ) (name : List ℕ)
      → length nodes < fuel
      → find_species_name s fuel (some name) list ≡ some (first_in (named (name_at s) name) nodes)
  unfolding find_species_name
  find_species_name_lem fuel name enough =
      find_first-first_in (next_at s) (named (name_at s) name) fuel list nodes v.chain enough

  -- With fuel for every node, appending a species to a well-formed list ends. The first of these
  -- that holds says how: the species is NULL, or is linked to another, or has a name that the list
  -- has, or the list is not empty and its head has another grid, each with an error of its own; else
  -- the list is well-formed with the species in front.
  pub append_species-IsSpecies :
      (fuel m : ℕ)
      → length nodes < fuel
      → ((append_species s fuel m (some list) ≡ failed bad_args) × (m ≡ 0))
        ⊎ ((append_species s fuel m (some list) ≡ failed already_in_list)
            × (m ≢ 0)
            × (next_at s m ≢ 0))
        ⊎ ((append_species s fuel m (some list) ≡ failed name_taken)
            × (m ≢ 0)
            × (next_at s m ≡ 0)
            × (first_in (named (name_at s) (name_at s m)) nodes ≢ 0))
        ⊎ ((append_species s fuel m (some list) ≡ failed other_grid)
            × (m ≢ 0)
            × (next_at s m ≡ 0)
            × (first_in (named (name_at s) (name_at s m)) nodes ≡ 0)
            × (list ≢ 0)
            × (grid_at s m ≢ grid_at s list))
        ⊎ ((s' : ℕ → Species F) × (append_species s fuel m (some list) ≡ done (s', m))
            × IsSpecies s' m (m ∷ nodes)
            × (m ≢ 0)
            × (next_at s m ≡ 0)
            × (first_in (named (name_at s) (name_at s m)) nodes ≡ 0)
            × ((list ≡ 0) ⊎ (grid_at s m ≡ grid_at s list)))
  unfolding append_species linked
  append_species-IsSpecies fuel m enough =
      let search = find_species_name_lem fuel (name_at s m) enough in
      let taken = first_in (named (name_at s) (name_at s m)) nodes in
      let other = not (list == 0) && not (grid_at s m == grid_at s list) in
      elim (Bool-cases (m == 0)) [
        | inl null ↦ inl (rw null refl, ground arith)
        | inr valid ↦ elim (Bool-cases (next_at s m == 0)) [
          | inr joined ↦ inr (inl (rw (valid, joined) refl, ground arith, ground arith))
          | inl single ↦ elim (Bool-cases (taken == 0)) [
            | inr known ↦ inr (
                inr (
                  inl (
                    rw (valid, single, search, known) refl,
                    ground arith,
                    ground arith,
                    ground arith,
                  )))
            | inl new ↦ elim (Bool-cases other) [
              | inl foreign ↦ inr (
                  inr (
                    inr (
                      inl (
                        rw (valid, single, search, new, foreign) refl,
                        ground arith,
                        ground arith,
                        ground arith,
                        ground arith,
                        ground arith,
                      ))))
              | inr same ↦ inr (
                  inr (
                    inr (
                      inr (
                        linked s m (length nodes) list,
                        rw (valid, single, search, new, same, num_species-length) refl,
                        IsListed-IsLinked m nodes v (linked-IsLinked s m (length nodes) list)
                            (ground arith) (ground arith),
                        ground arith,
                        ground arith,
                        ground arith,
                        ground arith,
                      ))))
            ]
          ]
        ]
      ]
