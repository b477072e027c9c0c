-- ===== src/Sort/Pipeline/Result.antt =====
-- What `sort_p_pipeline` makes of a species, and that it is what the serial sort makes of it.
use vpic.Prelude.{
  ℕ, ◌+◌, ◌*◌, ◌≤◌, ◌<◌, ◌≡◌, refl, sym, ◌∙◌, ap, Option, none, some, arith, Bool-cases, inl, inr,
  ◌==◌, get_elem?, sum_below,
}
use vpic.Grid.Voxel.{voxel, voxel_index}
use vpic.Sort.Scatter.{with_key}
use vpic.Sort.Legacy.{Particle, Species, voxel_of, particles, sort_out_of_place}
use vpic.Sort.Legacy.Places.{
  in_voxel, InVoxels, sort_out_of_place-partition, sort_out_of_place-places,
}
use vpic.Sort.Counting.{sum_below_locate}
use vpic.Sort.Runs.{IsFilled, count_outside}
use vpic.Sort.Pipeline.{Arrays, Orders, arguments, sort_p_pipeline}
use vpic.Sort.Pipeline.Coarse.{IsDivision}
use vpic.Sort.Pipeline.Ghosts.{place_high}
use vpic.Sort.Pipeline.Places.{AreOrders, AllSorted, sort_many-AllSorted, sort_one-AllSorted}

-- The grid has voxels besides its ghosts, and every one of the `np` particles is in one of them.
pub record IsSortable {ℓ} {F : Type ℓ} (sp : Species F) : Type ℓ where
  pub nx_pos : 0 < sp.nx
  pub ny_pos : 0 < sp.ny
  pub nz_pos : 0 < sp.nz
  pub voxels : sp.nv ≡ (sp.nx + 2) * ((sp.ny + 2) * (sp.nz + 2))
  pub filled : IsFilled sp.p (voxel 1 1 1 sp.nx sp.ny) (voxel sp.nx sp.ny sp.nz sp.nx sp.ny) sp.np 0

-- What a result holds at an index.
abbrev pub p_at {ℓ} : {F : Type ℓ} → ℕ → Option (Species F) → Option (Option (Particle F))
p_at j none = none
p_at j (some sp) = some (sp.p j)

abbrev pub partition_at {ℓ} : {F : Type ℓ} → ℕ → Option (Species F) → Option ℕ
partition_at v none = none
partition_at v (some sp) = some (sp.partition v)

module _ {ℓ} {F : Type ℓ} (sp : Species F) (sortable : IsSortable sp) where
  first_le : voxel 1 1 1 sp.nx sp.ny ≤ voxel sp.nx sp.ny sp.nz sp.nx sp.ny
  unfolding voxel
  first_le =
      let rows : (sp.ny + 2) * 1 ≤ (sp.ny + 2) * sp.nz = grind (arith, sortable.nz_pos) in
      let inner : 1 + (sp.ny + 2) * 1 ≤ sp.ny + (sp.ny + 2) * sp.nz =
        omega (arith, rows, sortable.ny_pos) in
      let outer : (sp.nx + 2) * (1 + (sp.ny + 2) * 1)
          ≤ (sp.nx + 2) * (sp.ny + (sp.ny + 2) * sp.nz) =
        grind (arith, inner) in
      omega (arith, outer, sortable.nx_pos)

  last_lt : voxel sp.nx sp.ny sp.nz sp.nx sp.ny < sp.nv
  last_lt =
      let (below, x, y, z) =
        voxel_index sp.nx sp.ny sp.nz sp.nx sp.ny sp.nz (omega arith) (omega arith) (omega arith) in
      omega (arith, below, sortable.voxels)

  all_InVoxels : InVoxels sp
  unfolding particles
  all_InVoxels v lt =
      count_outside sp.p (voxel 1 1 1 sp.nx sp.ny) (voxel sp.nx sp.ny sp.nz sp.nx sp.ny) sp.np 0 v
        sortable.filled (inr (omega (arith, last_lt, lt)))

  module _ (round : ℕ → ℕ → ℕ → ℕ) (stack : ℕ → ℕ) (P : ℕ) (orders : Orders)
      (scratch : Arrays F) where
    module _ (some_pipeline : 0 < P) (few : P ≤ 256) (division : IsDivision round sp.np P)
        (o : AreOrders P orders) where
      abbrev IsAll : Arrays F → Type ℓ
      IsAll = AllSorted round stack (arguments P sp) sp.p some_pipeline first_le sortable.filled

      pub sorts :
          (b : Species F) × (sort_p_pipeline round stack P orders scratch (some sp) ≡ some b)
          × ((v : ℕ) → v < sp.nv → b.partition v ≡ sum_below (in_voxel sp) v)
          × ((v m : ℕ)
              → m < in_voxel sp v
              → b.p (sum_below (in_voxel sp) v + m)
                ≡ get_elem? (with_key voxel_of v (particles sp)) m)
      unfolding sort_p_pipeline particles
      sorts = elim (Bool-cases (P == 1)) [
        | inl t ↦
            let a0 : Arrays F = record scratch { p = sp.p; partition = sp.partition } in
            let (b, runs, s) =
              sort_one-AllSorted round stack (arguments P sp) sp.p some_pipeline first_le
                sortable.filled a0 (ground (arith, t)) refl in
            (
              record sp { last_sorted = sp.step; p = b.p; partition = b.partition },
              rw (t, runs) refl,
              s.parts,
              s.places,
            )
        | inr f ↦
            let a0 : Arrays F = record scratch { p = sp.p; partition = sp.partition } in
            let (b, runs, s) =
              sort_many-AllSorted round stack (arguments P sp) sp.p some_pipeline first_le
                sortable.filled P orders a0 division o refl few refl in
            (
              record sp { last_sorted = sp.step; p = b.p; partition = b.partition },
              rw (f, runs) refl,
              s.parts,
              s.places,
            )
      ]

      -- For 1 to 256 pipelines, which run in any order in each of the three stages, shares of the
      -- particles by DISTRIBUTE that follow each other from the first particle to the last, and a
      -- species of which each of the `np` particles is in a voxel that is not a ghost, the
      -- parallel sort ends without an error and makes `partition[v]` the number of particles in
      -- the voxels before `v`, for each voxel.
      pub sort_p_pipeline-partition :
          (v : ℕ)
          → v < sp.nv
          → partition_at v (sort_p_pipeline round stack P orders scratch (some sp))
            ≡ some (sum_below (in_voxel sp) v)
      sort_p_pipeline-partition v lt =
          let (b, runs, parts, places) = sorts in ap (partition_at v) runs ∙ ap some (parts v lt)

      -- For 1 to 256 pipelines, which run in any order in each of the three stages, shares of the
      -- particles by DISTRIBUTE that follow each other from the first particle to the last, and a
      -- species that has particles, each of the `np` in a voxel that is not a ghost, the parallel
      -- sort ends without an error and puts the particles of each voxel that has some one after the
      -- other behind those of the voxels before it, in the order in which they were.
      pub sort_p_pipeline-places :
          (v m : ℕ)
          → m < in_voxel sp v
          → p_at
              (sum_below (in_voxel sp) v + m)
              (sort_p_pipeline round stack P orders scratch (some sp))
            ≡ some (get_elem? (with_key voxel_of v (particles sp)) m)
      sort_p_pipeline-places v m lt =
          let (b, runs, parts, places) = sorts in
          ap (p_at (sum_below (in_voxel sp) v + m)) runs ∙ ap some (places v m lt)

      -- For 1 to 256 pipelines, which run in any order in each of the three stages, shares of the
      -- particles by DISTRIBUTE that follow each other from the first particle to the last, and a
      -- species that has particles, each of the `np` in a voxel that is not a ghost, the parallel
      -- sort ends without an error, with the same particle at each of the `np` places and the same
      -- number in `partition` for each voxel as the serial sort out of place.
      pub sort_p_pipeline-sort_out_of_place :
          (j v : ℕ)
          → j < sp.np
          → v < sp.nv
          → (p_at j (sort_p_pipeline round stack P orders scratch (some sp))
              ≡ some ((sort_out_of_place sp).p j))
            × (partition_at v (sort_p_pipeline round stack P orders scratch (some sp))
                ≡ some ((sort_out_of_place sp).partition v))
      unfolding particles
      sort_p_pipeline-sort_out_of_place j v hj hv =
          let size =
            place_high (arguments P sp) sp.p some_pipeline first_le sortable.filled sp.nv last_lt in
          let (w, hw, (m, hm, e)) =
            sum_below_locate (in_voxel sp) sp.nv j (omega (arith, size, hj)) in
          (
            ap (λ k. p_at k (sort_p_pipeline round stack P orders scratch (some sp))) e
                ∙ sort_p_pipeline-places w m hm
                ∙ ap some (
                    sym (sort_out_of_place-places sp w m (omega arith) all_InVoxels hm)
                    ∙ ap (sort_out_of_place sp).p (sym e)),
            sort_p_pipeline-partition v hv
                ∙ ap some (sym (sort_out_of_place-partition sp v (omega arith) (omega arith))),
          )
