-- ===== src/Sort/Pipeline/Limits.antt =====
-- The parallel sort without particles, and with more pipelines than it has room for.
use native.Mathlib.Decide.{dec_lt}
use vpic.Prelude.{
  zero, suc, ◌⊎◌, ℕ, ◌≤◌, ◌<◌, ◌≡◌, refl, ◌∙◌, ap, true, false, none, some, List, [], ◌∷◌, arith,
  Bool-cases, inl, inr, ◌==◌, lt→ltb, sum_below,
}
use vpic.Sort.Scatter.{count}
use vpic.Sort.Legacy.{Species, live, voxel_of, particles, sort_out_of_place}
use vpic.Sort.Legacy.Places.{in_voxel}
use vpic.Sort.Pipeline.{
  Args, Arrays, Orders, arguments, coarse_count, exec, sort_many, sort_p_pipeline,
}
use vpic.Sort.Pipeline.Stages.{has}
use vpic.Sort.Pipeline.Coarse.{IsDivision}
use vpic.Sort.Pipeline.Places.{AreOrders}
use vpic.Sort.Pipeline.Result.{IsSortable, partition_at, sorts, sort_p_pipeline-partition}

sum_below_zero : (a : ℕ → ℕ) (n : ℕ) → ((k : ℕ) → a k ≡ 0) → sum_below a n ≡ 0
unfolding sum_below
sum_below_zero a zero h = refl
sum_below_zero a (suc n) h = omega (arith, sum_below_zero a n h, h n)

-- For 1 to 256 pipelines, which run in any order in each of the three stages, shares of no particles
-- by DISTRIBUTE, and a species without particles, the parallel sort ends without an error and makes
-- `partition[v]` 0 for each voxel, and the serial sort out of place leaves it as it was.
pub sort_p_pipeline-no_particles {ℓ} :
    {F : Type ℓ} (sp : Species F)
    → IsSortable sp
    → (round : ℕ → ℕ → ℕ → ℕ) (stack : ℕ → ℕ) (P : ℕ) (orders : Orders) (scratch : Arrays F) → 0 < P
    → P ≤ 256
    → IsDivision round sp.np P
    → AreOrders P orders
    → (v : ℕ) → v < sp.nv
    → sp.np ≡ 0
    → (partition_at v (sort_p_pipeline round stack P orders scratch (some sp)) ≡ some 0)
      × ((sort_out_of_place sp).partition v ≡ sp.partition v)
unfolding particles live count sort_out_of_place
sort_p_pipeline-no_particles sp sortable round stack P orders scratch pos few division o v lt
      empty =
    let none_there : (k : ℕ) → in_voxel sp k ≡ 0 =
      λ k. ap (λ n. count voxel_of k (live n 0 sp.p)) empty in
    (
      sort_p_pipeline-partition sp sortable round stack P orders scratch pos few division o v lt
          ∙ ap some (sum_below_zero (in_voxel sp) v none_there),
      rw empty refl,
    )

-- A pipeline with a share reports the error.
module _ {ℓ} {F : Type ℓ} (round : ℕ → ℕ → ℕ → ℕ) (stack : ℕ → ℕ) (args : Args) (P : ℕ)
    (many : 256 < args.n_subsort) where
  coarse_count-none :
      (order : List ℕ) (r : ℕ) (a : Arrays F)
      → r < P
      → has r order ≡ true
      → exec (coarse_count round stack args P) order a ≡ none
  unfolding exec coarse_count
  coarse_count-none [] r a lt h = absurd (grind (arith, h))
  coarse_count-none (k ∷ order) r a lt h = elim (Bool-cases (k == P)) [
    | inl t ↦ rw (exec, coarse_count, t) (coarse_count-none order r a lt (ground (arith, t, h)))
    | inr f ↦ rw (exec, coarse_count, f, lt→ltb 256 args.n_subsort many) refl
  ]

-- For at least one pipeline, of which all run in each of the three stages, in any order, shares of the
-- particles by DISTRIBUTE that follow each other from the first particle to the last, and a species
-- of which each particle is in a voxel that is not a ghost, the parallel sort ends with an error where
-- there are more than 256 pipelines, and without an error where there are not.
pub sort_p_pipeline_too_many {ℓ} :
    {F : Type ℓ} (sp : Species F)
    → IsSortable sp
    → (round : ℕ → ℕ → ℕ → ℕ) (stack : ℕ → ℕ) (P : ℕ) (orders : Orders) (scratch : Arrays F) → 0 < P
    → IsDivision round sp.np P
    → AreOrders P orders
    → ((256 < P) × (sort_p_pipeline round stack P orders scratch (some sp) ≡ none))
      ⊎ ((P ≤ 256)
          × (b : Species F) × (sort_p_pipeline round stack P orders scratch (some sp) ≡ some b))
unfolding sort_p_pipeline sort_many
sort_p_pipeline_too_many {F = F} sp sortable round stack P orders scratch pos division o =
    elim (dec_lt 256 P) [
      | yes many ↦
          let several : (P == 1) ≡ false = ground arith in
          let a0 : Arrays F = record scratch { p = sp.p; partition = sp.partition } in
          let fails =
            coarse_count-none round stack (arguments P sp) P many orders.counting 0 a0 (omega arith)
              (o.counting.all 0 (omega arith)) in
          inl (many, rw (sort_p_pipeline, sort_many, several, fails) refl)
      | no few ↦
          let le : P ≤ 256 = omega arith in
          let (b, runs, parts, places) =
            sorts sp sortable round stack P orders scratch pos le division o in
          inr (le, b, runs)
    ]
