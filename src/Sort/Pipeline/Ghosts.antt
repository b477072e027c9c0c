-- ===== src/Sort/Pipeline/Ghosts.antt =====
-- The end of `sort_p_pipeline`: the ghost part of `partition`, and what the sorted subsorts make
-- together.
use native.Mathlib.Decide.{dec_lt}
use vpic.Prelude.{
  ℕ, ◌+◌, ◌-◌, ◌≤◌, ◌<◌, ◌≡◌, refl, sym, ◌∙◌, Option, arith, inl, inr, sum_below_mono,
  sum_below-add-one, update, update_self, update_ne, for_range_sets, for_range_skips, update-Keeps,
}
use vpic.Sort.Scatter.{count}
use vpic.Sort.Legacy.{Particle, voxel_of}
use vpic.Sort.Counting.{sum_below-count}
use vpic.Sort.Runs.{IsFilled, below_all, below_none, count_outside}
use vpic.Sort.Subsorts.{v2p_lt, v2p-p2v}
use vpic.Sort.Pipeline.{Args, clear, ghosts, subsort_of}
use vpic.Sort.Pipeline.Coarse.{copy_in, copy_out}
use vpic.Sort.Pipeline.Fine.{all, in_voxel, place, total, first_voxel, its_subsort}

ghosts_low :
    (args : Args) (partition : ℕ → ℕ) (v : ℕ)
    → v < args.vl
    → v ≤ args.vh
    → ghosts args partition v ≡ 0
unfolding ghosts clear
ghosts_low args partition v lo hi =
    for_range_skips (args.n_voxel - (args.vh + 1)) (args.vh + 1) (λ i a. update a i args.n) v
      (λ k l h a. update_ne a k v args.n (omega arith)) (clear partition 0 args.vl)
    ∙ copy_in partition 0 (λ k. 0) args.vl v (omega arith) (omega arith)

ghosts_inside :
    (args : Args) (partition : ℕ → ℕ) (v : ℕ)
    → args.vl ≤ v
    → v ≤ args.vh
    → ghosts args partition v ≡ partition v
unfolding ghosts clear
ghosts_inside args partition v lo hi =
    for_range_skips (args.n_voxel - (args.vh + 1)) (args.vh + 1) (λ i a. update a i args.n) v
      (λ k l h a. update_ne a k v args.n (omega arith)) (clear partition 0 args.vl)
    ∙ copy_out partition 0 (λ k. 0) args.vl v (inr (omega arith))

ghosts_high :
    (args : Args) (partition : ℕ → ℕ) (v : ℕ)
    → args.vh < v
    → v < args.n_voxel
    → ghosts args partition v ≡ args.n
unfolding ghosts
ghosts_high args partition v lo hi =
    for_range_sets (λ j. args.n) (args.n_voxel - (args.vh + 1)) (args.vh + 1)
      (λ i a. update a i args.n) v v (λ k l h. update-Keeps (λ j. args.n) k args.n refl)
      (omega arith) (omega arith) (λ a. update_self a v args.n) (clear partition 0 args.vl)

module _ {ℓ} {F : Type ℓ} (args : Args) (p : ℕ → Option (Particle F))
    (some_subsort : 0 < args.n_subsort) (ordered : args.vl ≤ args.vh)
    (filled : IsFilled p args.vl args.vh args.n 0) where
  pub place_low : (v : ℕ) → v ≤ args.vl → place args p v ≡ 0
  place_low v le =
      sum_below-count voxel_of v (all args p)
      ∙ below_none p args.vl args.vh voxel_of v args.n 0 filled (λ q lo hi. omega arith)

  pub place_high : (v : ℕ) → args.vh < v → place args p v ≡ args.n
  place_high v lt =
      sum_below-count voxel_of v (all args p)
      ∙ below_all p args.vl args.vh voxel_of v args.n 0 filled (λ q lo hi. omega arith)

  pub total_end : (s : ℕ) → args.n_subsort ≤ s → total args p s ≡ args.n
  total_end s le =
      sum_below-count (subsort_of args) s (all args p)
      ∙ below_all p args.vl args.vh (subsort_of args) s args.n 0 filled (λ q lo hi.
        omega (arith, le, v2p_lt q.i args.n_subsort args.vl args.vh some_subsort lo hi))

  pub none_past : (s : ℕ) → args.n_subsort ≤ s → count (subsort_of args) s (all args p) ≡ 0
  none_past s le = omega (
    arith,
    total_end s le,
    total_end (s + 1) (omega arith),
    sum_below-add-one (λ k. count (subsort_of args) k (all args p)) s,
  )

  pub occupied : (v m : ℕ) → m < in_voxel args p v → (args.vl ≤ v) × (v ≤ args.vh)
  occupied v m lt = elim (dec_lt v args.vl) [
    | yes out ↦
        absurd (omega (arith, lt, count_outside p args.vl args.vh args.n 0 v filled (inl out)))
    | no lo ↦ elim (dec_lt args.vh v) [
      | yes out ↦
          absurd (omega (arith, lt, count_outside p args.vl args.vh args.n 0 v filled (inr out)))
      | no hi ↦ (omega arith, omega arith)
    ]
  ]

  pub place_lt : (v m : ℕ) → m < in_voxel args p v → place args p v + m < args.n
  place_lt v m lt =
      let range = occupied v m lt in
      omega (
        arith,
        place_high (args.vh + 1) (omega arith),
        sum_below_mono (in_voxel args p) (v + 1) (args.vh + 1) (omega (arith, range.1)),
        sum_below-add-one (in_voxel args p) v,
      )

  -- The subsort of a voxel and its bounds.
  pub subsort_at :
      (v : ℕ)
      → args.vl ≤ v
      → v ≤ args.vh
      → (its_subsort args p v < args.n_subsort)
        × (first_voxel args p (its_subsort args p v) ≤ v)
        × (v < first_voxel args p (its_subsort args p v + 1))
  subsort_at v lo hi =
      let range =
        (v2p-p2v v (its_subsort args p v) args.n_subsort args.vl args.vh some_subsort lo hi).0
          refl in
      (v2p_lt v args.n_subsort args.vl args.vh some_subsort lo hi, range.0, range.1)

  pub ghosts-place :
      (partition : ℕ → ℕ)
      → ((v : ℕ) → args.vl ≤ v → v ≤ args.vh → partition v ≡ place args p v)
      → (v : ℕ) → v < args.n_voxel
      → ghosts args partition v ≡ place args p v
  ghosts-place partition h v lt = elim (dec_lt v args.vl) [
    | yes lo ↦ ghosts_low args partition v lo (omega arith) ∙ sym (place_low v (omega arith))
    | no ge ↦ elim (dec_lt args.vh v) [
      | yes hi ↦ ghosts_high args partition v hi lt ∙ sym (place_high v hi)
      | no le ↦
          ghosts_inside args partition v (omega arith) (omega arith)
          ∙ h v (omega arith) (omega arith)
    ]
  ]
