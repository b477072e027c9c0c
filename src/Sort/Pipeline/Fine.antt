-- ===== src/Sort/Pipeline/Fine.antt =====
-- The particles of a subsort, and the voxels that they are in.
pub mod Partial
pub mod Loops
pub mod Step
use native.Mathlib.Decide.{dec_lt}
use vpic.Prelude.{
  ℕ, zero, suc, ◌+◌, ◌-◌, ◌*◌, ◌≤◌, ◌<◌, ◌≡◌, ◌≢◌, refl, sym, ◌∙◌, ap, true, false, Option, none,
  some, arith, if◌then◌else◌, Bool-cases, inl, inr, ◌==◌, ltb, lt→ltb, List, ◌⊎◌, length, get_elem?,
  sum_below, sum_below_mono, sum_below-add-one, update, update_self, update_ne, for_range,
  for_range_inv,
}
use vpic.Sort.Scatter.{
  count, count_keys, count_keys-count, with_key, length-with_key, scatter, scatter_lem,
  scatter_skips, Apart,
}
use vpic.Sort.Legacy.{Particle, live, voxel_of, Partition, partition_step}
use vpic.Sort.Legacy.Places.{Apart-sums}
use vpic.Sort.Counting.{with_key-with_key, count-with_key, count-with_key_ne, sum_below-count}
use vpic.Sort.Runs.{IsFilled, below-congr, count_outside}
use vpic.Sort.Subsorts.{v2p, p2v, v2p-p2v, v2p_lt-p2v, p2v_bounds}
use vpic.Sort.Pipeline.{Args, Arrays, clear, subsort_of, sort_voxels}
use vpic.Sort.Pipeline.Coarse.{copy_in}

ltb_congr : (a b c d : ℕ) → (a < b → c < d) → (c < d → a < b) → ltb a b ≡ ltb c d
ltb_congr a b c d f g = elim (dec_lt a b) [
  | yes h ↦ lt→ltb a b h ∙ sym (lt→ltb c d (f h))
  | no h ↦ elim (dec_lt c d) [ yes k ↦ absurd (h (g k)) | no k ↦ ground (arith, h, k) ]
]

module _ {ℓ} {F : Type ℓ} (args : Args) (p : ℕ → Option (Particle F)) where
  abbrev pub all : List (Particle F)
  all = live args.n 0 p

  abbrev pub in_voxel : ℕ → ℕ
  in_voxel v = count voxel_of v all

  -- The number of particles in the voxels before one, and in the subsorts before one.
  abbrev pub place : ℕ → ℕ
  place v = sum_below in_voxel v

  abbrev pub total : ℕ → ℕ
  total s = sum_below (λ k. count (subsort_of args) k all) s

  abbrev pub first_voxel : ℕ → ℕ
  first_voxel s = p2v s args.n_subsort args.vl args.vh

  abbrev pub its_subsort : ℕ → ℕ
  its_subsort v = v2p v args.n_subsort args.vl args.vh

  module _ (some_subsort : 0 < args.n_subsort) (ordered : args.vl ≤ args.vh)
      (filled : IsFilled p args.vl args.vh args.n 0) where
    pub total-place : (s : ℕ) → total s ≡ place (first_voxel s)
    total-place s =
        sum_below-count (subsort_of args) s all
        ∙ below-congr p args.vl args.vh (subsort_of args) voxel_of s (first_voxel s) args.n 0 filled
            (λ q lo hi.
              let iff = v2p_lt-p2v q.i s args.n_subsort args.vl args.vh some_subsort lo hi in
              ltb_congr (subsort_of args q) s q.i (first_voxel s) iff.0 iff.1)
        ∙ sym (sum_below-count voxel_of (first_voxel s) all)

    abbrev pub slice : ℕ → List (Particle F)
    slice s = with_key (subsort_of args) s all

    -- The voxels of the particles of a subsort.
    pub slice_range :
        (s v m : ℕ)
        → m < count voxel_of v (slice s)
        → (first_voxel s ≤ v) × (v < first_voxel (s + 1)) × (m < in_voxel v)
    slice_range s v m lt = elim (Bool-cases (its_subsort v == s)) [
      | inr ne ↦ absurd (
          omega (
            arith,
            lt,
            count-with_key_ne voxel_of (subsort_of args) its_subsort (λ q. refl) v s all
                (ground (arith, ne)),
          ))
      | inl t ↦
          let e : its_subsort v ≡ s = ground (arith, t) in
          let same : count voxel_of v (slice s) ≡ in_voxel v =
            ap (λ k. count voxel_of v (slice k)) (sym e)
            ∙ count-with_key voxel_of (subsort_of args) its_subsort (λ q. refl) v all in
          elim (dec_lt v args.vl) [
            | yes out ↦ absurd (
                omega
                  (arith, lt, same, count_outside p args.vl args.vh args.n 0 v filled (inl out)))
            | no lo ↦ elim (dec_lt args.vh v) [
              | yes out ↦ absurd (
                  omega
                    (arith, lt, same, count_outside p args.vl args.vh args.n 0 v filled (inr out)))
              | no hi ↦
                  let range =
                    (v2p-p2v v s args.n_subsort args.vl args.vh some_subsort (omega arith)
                        (omega arith)).0
                      e in
                  (range.0, range.1, omega arith)
            ]
          ]
    ]

    slice_of :
        (s v : ℕ)
        → s < args.n_subsort
        → first_voxel s ≤ v
        → v < first_voxel (s + 1)
        → its_subsort v ≡ s
    slice_of s v hs lo hi =
        let first =
          p2v_bounds s args.n_subsort args.vl args.vh some_subsort ordered (omega arith) in
        let past =
          p2v_bounds (s + 1) args.n_subsort args.vl args.vh some_subsort ordered (omega arith) in
        (v2p-p2v v s args.n_subsort args.vl args.vh some_subsort (omega (arith, first.0))
            (omega (arith, past.1))).1
          (lo, hi)

    pub count-slice :
        (s v : ℕ)
        → s < args.n_subsort
        → first_voxel s ≤ v
        → v < first_voxel (s + 1)
        → count voxel_of v (slice s) ≡ in_voxel v
    count-slice s v hs lo hi =
        ap (λ k. count voxel_of v (slice k)) (sym (slice_of s v hs lo hi))
        ∙ count-with_key voxel_of (subsort_of args) its_subsort (λ q. refl) v all

    pub with_key-slice :
        (s v : ℕ)
        → s < args.n_subsort
        → first_voxel s ≤ v
        → v < first_voxel (s + 1)
        → with_key voxel_of v (slice s) ≡ with_key voxel_of v all
    with_key-slice s v hs lo hi =
        ap (λ k. with_key voxel_of v (slice k)) (sym (slice_of s v hs lo hi))
        ∙ with_key-with_key voxel_of (subsort_of args) its_subsort (λ q. refl) v all
