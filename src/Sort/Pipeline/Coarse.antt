-- ===== src/Sort/Pipeline/Coarse.antt =====
-- The coarse stages of the parallel sort: the counts of each pipeline's share of the particles, the
-- totals that the host makes of them, and the particles put into the order of their subsorts.
pub mod Count
pub mod Total
pub mod Places
pub mod Fill
use native.Mathlib.Decide.{dec_lt}
use vpic.Prelude.{
  ℕ, zero, suc, ◌+◌, ◌-◌, ◌*◌, ◌≤◌, ◌<◌, ◌≡◌, ◌≢◌, refl, sym, ◌∙◌, ap, true, false, Option, none,
  some, List, [], ◌∷◌, ◌++◌, arith, if◌then◌else◌, Bool-cases, inl, inr, length, get_elem?, ltb,
  update, for_range_inv, add_mul-mod, add_mul-div, add_mul-lt, ◌/◌, ◌%◌, ◌⊎◌, ◌==◌, leb, sum_below,
  sum_below-add-one, sum_below_mono,
}
use vpic.Sort.Scatter.{
  with_key, count, count_keys, count_keys-count, scatter, scatter_lem, scatter_skips, Apart,
}
use vpic.Sort.Legacy.{Particle, live, voxel_of}
use vpic.Sort.Counting.{count-append, with_key-append}
use vpic.Sort.Runs.{live-append}
use vpic.Sort.Pipeline.{
  Args, Arrays, copy, clear, stride, first_item, num_items, subsort_of, share, coarse_count,
  coarse_sort, sum_entry, sum_coarse, exec,
}
use vpic.Sort.Pipeline.Stages.{Runs, IsOrder, exec_all}

-- What is known of `(int)(t*p+0.5)` in DISTRIBUTE: the parts of `N` items follow each other, from the
-- first item to the last.
pub record IsDivision (round : ℕ → ℕ → ℕ → ℕ) (N P : ℕ) : Type 0 where
  pub first : round N P 0 ≡ 0
  pub last : round N P P ≡ N
  pub grows : (p : ℕ) → p < P → round N P p ≤ round N P (p + 1)

-- The rows of `coarse_partition`, one for each pipeline.
stride_le : (n : ℕ) → n ≤ stride n
unfolding stride
stride_le n = omega arith

pub in_row :
    (n s r : ℕ) → s < n → ((s + stride n * r) % stride n ≡ s) × ((s + stride n * r) / stride n ≡ r)
in_row n s r lt =
    let h : s < stride n = omega (arith, stride_le n) in
    (add_mul-mod s (stride n) r h, add_mul-div s (stride n) r h)

pub row_apart :
    (n s r q : ℕ)
    → s < n
    → q ≢ r
    → (s + stride n * q < stride n * r) ⊎ (stride n * r + n ≤ s + stride n * q)
row_apart n s r q lt ne = elim (dec_lt q r) [
  | yes h ↦ inl (add_mul-lt s (stride n) q r (omega (arith, stride_le n)) h)
  | no h ↦ inr (
      omega (
        arith,
        stride_le n,
        add_mul-lt (stride n - 1) (stride n) r q (omega (arith, stride_le n))
            (omega (arith, h, ne)),
      ))
]

module _ {ℓ} {A : Type ℓ} (d : ℕ → A) (i : ℕ) (s : ℕ → A) (n : ℕ) where
  pub copy_in : (j : ℕ) → i ≤ j → j < i + n → copy d i s n j ≡ s (j - i)
  unfolding copy
  copy_in j lo hi = ground arith

  pub copy_out : (j : ℕ) → (j < i) ⊎ (i + n ≤ j) → copy d i s n j ≡ d j
  unfolding copy
  copy_out j h = ground (arith, h)

module _ {ℓ} {F : Type ℓ} (round : ℕ → ℕ → ℕ → ℕ) (args : Args) (P : ℕ)
    (p : ℕ → Option (Particle F)) where
  -- The particles of the pipelines before one, and its own.
  abbrev pub before : ℕ → List (Particle F)
  before r = live (round args.n P r) 0 p

  abbrev pub chunk : ℕ → List (Particle F)
  chunk r = live (round args.n P (r + 1) - round args.n P r) (round args.n P r) p

  -- The particles of a subsort that a pipeline has, and where its first one goes.
  abbrev pub sub : Particle F → ℕ
  sub = subsort_of args

  abbrev pub counted : (s r : ℕ) → ℕ
  counted s r = count sub s (chunk r)

  abbrev pub total : ℕ → ℕ
  total s = sum_below (λ k. count sub k (live args.n 0 p)) s

  abbrev pub start : (s r : ℕ) → ℕ
  start s r = total s + count sub s (before r)

  module _ (division : IsDivision round args.n P) where
    pub before-add-one : (r : ℕ) → r < P → before (r + 1) ≡ before r ++ chunk r
    before-add-one r lt =
        ap (λ k. live k 0 p) {y = round args.n P r + (round args.n P (r + 1) - round args.n P r)}
          (omega (arith, division.grows r lt))
        ∙ live-append p (round args.n P r) (round args.n P (r + 1) - round args.n P r) 0
        ∙ ap (λ k. before r ++ live (round args.n P (r + 1) - round args.n P r) k p) (omega arith)

    pub share_lem : (a : Arrays F) (r : ℕ) → r < P → a.p ≡ p → share round args a r P ≡ chunk r
    unfolding share first_item num_items
    share_lem a r lt e = let one : (r == P) ≡ false = ground arith in rw (one, e) refl

    pub start-add-one : (s r : ℕ) → r < P → start s (r + 1) ≡ start s r + counted s r
    start-add-one s r lt =
        omega
          (arith, ap (count sub s) (before-add-one r lt), count-append sub s (before r) (chunk r))

    pub start_zero : (s : ℕ) → start s 0 ≡ total s
    unfolding count live
    start_zero s =
        let none_before : count sub s (before 0) ≡ count sub s (live 0 0 p) =
          ap (λ k. count sub s (live k 0 p)) division.first in
        omega (arith, none_before)

    pub start_end : (s : ℕ) → start s P ≡ total (s + 1)
    start_end s = omega (
      arith,
      ap (λ k. count sub s (live k 0 p)) division.last,
      sum_below-add-one (λ k. count sub k (live args.n 0 p)) s,
    )
