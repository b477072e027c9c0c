-- ===== src/Prelude/Sums.antt =====
-- Sums of the first values of a function, the closed form of a running total.
use Prim.Native.Nat.{ℕ, zero, suc, ◌+◌, ◌<◌, ◌≤◌}
use mathlib.Core.Path.{◌≡◌, refl, ap}
use native.Mathlib.Decide.{dec_lt}
use native.Mathlib.Omega.{arith}

-- The sum of the first values of `f`.
unfoldable pub sum_below : (ℕ → ℕ) → ℕ → ℕ
sum_below f zero = 0
sum_below f (suc r) = sum_below f r + f r

pub sum_below-add-one : (f : ℕ → ℕ) (r : ℕ) → sum_below f (r + 1) ≡ sum_below f r + f r
unfolding sum_below
sum_below-add-one f r = ap (sum_below f) {y = suc r} (omega arith)

pub sum_below_mono : (f : ℕ → ℕ) (r q : ℕ) → r ≤ q → sum_below f r ≤ sum_below f q
unfolding sum_below
sum_below_mono f r zero h = let e : r ≡ 0 = omega arith in rw e (omega arith)
sum_below_mono f r (suc q) h = elim (dec_lt q r) [
  | yes p ↦ let e : r ≡ suc q = omega arith in rw e (omega arith)
  | no p ↦ omega (arith, sum_below_mono f r q (omega arith))
]

pub sum_below-congr :
    (a b : ℕ → ℕ) (n : ℕ) → ((k : ℕ) → k < n → a k ≡ b k) → sum_below a n ≡ sum_below b n
unfolding sum_below
sum_below-congr a b zero h = refl
sum_below-congr a b (suc n) h =
    omega (arith, sum_below-congr a b n (λ k lt. h k (omega arith)), h n (omega arith))
