-- ===== src/Sort/Subsorts.antt =====
-- The macros V2P and P2V of src/species_advance/standard/pipeline/spa_private.h, which divide the
-- voxels `vl` to `vh` among `P` subsorts. The products are of 64 bits there, so that those of two
-- 32 bit numbers do not wrap.
use native.Mathlib.Decide.{dec_lt}
use native.Mathlib.Nat.{div-lt_iff_lt-mul, le-div_iff_mul-le}
use vpic.Prelude.{ℕ, ◌+◌, ◌-◌, ◌*◌, ◌/◌, ◌≤◌, ◌<◌, ◌≡◌, ◌↔◌, arith}

-- The subsort that handles a voxel.
unfoldable pub v2p : ℕ → ℕ → ℕ → ℕ → ℕ
v2p v P vl vh = ((v - vl) * P) / (vh - vl + 1)

-- The first voxel of a subsort.
unfoldable pub p2v : ℕ → ℕ → ℕ → ℕ → ℕ
p2v p P vl vh = vl + (p * (vh - vl + 1) + (P - 1)) / P

-- The quotient rounded up is the least number that is not too small.
ceil_le_fst : (n P x : ℕ) → 0 < P → (n + (P - 1)) / P ≤ x → n ≤ x * P
ceil_le_fst n P x h le =
    let r : n + (P - 1) < (x + 1) * P = (div-lt_iff_lt-mul h).0 (omega arith) in grind (arith, r)

ceil_le_snd : (n P x : ℕ) → 0 < P → n ≤ x * P → (n + (P - 1)) / P ≤ x
ceil_le_snd n P x h le =
    let r : n + (P - 1) < (x + 1) * P = grind (arith, le) in
    omega (arith, (div-lt_iff_lt-mul h).1 r)

lt_ceil_fst : (n P x : ℕ) → 0 < P → x * P < n → x < (n + (P - 1)) / P
lt_ceil_fst n P x h lt = elim (dec_lt x ((n + (P - 1)) / P)) [
  | yes q ↦ q
  | no q ↦ absurd (omega (arith, ceil_le_fst n P x h (omega (arith, q)), lt))
]

lt_ceil_snd : (n P x : ℕ) → 0 < P → x < (n + (P - 1)) / P → x * P < n
lt_ceil_snd n P x h lt = elim (dec_lt (x * P) n) [
  | yes q ↦ q
  | no q ↦ absurd (omega (arith, ceil_le_snd n P x h (omega (arith, q)), lt))
]

-- Each voxel of a range has a subsort.
pub v2p_lt : (v P vl vh : ℕ) → 0 < P → vl ≤ v → v ≤ vh → v2p v P vl vh < P
unfolding v2p
v2p_lt v P vl vh hP lo hi =
    (div-lt_iff_lt-mul (omega arith)).1
      (let small : v - vl < vh - vl + 1 = omega arith in grind (arith, small, hP))

-- For a positive number of subsorts and a voxel of the range, V2P gives the voxel to a subsort if
-- and only if it is not before that subsort's first voxel, by P2V, and before the next one's.
pub v2p-p2v :
    (v p P vl vh : ℕ)
    → 0 < P
    → vl ≤ v
    → v ≤ vh
    → (v2p v P vl vh ≡ p) ↔ ((p2v p P vl vh ≤ v) × (v < p2v (p + 1) P vl vh))
unfolding v2p p2v
v2p-p2v v p P vl vh hP lo hi =
    let V : 0 < vh - vl + 1 = omega arith in
    let x = v - vl in
    let n = vh - vl + 1 in
    (
      (λ e.
          let above : p * n ≤ x * P = (le-div_iff_mul-le V).0 (omega (arith, e)) in
          let below : x * P < (p + 1) * n = (div-lt_iff_lt-mul V).0 (omega (arith, e)) in
          let first = ceil_le_snd (p * n) P x hP above in
          let past = lt_ceil_fst ((p + 1) * n) P x hP below in
          (omega (arith, first), omega (arith, past))),
      (λ b.
          let first = ceil_le_fst (p * n) P x hP (omega (arith, b.0)) in
          let past = lt_ceil_snd ((p + 1) * n) P x hP (omega (arith, b.1)) in
          let above : p ≤ x * P / n = (le-div_iff_mul-le V).1 first in
          let below : x * P / n < p + 1 = (div-lt_iff_lt-mul V).1 past in
          omega (arith, above, below)),
    )

-- The subsorts before one have the voxels before its first.
pub v2p_lt-p2v :
    (v p P vl vh : ℕ) → 0 < P → vl ≤ v → v ≤ vh → (v2p v P vl vh < p) ↔ (v < p2v p P vl vh)
unfolding v2p p2v
v2p_lt-p2v v p P vl vh hP lo hi =
    let V : 0 < vh - vl + 1 = omega arith in
    (
      (λ lt.
          omega
            (arith, lt_ceil_fst (p * (vh - vl + 1)) P (v - vl) hP ((div-lt_iff_lt-mul V).0 lt))),
      (λ lt. (div-lt_iff_lt-mul V).1 (lt_ceil_snd (p * (vh - vl + 1)) P (v - vl) hP (omega arith))),
    )

-- The subsorts divide the range.
pub p2v_bounds :
    (p P vl vh : ℕ) → 0 < P → vl ≤ vh → p ≤ P → (vl ≤ p2v p P vl vh) × (p2v p P vl vh ≤ vh + 1)
unfolding p2v
p2v_bounds p P vl vh hP le hp =
    let few : p * (vh - vl + 1) ≤ (vh - vl + 1) * P = grind (arith, hp) in
    (omega arith, omega (arith, ceil_le_snd (p * (vh - vl + 1)) P (vh - vl + 1) hP few))

pub p2v_mono : (p P vl vh : ℕ) → 0 < P → p2v p P vl vh ≤ p2v (p + 1) P vl vh
unfolding p2v
p2v_mono p P vl vh hP =
    let n = vh - vl + 1 in
    let next : (p + 1) * n ≤ ((p + 1) * n + (P - 1)) / P * P =
      ceil_le_fst ((p + 1) * n) P (((p + 1) * n + (P - 1)) / P) hP (omega arith) in
    let this : p * n ≤ ((p + 1) * n + (P - 1)) / P * P = grind (arith, next) in
    omega (arith, ceil_le_snd (p * n) P (((p + 1) * n + (P - 1)) / P) hP this)
