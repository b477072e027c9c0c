-- ===== src/Sort/Pipeline/Coarse/Places.antt =====
-- The runs of places that the pipelines fill do not meet.
use native.Mathlib.Decide.{dec_lt}
use vpic.Prelude.{
  ℕ, zero, suc, ◌+◌, ◌≤◌, ◌<◌, ◌≡◌, ◌≢◌, sym, ap, Option, arith, inl, inr, ◌⊎◌, sum_below_mono,
}
use vpic.Sort.Scatter.{count}
use vpic.Sort.Legacy.{Particle, live}
use vpic.Sort.Pipeline.{Args}
use vpic.Sort.Pipeline.Coarse.{IsDivision, counted, start, sub, start-add-one, start_end}

module _ {ℓ} {F : Type ℓ} (round : ℕ → ℕ → ℕ → ℕ) (args : Args) (P : ℕ)
    (p : ℕ → Option (Particle F)) where
  module _ (division : IsDivision round args.n P) where
    pub start_mono :
        (s r q : ℕ) → r ≤ q → q ≤ P → start round args P p s r ≤ start round args P p s q
    start_mono s r zero le hq =
        omega (arith, ap (start round args P p s) {x = r} {y = 0} (omega arith))
    start_mono s r (suc q) le hq = elim (dec_lt q r) [
      | yes h ↦ omega (arith, ap (start round args P p s) {x = r} {y = suc q} (omega arith))
      | no h ↦ omega (
        arith,
        start_mono s r q (omega arith) (omega arith),
        start-add-one round args P p division s q hq,
        ap (start round args P p s) {x = q + 1} {y = suc q} (omega arith),
      )
    ]

    runs_ordered :
        (v w r q a b : ℕ)
        → r < P
        → q < P
        → (v < w) ⊎ ((v ≡ w) × (r < q))
        → a < counted round args P p v r
        → start round args P p v r + a < start round args P p w q + b
    runs_ordered v w r q a b hr hq (inl lt) ha = omega (
      arith,
      start-add-one round args P p division v r hr,
      start_mono v (r + 1) P (omega arith) (omega arith),
      start_end round args P p division v,
      sum_below_mono (λ k. count (sub round args P p) k (live args.n 0 p)) (v + 1) w (omega arith),
    )
    runs_ordered v w r q a b hr hq (inr (e, lt)) ha = omega (
      arith,
      start-add-one round args P p division v r hr,
      start_mono v (r + 1) q (omega arith) (omega arith),
      ap (λ k. start round args P p k q) e,
    )

    pub runs_apart :
        (v w r q a b : ℕ)
        → r < P
        → q < P
        → (v ≢ w) ⊎ (r ≢ q)
        → a < counted round args P p v r
        → b < counted round args P p w q
        → start round args P p v r + a ≢ start round args P p w q + b
    runs_apart v w r q a b hr hq ne ha hb e = elim (dec_lt v w) [
      | yes lt ↦ omega (arith, runs_ordered v w r q a b hr hq (inl lt) ha)
      | no ge ↦ elim (dec_lt w v) [
        | yes gt ↦ omega (arith, runs_ordered w v q r b a hq hr (inl gt) hb)
        | no le ↦
            let same : v ≡ w = omega (arith, ge, le) in
            elim (dec_lt r q) [
              | yes lt ↦ omega (arith, runs_ordered v w r q a b hr hq (inr (same, lt)) ha)
              | no rest ↦ omega (
                arith,
                runs_ordered w v q r b a hq hr (inr (sym same, grind (arith, ne, same, rest))) hb,
              )
            ]
      ]
    ]
