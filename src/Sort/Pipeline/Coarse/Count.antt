-- ===== src/Sort/Pipeline/Coarse/Count.antt =====
-- The stage `coarse_count`.
use vpic.Prelude.{
  ℕ, ◌+◌, ◌*◌, ◌≤◌, ◌<◌, ◌≡◌, refl, ◌∙◌, ap, false, Option, some, arith, Bool-cases, inl, inr, ◌==◌,
  ltb, List,
}
use vpic.Sort.Scatter.{count, count_keys, count_keys-count}
use vpic.Sort.Legacy.{Particle}
use vpic.Sort.Pipeline.{Args, Arrays, copy, clear, stride, share, coarse_count, exec}
use vpic.Sort.Pipeline.Stages.{Runs, IsOrder, exec_all}
use vpic.Sort.Pipeline.Coarse.{IsDivision, counted, sub, share_lem, copy_in, copy_out, row_apart}

module _ {ℓ} {F : Type ℓ} (round : ℕ → ℕ → ℕ → ℕ) (stack : ℕ → ℕ) (args : Args) (P : ℕ)
    (p : ℕ → Option (Particle F)) where
  abbrev pub Reads : Arrays F → Type ℓ
  Reads a = a.p ≡ p

  abbrev pub Counted : ℕ → Arrays F → Type 0
  Counted r a =
      (s : ℕ)
      → s < args.n_subsort
      → a.coarse_partition (s + stride args.n_subsort * r) ≡ counted round args P p s r

  module _ (division : IsDivision round args.n P) (few : args.n_subsort ≤ 256) where
    coarse_count_step :
        (r : ℕ) (a : Arrays F)
        → r ≤ P
        → Reads a
        → Runs (coarse_count round stack args P) P Reads Counted r a
    unfolding coarse_count clear count
    coarse_count_step r a le reads = elim (Bool-cases (r == P)) [
      | inl t ↦ record {
        after = a;
        runs = rw t refl;
        inv = reads;
        own = λ lt. absurd (ground (arith, t));
        others = λ k lt h. h;
      }
      | inr f ↦
          let lt : r < P = ground (arith, f) in
          let fits : ltb 256 args.n_subsort ≡ false = ground arith in
          let counts =
            count_keys (sub round args P p) (share round args a r P)
              (clear stack 0 args.n_subsort) in
          let row = stride args.n_subsort * r in
          let cp = copy a.coarse_partition row counts args.n_subsort in
          let own_row : (s : ℕ) → s < args.n_subsort → cp (s + row) ≡ counted round args P p s r =
            λ s hs.
              copy_in a.coarse_partition row counts args.n_subsort (s + row) (omega arith)
                (omega arith)
              ∙ ap counts {y = s} (omega arith)
              ∙ count_keys-count (sub round args P p) (share round args a r P)
                  (clear stack 0 args.n_subsort) s
              ∙ omega (
                arith,
                ap (count (sub round args P p) s) (share_lem round args P p division a r lt reads),
                copy_in stack 0 (λ k. 0) args.n_subsort s (omega arith) (omega arith),
              ) in
          record {
            after = record a { coarse_partition = cp };
            runs = rw (f, fits) refl;
            inv = reads;
            own = λ lt s hs. own_row s hs;
            others = λ k hk h s hs. elim (Bool-cases (k == r)) [
              | inl t ↦
                  ap (λ q. cp (s + stride args.n_subsort * q)) {x = k} {y = r} (ground (arith, t))
                  ∙ own_row s hs
                  ∙ ap (counted round args P p s) {x = r} {y = k} (ground (arith, t))
              | inr ne ↦
                  copy_out a.coarse_partition row counts args.n_subsort
                    (s + stride args.n_subsort * k)
                    (row_apart args.n_subsort s r k hs (ground (arith, ne)))
                  ∙ h s hs
            ];
          }
    ]

    -- After the stage, each pipeline's row of `coarse_partition` holds the counts of its share.
    pub coarse_count-exec :
        (order : List ℕ) (a : Arrays F)
        → IsOrder P order
        → Reads a
        → (b : Arrays F) × (exec (coarse_count round stack args P) order a ≡ some b)
          × Reads b
          × ((r : ℕ) → r < P → Counted r b)
    coarse_count-exec order a o reads =
        exec_all (coarse_count round stack args P) P Reads Counted
          (λ r t le h. coarse_count_step r t le h) order a o reads
