-- ===== src/Sort/Pipeline/Coarse/Total.antt =====
-- The loops of `sort_p_pipeline` that turn the coarse counts into places.
use vpic.Prelude.{
  ℕ, ◌+◌, ◌*◌, ◌≤◌, ◌<◌, ◌≡◌, ◌≢◌, refl, sym, ◌∙◌, ap, Option, arith, Bool-cases, inl, inr, ◌==◌,
  update, for_range, for_range_inv, sum_below, ◌⊎◌, ◌/◌, ◌%◌, update_self, update_ne,
}
use vpic.Sort.Legacy.{Particle}
use vpic.Sort.Pipeline.{Args, stride, sum_entry, sum_coarse}
use vpic.Sort.Pipeline.Coarse.{
  IsDivision, counted, start, start-add-one, start_zero, start_end, in_row,
}

module _ {ℓ} {F : Type ℓ} (round : ℕ → ℕ → ℕ → ℕ) (args : Args) (P : ℕ)
    (p : ℕ → Option (Particle F)) where
  abbrev entry : (s r : ℕ) → ℕ
  entry s r = s + stride args.n_subsort * r

  -- Before the round `r` of subsort `s`: the entries of the rounds before it are converted.
  record IsSummed (s r : ℕ) (t : (ℕ → ℕ) × ℕ) : Type 0 where
    sum : t.1 ≡ start round args P p s r
    done :
        (u q : ℕ)
        → u < args.n_subsort
        → q < P
        → (u < s) ⊎ ((u ≡ s) × (q < r))
        → t.0 (entry u q) ≡ start round args P p u q
    left :
        (u q : ℕ)
        → u < args.n_subsort
        → q < P
        → (s < u) ⊎ ((u ≡ s) × (r ≤ q))
        → t.0 (entry u q) ≡ counted round args P p u q

  entry_inj :
      (u q s r : ℕ)
      → u < args.n_subsort
      → s < args.n_subsort
      → entry u q ≡ entry s r
      → (u ≡ s) × (q ≡ r)
  entry_inj u q s r hu hs e =
      let (a, b) = in_row args.n_subsort u q hu in
      let (c, d) = in_row args.n_subsort s r hs in
      (
        sym a ∙ ap (λ k. k % stride args.n_subsort) e ∙ c,
        sym b ∙ ap (λ k. k / stride args.n_subsort) e ∙ d,
      )

  module _ (division : IsDivision round args.n P) where
    sum_entry-IsSummed :
        (s r : ℕ) (t : (ℕ → ℕ) × ℕ)
        → s < args.n_subsort
        → r < P
        → IsSummed s r t
        → IsSummed s (r + 1) (sum_entry args.n_subsort s r t)
    unfolding sum_entry
    sum_entry-IsSummed s r t hs hr h = record {
      sum = omega (
        arith,
        h.sum,
        h.left s r hs hr (inr (refl, omega arith)),
        start-add-one round args P p division s r hr,
      );
      done = λ u q hu hq lt. elim (Bool-cases (entry u q == entry s r)) [
        | inl e ↦
            let same = entry_inj u q s r hu hs (ground (arith, e)) in
            ap (update (t.0) (entry s r) (t.1)) {x = entry u q} (ground (arith, e))
            ∙ update_self t.0 (entry s r) t.1
            ∙ h.sum
            ∙ ap (λ k. start round args P p k r) (sym same.0)
            ∙ ap (start round args P p u) (sym same.1)
        | inr ne ↦
            let differs : entry u q ≢ entry s r = ground (arith, ne) in
            update_ne t.0 (entry s r) (entry u q) t.1 differs
            ∙ h.done u q hu hq (elim lt [
              | inl a ↦ inl a
              | inr (e, b) ↦
                  let later : q ≢ r = λ x. differs (ap (λ k. entry k q) e ∙ ap (entry s) x) in
                  inr (e, omega (arith, b, later))
            ])
      ];
      left = λ u q hu hq gt.
          update_ne t.0 (entry s r) (entry u q) t.1
            (λ e. let same = entry_inj u q s r hu hs e in grind (arith, same, gt))
          ∙ h.left u q hu hq (grind (arith, gt));
    }

    sum_row-IsSummed :
        (s : ℕ) (t : (ℕ → ℕ) × ℕ)
        → s < args.n_subsort
        → IsSummed s 0 t
        → IsSummed (s + 1) 0 (for_range P 0 (sum_entry args.n_subsort s) t)
    sum_row-IsSummed s t hs h =
        let row : IsSummed s P (for_range P 0 (sum_entry args.n_subsort s) t) =
          for_range_inv (IsSummed s) (sum_entry args.n_subsort s) P 0 P t (omega arith)
            (λ r u lo hi k. sum_entry-IsSummed s r u hs hi k) h in
        record {
          sum = omega (
            arith,
            row.sum,
            start_end round args P p division s,
            start_zero round args P p division (s + 1),
          );
          done = λ u q hu hq lt. row.done u q hu hq (grind (arith, lt));
          left = λ u q hu hq gt. row.left u q hu hq (grind (arith, gt));
        }

    -- From the counts of all pipelines the loops make, for each subsort and pipeline, the number of
    -- particles of the subsorts before and of those of the subsort in the shares before.
    pub sum_coarse-start :
        (cp : ℕ → ℕ)
        → ((s r : ℕ)
            → s < args.n_subsort
            → r < P
            → cp (s + stride args.n_subsort * r) ≡ counted round args P p s r)
        → (s r : ℕ) → s < args.n_subsort
        → r < P
        → (sum_coarse args.n_subsort P cp).0 (s + stride args.n_subsort * r)
          ≡ start round args P p s r
    unfolding sum_coarse sum_below
    sum_coarse-start cp h s r hs hr =
        let all : IsSummed args.n_subsort 0 (sum_coarse args.n_subsort P cp) =
          for_range_inv (λ k t. IsSummed k 0 t) (λ k. for_range P 0 (sum_entry args.n_subsort k))
            args.n_subsort 0 args.n_subsort (cp, 0) (omega arith)
            (λ k t lo hi i. sum_row-IsSummed k t hi i)
            (record {
              sum = sym (start_zero round args P p division 0);
              done = λ u q hu hq lt. absurd (grind (arith, lt));
              left = λ u q hu hq gt. h u q hu hq;
            }) in
        all.done s r hs hr (inl hs)
