-- ===== src/Sort/Pipeline/Coarse/Fill.antt =====
-- The stage `coarse_sort`.
use native.Mathlib.Decide.{dec_lt}
use vpic.Prelude.{
  ℕ, zero, suc, ◌+◌, ◌-◌, ◌*◌, ◌≤◌, ◌<◌, ◌≡◌, ◌≢◌, refl, sym, ◌∙◌, ap, false, Option, some, arith,
  Bool-cases, inl, inr, ◌==◌, ltb, List, ◌++◌, length, get_elem?, sum_below-add-one,
}
use vpic.Sort.Scatter.{count, with_key, length-with_key, scatter, scatter_lem, scatter_skips, Apart}
use vpic.Sort.Legacy.{Particle, live}
use vpic.Sort.Counting.{with_key-append, count-append, get_elem?-append_fst, get_elem?-append_snd}
use vpic.Sort.Runs.{live_reads}
use vpic.Sort.Pipeline.{Args, Arrays, copy, stride, coarse_sort, exec}
use vpic.Sort.Pipeline.Stages.{Runs, IsOrder, exec_all}
use vpic.Sort.Pipeline.Coarse.Places.{start_mono, runs_apart}
use vpic.Sort.Pipeline.Coarse.{
  IsDivision, counted, start, total, sub, chunk, before, before-add-one, start-add-one, start_zero,
  start_end, share_lem, copy_in,
}

module _ {ℓ} {F : Type ℓ} (round : ℕ → ℕ → ℕ → ℕ) (stack : ℕ → ℕ) (args : Args) (P : ℕ)
    (p : ℕ → Option (Particle F)) where
  -- The places of subsort `s` that a pipeline fills are filled in the order of its share.
  abbrev Filled : ℕ → Arrays F → Type ℓ
  Filled r a =
      (s m : ℕ)
      → m < counted round args P p s r
      → a.aux_p (start round args P p s r + m)
        ≡ get_elem? (with_key (sub round args P p) s (chunk round args P p r)) m

  -- All places of subsort `s` are.
  abbrev pub Gathered : ℕ → Arrays F → Type ℓ
  Gathered s a =
      live (count (sub round args P p) s (live args.n 0 p)) (total round args P p s) a.aux_p
      ≡ with_key (sub round args P p) s (live args.n 0 p)

  module _ (division : IsDivision round args.n P) where
    -- All particles are of a subsort below `n_subsort`, and `cp` holds the places.
    module _ (few : args.n_subsort ≤ 256)
        (inside : (s : ℕ) → args.n_subsort ≤ s → count (sub round args P p) s (live args.n 0 p) ≡ 0)
        (cp : ℕ → ℕ)
        (places : (s r : ℕ)
          → s < args.n_subsort
          → r < P
          → cp (s + stride args.n_subsort * r) ≡ start round args P p s r) where
      abbrev pub Ready : Arrays F → Type ℓ
      Ready a = (a.p ≡ p) × (a.coarse_partition ≡ cp)

      counted_inside : (s r a : ℕ) → r < P → a < counted round args P p s r → s < args.n_subsort
      counted_inside s r a hr lt = elim (dec_lt s args.n_subsort) [
        | yes h ↦ h
        | no h ↦ absurd (
            omega (
              arith,
              inside s (omega arith),
              start_mono round args P p division s (r + 1) P (omega arith) (omega arith),
              start-add-one round args P p division s r hr,
              start_end round args P p division s,
              sum_below-add-one (λ k. count (sub round args P p) k (live args.n 0 p)) s,
            ))
      ]

      abbrev next_of : ℕ → ℕ → ℕ
      next_of r = copy stack 0 (λ k. cp (stride args.n_subsort * r + k)) args.n_subsort

      next_of_lem :
          (s r a : ℕ)
          → r < P
          → a < counted round args P p s r
          → next_of r s ≡ start round args P p s r
      next_of_lem s r a hr lt =
          let hs = counted_inside s r a hr lt in
          copy_in stack 0 (λ k. cp (stride args.n_subsort * r + k)) args.n_subsort s (omega arith)
            (omega arith)
          ∙ ap cp (omega arith)
          ∙ places s r hs hr

      next_of-Apart :
          (r : ℕ) → r < P → Apart (sub round args P p) (next_of r) (chunk round args P p r)
      next_of-Apart r hr v w a b ne ha hb e =
          runs_apart round args P p division v w r r a b hr hr (inl ne) ha hb
            (omega (arith, next_of_lem v r a hr ha, next_of_lem w r b hr hb, e))

      coarse_sort_step :
          (r : ℕ) (a : Arrays F)
          → r ≤ P
          → Ready a
          → Runs (coarse_sort round stack args P) P Ready Filled r a
      unfolding coarse_sort
      coarse_sort_step r a le ready = elim (Bool-cases (r == P)) [
        | inl t ↦ record {
          after = a;
          runs = rw t refl;
          inv = ready;
          own = λ lt. absurd (ground (arith, t));
          others = λ k lt h. h;
        }
        | inr f ↦
            let lt : r < P = ground (arith, f) in
            let fits : ltb 256 args.n_subsort ≡ false = ground arith in
            let key = sub round args P p in
            let aux = scatter key (chunk round args P p r) (next_of r) a.aux_p in
            let own_places : (s m : ℕ)
                → m < counted round args P p s r
                → aux (start round args P p s r + m)
                  ≡ get_elem? (with_key key s (chunk round args P p r)) m =
              λ s m hm.
                ap (λ j. aux (j + m)) (sym (next_of_lem s r m lt hm))
                ∙ scatter_lem key (chunk round args P p r) (next_of r) a.aux_p s m
                    (next_of-Apart r lt) hm in
            record {
              after = record a { aux_p = aux };
              runs = rw (f, fits, share_lem round args P p division a r lt ready.0, ready.1) refl;
              inv = ready;
              own = λ hr s m hm. own_places s m hm;
              others = λ k hk h s m hm. elim (Bool-cases (k == r)) [
                | inl t ↦
                    let e : r ≡ k = ground (arith, t) in
                    ap (λ q. aux (start round args P p s q + m)) (sym e)
                    ∙ own_places s m (omega (arith, ap (counted round args P p s) e, hm))
                    ∙ ap (λ q. get_elem? (with_key key s (chunk round args P p q)) m) e
                | inr ne ↦
                    let differs : k ≢ r = ground (arith, ne) in
                    scatter_skips key (chunk round args P p r) (next_of r) a.aux_p
                      (start round args P p s k + m)
                      (λ v b hb e.
                        runs_apart round args P p division s v k r m b hk lt (inr differs) hm hb
                          (omega (arith, e, next_of_lem v r b lt hb)))
                    ∙ h s m hm
              ];
            }
      ]

      gathered_before :
          (a : Arrays F)
          → ((r : ℕ) → r < P → Filled r a)
          → (s r m : ℕ) → r ≤ P
          → m < count (sub round args P p) s (before round args P p r)
          → a.aux_p (total round args P p s + m)
            ≡ get_elem? (with_key (sub round args P p) s (before round args P p r)) m
      gathered_before a h s zero m le lt =
          absurd (omega (arith, start_zero round args P p division s))
      gathered_before a h s (suc r) m le lt =
          let key = sub round args P p in
          let old = before round args P p r in
          let new = chunk round args P p r in
          let both : before round args P p (suc r) ≡ old ++ new =
            ap (before round args P p) {y = r + 1} (omega arith)
            ∙ before-add-one round args P p division r le in
          let parts = ap (with_key key s) both ∙ with_key-append key s old new in
          let size = length-with_key key s old in
          elim (dec_lt m (count key s old)) [
            | yes hm ↦
                gathered_before a h s r m (omega arith) hm
                ∙ sym (
                    get_elem?-append_fst (with_key key s old) (with_key key s new) m
                      (omega (arith, size, hm)))
                ∙ ap (λ l. get_elem? l m) (sym parts)
            | no hm ↦
                let m2 = m - count key s old in
                ap (a.aux_p) {y = start round args P p s r + m2} (omega (arith, hm))
                ∙ h r le s m2
                    (omega (arith, ap (count key s) both, count-append key s old new, lt, hm))
                ∙ sym (get_elem?-append_snd (with_key key s old) (with_key key s new) m2)
                ∙ ap (λ l. get_elem? l (length (with_key key s old) + m2)) (sym parts)
                ∙ ap (get_elem? (with_key key s (before round args P p (suc r))))
                    (omega (arith, size, hm))
          ]

      -- After the stage the particles of each subsort stand one after the other, in their order.
      pub coarse_sort-exec :
          (order : List ℕ) (a : Arrays F)
          → IsOrder P order
          → Ready a
          → (b : Arrays F) × (exec (coarse_sort round stack args P) order a ≡ some b)
            × Ready b
            × ((s : ℕ) → Gathered s b)
      coarse_sort-exec order a o ready =
          let (b, e, inv, post) =
            exec_all (coarse_sort round stack args P) P Ready Filled
              (λ r t le h. coarse_sort_step r t le h) order a o ready in
          (
            b,
            e,
            inv,
            λ s.
                let key = sub round args P p in
                let l = with_key key s (live args.n 0 p) in
                let all : before round args P p P ≡ live args.n 0 p =
                  ap (λ k. live k 0 p) division.last in
                let size = length-with_key key s (live args.n 0 p) in
                ap (λ k. live k (total round args P p s) b.aux_p) (sym size)
                ∙ live_reads b.aux_p l (total round args P p s) (λ m lt.
                  gathered_before b post s P m (omega arith)
                    (omega (arith, ap (count key s) all, size, lt))
                  ∙ ap (λ q. get_elem? (with_key key s q) m) all),
          )
