-- ===== src/Threads/Invariant/Assign.antt =====
-- The step that gives a job to a thread.
use vpic.Prelude.{
  ℕ, ◌+◌, ◌<◌, ◌≡◌, ◌⊎◌, refl, sym, ◌∙◌, ap, Bool, true, false, List, [], arith, Bool-cases, inl,
  inr, ◌==◌, update, update_self, update_ne,
}
use vpic.Threads.{Pipeline, Call}
use vpic.Threads.Invariant.{calls_of, is_ok, has_called, holds, call_of, AreJobs}

module _ (n g : ℕ) (expected : ℕ → Call) (pipeline : ℕ → Pipeline) (done : ℕ → Bool)
    (calls : List Call) (h : AreJobs n g expected pipeline done calls) where
  module _ (k : ℕ) (lt : k < n) where
    abbrev p : Pipeline
    p = pipeline k

    -- The host gives it the next job.
    module _ (q : Pipeline) (free : holds p ≡ false) (good : is_ok q.state q.mgr ≡ true)
        (held : holds q ≡ true) (new : q.job ≡ g) (flag : q.flag ≡ g)
        (task : call_of q ≡ expected g) (before : has_called q.mgr ≡ false)
        (unsigned : done g ≡ false) (uncalled : calls_of g calls ≡ []) where
      abbrev assigned : ℕ → Pipeline
      assigned = update pipeline k q

      assigned_old : (i : ℕ) → holds (pipeline i) ≡ true → assigned i ≡ pipeline i
      assigned_old i b =
          update_ne pipeline k i q (λ e. ground (arith, b, ap (λ x. holds (pipeline x)) e, free))

      assigned_cases :
          (i : ℕ)
          → i < n
          → holds (assigned i) ≡ true
          → ((i ≡ k) × (assigned i ≡ q))
            ⊎ ((holds (pipeline i) ≡ true) × (assigned i ≡ pipeline i) × ((pipeline i).job < g))
      unfolding update
      assigned_cases i hi b = elim (Bool-cases (i == k)) [
        | inl t ↦ inl (ground (arith, t), rw t refl)
        | inr f ↦
            let c : holds (pipeline i) ≡ true = rw f at b in
            inr (c, rw f refl, (h.task i hi c).early)
      ]

      assigned_ok : (i : ℕ) → i < n → is_ok (assigned i).state (assigned i).mgr ≡ true
      unfolding update
      assigned_ok i hi = elim (Bool-cases (i == k)) [ inl t ↦ rw t good | inr f ↦ rw f (h.ok i hi) ]

      pub assign-AreJobs : AreJobs n (g + 1) expected assigned done calls
      assign-AreJobs = record {
        ok = assigned_ok;
        task = λ i hi b. elim (assigned_cases i hi b) [
          | inl (e, x) ↦ rw x (record {
            early = omega (arith, new);
            flag = flag ∙ sym new;
            called = task ∙ ap expected (sym new);
            unsigned = ap done new ∙ unsigned;
            made = rw (before, new) uncalled;
          })
          | inr (c, x, early) ↦
              let old = h.task i hi c in
              rw x (record {
                early = omega (arith, early);
                flag = old.flag;
                called = old.called;
                unsigned = old.unsigned;
                made = old.made;
              })
        ];
        apart = λ i x hi hx bi bx e. elim (assigned_cases i hi bi) [
          | inl (ei, yi) ↦ elim (assigned_cases x hx bx) [
            | inl (ex, yx) ↦ ei ∙ sym ex
            | inr (cx, yx, early) ↦
                absurd (omega (arith, ap (λ z. z.job) yi, new, e, ap (λ z. z.job) yx, early))
          ]
          | inr (ci, yi, early) ↦ elim (assigned_cases x hx bx) [
            | inl (ex, yx) ↦
                absurd (omega (arith, ap (λ z. z.job) yi, new, e, ap (λ z. z.job) yx, early))
            | inr (cx, yx, late) ↦
                h.apart i x hi hx ci cx (ap (λ z. z.job) (sym yi) ∙ e ∙ ap (λ z. z.job) yx)
          ]
        ];
        holder = λ j hj d. elim (Bool-cases (j == g)) [
          | inl t ↦
              let x = update_self pipeline k q in
              (k, lt, ap holds x ∙ held, ap (λ z. z.job) x ∙ new ∙ ground (arith, t))
          | inr f ↦
              let (i, hi, b, e) = h.holder j (ground (arith, f, hj)) d in
              let x = assigned_old i b in (i, hi, ap holds x ∙ b, ap (λ z. z.job) x ∙ e)
        ];
        finished = λ j hj d. elim (Bool-cases (j == g)) [
          | inl t ↦
              absurd (ground (arith, d, unsigned, ap done {x = j} {y = g} (ground (arith, t))))
          | inr f ↦ h.finished j (ground (arith, f, hj)) d
        ];
      }
