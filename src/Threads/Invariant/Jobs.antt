-- ===== src/Threads/Invariant/Jobs.antt =====
-- The steps that concern the jobs of the threads.
use vpic.Prelude.{
  ℕ, ◌<◌, ◌≡◌, ◌≢◌, refl, sym, ◌∙◌, ap, Bool, true, false, List, [], arith, Bool-cases, inl, inr,
  ◌==◌, update, update_ne,
}
use vpic.Threads.{Pipeline, Call, Mgr, State, invoke}
use vpic.Threads.Invariant.{
  calls_of, calls_of-invoke, calls_of-invoke_ne, is_ok, has_job, has_called, holds, call_of,
  AreJobs,
}

module _ (n g : ℕ) (expected : ℕ → Call) (pipeline : ℕ → Pipeline) (done : ℕ → Bool)
    (calls : List Call) (h : AreJobs n g expected pipeline done calls) where
  -- What happens to other jobs than these does not matter.
  pub AreJobs-others :
      (done' : ℕ → Bool) (calls' : List Call)
      → ((j : ℕ) → j < g → done' j ≡ done j)
      → ((j : ℕ) → j < g → calls_of j calls' ≡ calls_of j calls)
      → AreJobs n g expected pipeline done' calls'
  AreJobs-others done' calls' d c = record {
    ok = h.ok;
    task = λ k lt b.
        let t = h.task k lt b in
        record {
          early = t.early;
          flag = t.flag;
          called = t.called;
          unsigned = d (pipeline k).job t.early ∙ t.unsigned;
          made = c (pipeline k).job t.early ∙ t.made;
        };
    apart = h.apart;
    holder = λ j lt b. h.holder j lt (sym (d j lt) ∙ b);
    finished = λ j lt b. c j lt ∙ h.finished j lt (sym (d j lt) ∙ b);
  }

  module _ (k : ℕ) (lt : k < n) where
    abbrev p : Pipeline
    p = pipeline k

    -- The thread of a pipeline moves on, with its job or without one.
    module _ (s : State) (m : Mgr) (good : is_ok s m ≡ true) (same : has_job s m ≡ holds p) where
      abbrev moved : ℕ → Pipeline
      moved = update pipeline k (record p { state = s; mgr = m })

      holds-moved : (i : ℕ) → holds (moved i) ≡ holds (pipeline i)
      unfolding update
      holds-moved i = elim (Bool-cases (i == k)) [
        | inl t ↦ let e : i ≡ k = ground arith in rw (t, e) same
        | inr f ↦ rw f refl
      ]

      job-moved : (i : ℕ) → (moved i).job ≡ (pipeline i).job
      unfolding update
      job-moved i = elim (Bool-cases (i == k)) [
        | inl t ↦ let e : i ≡ k = ground arith in rw (t, e) refl
        | inr f ↦ rw f refl
      ]

      pub move-AreJobs :
          (holds p ≡ true → has_called m ≡ has_called p.mgr) → AreJobs n g expected moved done calls
      unfolding update
      move-AreJobs calls_same = record {
        ok = λ i hi. elim (Bool-cases (i == k)) [ inl t ↦ rw t good | inr f ↦ rw f (h.ok i hi) ];
        task = λ i hi b. elim (Bool-cases (i == k)) [
          | inl t ↦
              let e : i ≡ k = ground arith in
              let held : holds p ≡ true =
                ap (λ x. holds (pipeline x)) (sym e) ∙ sym (holds-moved i) ∙ b in
              let old = h.task k lt held in
              rw t (record {
                early = old.early;
                flag = old.flag;
                called = old.called;
                unsigned = old.unsigned;
                made = rw (calls_same held) old.made;
              })
          | inr f ↦ rw f (h.task i hi (sym (holds-moved i) ∙ b))
        ];
        apart = λ i q hi hq bi bq e.
            h.apart i q hi hq (sym (holds-moved i) ∙ bi) (sym (holds-moved q) ∙ bq)
              (sym (job-moved i) ∙ e ∙ job-moved q);
        holder = λ j hj d.
            let (i, hi, b, e) = h.holder j hj d in (i, hi, holds-moved i ∙ b, job-moved i ∙ e);
        finished = h.finished;
      }

      -- It calls the function of its job.
      pub call-AreJobs :
          holds p ≡ true
          → has_called p.mgr ≡ false
          → has_called m ≡ true
          → AreJobs n g expected moved done (invoke (call_of p) calls)
      unfolding update
      call-AreJobs held before after =
          let old = h.task k lt held in
          record {
            ok =
                λ i hi. elim (Bool-cases (i == k)) [ inl t ↦ rw t good | inr f ↦ rw f (h.ok i hi) ];
            task = λ i hi b. elim (Bool-cases (i == k)) [
              | inl t ↦ rw t (record {
                early = old.early;
                flag = old.flag;
                called = old.called;
                unsigned = old.unsigned;
                made = rw after (
                    calls_of-invoke (call_of p) calls (rw before at old.made)
                    ∙ ap (λ c. invoke c []) old.called);
              })
              | inr f ↦
                  let other = h.task i hi (sym (holds-moved i) ∙ b) in
                  rw f (record {
                    early = other.early;
                    flag = other.flag;
                    called = other.called;
                    unsigned = other.unsigned;
                    made =
                        calls_of-invoke_ne (call_of p) calls (pipeline i).job (λ e.
                          ground (arith, f, h.apart k i lt hi held (sym (holds-moved i) ∙ b) e))
                        ∙ other.made;
                  })
            ];
            apart = λ i q hi hq bi bq e.
                h.apart i q hi hq (sym (holds-moved i) ∙ bi) (sym (holds-moved q) ∙ bq)
                  (sym (job-moved i) ∙ e ∙ job-moved q);
            holder = λ j hj d.
                let (i, hi, b, e) = h.holder j hj d in (i, hi, holds-moved i ∙ b, job-moved i ∙ e);
            finished = λ j hj d.
                calls_of-invoke_ne (call_of p) calls j (λ e.
                  let u : done j ≡ false = ap done (sym e) ∙ old.unsigned in ground (arith, u, d))
                ∙ h.finished j hj d;
          }

    -- It sets the flag of its job.
    module _ (s : State) (m : Mgr) (good : is_ok s m ≡ true) (free : has_job s m ≡ false)
        (held : holds p ≡ true) (after : has_called p.mgr ≡ true) where
      abbrev freed : ℕ → Pipeline
      freed = update pipeline k (record p { state = s; mgr = m })

      freed-holds :
          (i : ℕ)
          → holds (freed i) ≡ true
          → (i ≢ k) × (holds (pipeline i) ≡ true) × (freed i ≡ pipeline i)
      unfolding update
      freed-holds i b = elim (Bool-cases (i == k)) [
        | inl t ↦ absurd (ground (arith, rw t at b, free))
        | inr f ↦ (ground (arith, f), rw f at b, rw f refl)
      ]

      pub sign-AreJobs : AreJobs n g expected freed (update done p.flag true) calls
      unfolding update
      sign-AreJobs = record {
        ok = λ i hi. elim (Bool-cases (i == k)) [ inl t ↦ rw t good | inr f ↦ rw f (h.ok i hi) ];
        task = λ i hi b.
            let (ne, bi, e) = freed-holds i b in
            let other = h.task i hi bi in
            rw e (record {
              early = other.early;
              flag = other.flag;
              called = other.called;
              unsigned =
                  update_ne done p.flag (pipeline i).job true
                    (λ x. ne (h.apart i k hi lt bi held (x ∙ (h.task k lt held).flag)))
                  ∙ other.unsigned;
              made = other.made;
            });
        apart = λ i q hi hq bi bq e.
            let (ni, ci, ei) = freed-holds i bi in
            let (nq, cq, eq) = freed-holds q bq in
            h.apart i q hi hq ci cq (ap (λ x. x.job) (sym ei) ∙ e ∙ ap (λ x. x.job) eq);
        holder = λ j hj d. elim (Bool-cases (j == p.flag)) [
          | inl t ↦ absurd (ground (arith, rw t at d))
          | inr f ↦
              let (i, hi, b, e) = h.holder j hj (rw f at d) in
              let other : (i == k) ≡ false = ground (
                arith,
                f,
                e,
                ap (λ x. (pipeline x).job) {x = i} {y = k},
                (h.task k lt held).flag,
              ) in
              (i, hi, rw other b, rw other e)
        ];
        finished = λ j hj d. elim (Bool-cases (j == p.flag)) [
          | inl t ↦
              let old = h.task k lt held in
              let e : p.job ≡ j = sym old.flag ∙ ground (arith, t) in
              rw (← e) (rw after at old.made)
          | inr f ↦ h.finished j hj (rw f at d)
        ];
      }
