-- ===== src/Threads/Invariant/Dispatch.antt =====
-- The steps of the host in `thread_dispatch` keep the invariant.
use vpic.Prelude.{
  ℕ, ◌+◌, ◌*◌, ◌≤◌, ◌<◌, ◌≡◌, refl, ◌∙◌, true, false, arith, Bool-cases, inl, inr, update,
  update_self, update_ne, ltb, ltb→lt,
}
use vpic.Threads.{
  Threads, Pipeline, Mgr, invoke, call, n_thread, is_locked, signal, next_id, assign, sleep,
  execute, waiting, waking, executing, flagging, settling, returned, clearing, querying, calling,
  signing, dispatched,
}
use vpic.Threads.Invariant.{
  calls_of-invoke, calls_of-invoke_ne, is_ok, has_job, has_called, AreJobs, IsConsistent, given,
  before_call, after_call, after_sign, is_querying, is_calling, seen, is_busy,
}
use vpic.Threads.Invariant.Jobs.{AreJobs-others}
use vpic.Threads.Invariant.Assign.{assign-AreJobs}

free_lem : (m : Mgr) → is_ok sleep m ≡ true → is_locked m ≡ false → signal m ≡ waking
unfolding is_ok is_locked signal
free_lem waiting h f = refl
free_lem waking h f = refl
free_lem executing h f = absurd (ground (arith, h))
free_lem flagging h f = absurd (ground (arith, h))
free_lem settling h f = absurd (ground (arith, f))
free_lem returned h f = absurd (ground (arith, h))

sleep_lem : (m : Mgr) → has_job sleep m ≡ false
unfolding has_job
sleep_lem m = refl

module _ (t : Threads) (c : IsConsistent t) where
  next_id-lt : 0 < n_thread t → next_id t < n_thread t
  unfolding next_id
  next_id-lt h = elim (Bool-cases (ltb (t.id + 1) (n_thread t))) [
    | inl b ↦ rw b (ltb→lt (t.id + 1) (n_thread t) b)
    | inr b ↦ rw b h
  ]

  -- The pipeline asked is not free.
  pub pass-IsConsistent : (j : ℕ) → t.host ≡ querying j → IsConsistent (record t { id = next_id t })
  pass-IsConsistent j e = record {
    booted = c.booted;
    parts = c.parts;
    jobs = c.jobs;
    busy = c.busy;
    fresh = c.fresh;
    own_call = c.own_call;
    own_flag = c.own_flag;
    asked = c.asked;
    takes_part = c.takes_part;
    only = c.only;
    in_range = c.in_range;
    waited = c.waited;
    turn = next_id-lt;
  }

  -- The job goes to a sleeping pipeline.
  pub assign-IsConsistent :
      (j : ℕ)
      → t.host ≡ querying j
      → (t.pipeline t.id).state ≡ sleep
      → is_locked (t.pipeline t.id).mgr ≡ false
      → IsConsistent (assign t t.id j)
  unfolding assign given before_call after_call after_sign is_querying is_calling seen is_busy is_ok
      has_job has_called
  assign-IsConsistent j e s free =
      let (lt, unsigned) : (j < n_thread t) × (t.done j ≡ false) = (rw e at c.asked) refl in
      let turn : t.id < n_thread t = c.turn (omega (arith, lt)) in
      let m : signal (t.pipeline t.id).mgr ≡ waking =
        free_lem (t.pipeline t.id).mgr (rw s at (c.jobs.ok t.id turn)) free in
      let jobs : AreJobs (n_thread t) j (call t) t.pipeline t.done t.calls = rw e at c.jobs in
      let q : Pipeline = record {
        state = execute;
        func = t.func;
        args = t.args + j * t.size;
        job = j;
        n_job = t.n_pipeline;
        flag = j;
        mgr = signal (t.pipeline t.id).mgr;
      } in
      record {
        booted = c.booted;
        parts = c.parts;
        jobs =
            assign-AreJobs (n_thread t) j (call t) t.pipeline t.done t.calls jobs t.id turn q
              (rw s (sleep_lem (t.pipeline t.id).mgr)) (rw m refl) (rw m refl) refl refl refl
              (rw m refl) unsigned ((rw e at c.fresh) j refl (omega arith));
        busy = rw e at c.busy;
        fresh = λ i b le. (rw e at c.fresh) i refl (omega (arith, le));
        own_call = λ b. absurd (ground (arith, b));
        own_flag = λ b. absurd (ground (arith, b));
        asked = λ b. absurd (ground (arith, b));
        takes_part = λ b. absurd (ground (arith, b));
        only = c.only;
        in_range = (omega (arith, lt), omega arith);
        waited = λ i lt. absurd (omega (arith, lt));
        turn = next_id-lt;
      }

  pub calling-IsConsistent :
      t.host ≡ calling
      → IsConsistent (record t { calls = invoke (call t (n_thread t)) t.calls; host = signing })
  unfolding given before_call after_call after_sign is_querying is_calling seen is_busy
  calling-IsConsistent e =
      let jobs : AreJobs (n_thread t) (n_thread t) (call t) t.pipeline t.done t.calls =
        rw e at c.jobs in
      record {
        booted = c.booted;
        parts = c.parts;
        jobs =
            AreJobs-others (n_thread t) (n_thread t) (call t) t.pipeline t.done t.calls jobs t.done
              (invoke (call t (n_thread t)) t.calls) (λ j lt. refl)
              (λ j lt. calls_of-invoke_ne (call t (n_thread t)) t.calls j (omega (arith, lt)));
        busy = rw e at c.busy;
        fresh = λ j b le. absurd (ground (arith, b));
        own_call = λ b d.
            calls_of-invoke (call t (n_thread t)) t.calls
              ((rw e at c.fresh) (n_thread t) refl (omega arith));
        own_flag = λ b. absurd (ground (arith, b));
        asked = λ b. absurd (ground (arith, b));
        takes_part = λ b. absurd (ground (arith, b));
        only = λ j le.
            calls_of-invoke_ne (call t (n_thread t)) t.calls j
              (omega (arith, le, (rw e at c.takes_part) refl, c.parts))
            ∙ c.only j le;
        in_range = (omega arith, omega arith);
        waited = λ i lt. absurd (omega (arith, lt));
        turn = c.turn;
      }

  pub signing-IsConsistent :
      t.host ≡ signing
      → IsConsistent (record t { done = update t.done (n_thread t) true; host = dispatched })
  unfolding given before_call after_call after_sign is_querying is_calling seen is_busy
  signing-IsConsistent e =
      let jobs : AreJobs (n_thread t) (n_thread t) (call t) t.pipeline t.done t.calls =
        rw e at c.jobs in
      record {
        booted = c.booted;
        parts = c.parts;
        jobs =
            AreJobs-others (n_thread t) (n_thread t) (call t) t.pipeline t.done t.calls jobs
              (update t.done (n_thread t) true) t.calls
              (λ j lt. update_ne t.done (n_thread t) j true (omega (arith, lt))) (λ j lt. refl);
        busy = rw e at c.busy;
        fresh = λ j b le. absurd (ground (arith, b));
        own_call = λ b d. (rw e at c.own_call) refl d;
        own_flag = λ b d. update_self t.done (n_thread t) true;
        asked = λ b. absurd (ground (arith, b));
        takes_part = λ b. absurd (ground (arith, b));
        only = c.only;
        in_range = (omega arith, omega arith);
        waited = λ i lt. absurd (omega (arith, lt));
        turn = c.turn;
      }

  -- The loop of `thread_dispatch`.
  pub clearing-IsConsistent :
      (j : ℕ)
      → t.host ≡ clearing j
      → j < n_thread t
      → IsConsistent (record t { done = update t.done j false; host = querying j })
  unfolding given before_call after_call after_sign is_querying is_calling seen is_busy
  clearing-IsConsistent j e lt =
      let jobs : AreJobs (n_thread t) j (call t) t.pipeline t.done t.calls = rw e at c.jobs in
      record {
        booted = c.booted;
        parts = c.parts;
        jobs =
            AreJobs-others (n_thread t) j (call t) t.pipeline t.done t.calls jobs
              (update t.done j false) t.calls
              (λ i hi. update_ne t.done j i false (omega (arith, hi))) (λ i hi. refl);
        busy = rw e at c.busy;
        fresh = λ i b le. (rw e at c.fresh) i refl le;
        own_call = λ b. absurd (ground (arith, b));
        own_flag = λ b. absurd (ground (arith, b));
        asked = λ b. (lt, update_self t.done j false);
        takes_part = λ b. absurd (ground (arith, b));
        only = c.only;
        in_range = (omega (arith, lt), omega arith);
        waited = λ i lt. absurd (omega (arith, lt));
        turn = c.turn;
      }

  pub clearing_end : (j : ℕ) → t.host ≡ clearing j → ltb j (n_thread t) ≡ false → j ≡ n_thread t
  unfolding given
  clearing_end j e over =
      let le : j ≤ n_thread t = (rw e at c.in_range).0 in ground (arith, over, le)

  pub host_call-IsConsistent :
      (j : ℕ)
      → t.host ≡ clearing j
      → j ≡ n_thread t
      → 0 < t.dispatch_to_host
      → IsConsistent (record t { done = update t.done j false; host = calling })
  unfolding given before_call after_call after_sign is_querying is_calling seen is_busy
  host_call-IsConsistent j e end own =
      let jobs : AreJobs (n_thread t) (n_thread t) (call t) t.pipeline t.done t.calls =
        rw end at (rw e at c.jobs) in
      record {
        booted = c.booted;
        parts = c.parts;
        jobs =
            AreJobs-others (n_thread t) (n_thread t) (call t) t.pipeline t.done t.calls jobs
              (update t.done j false) t.calls
              (λ i hi. update_ne t.done j i false (omega (arith, hi, end))) (λ i hi. refl);
        busy = rw e at c.busy;
        fresh = λ i b le. (rw e at c.fresh) i refl (omega (arith, le, end));
        own_call = λ b. absurd (ground (arith, b));
        own_flag = λ b. absurd (ground (arith, b));
        asked = λ b. absurd (ground (arith, b));
        takes_part = λ b. omega (arith, own);
        only = c.only;
        in_range = (omega arith, omega arith);
        waited = λ i lt. absurd (omega (arith, lt));
        turn = c.turn;
      }

  pub all_threads-IsConsistent :
      (j : ℕ)
      → t.host ≡ clearing j
      → j ≡ n_thread t
      → t.dispatch_to_host ≡ 0
      → IsConsistent (record t { host = dispatched })
  unfolding given before_call after_call after_sign is_querying is_calling seen is_busy
  all_threads-IsConsistent j e end none_own = record {
    booted = c.booted;
    parts = c.parts;
    jobs = rw end at (rw e at c.jobs);
    busy = rw e at c.busy;
    fresh = λ i b le. absurd (ground (arith, b));
    own_call = λ b d. absurd (d none_own);
    own_flag = λ b d. absurd (d none_own);
    asked = λ b. absurd (ground (arith, b));
    takes_part = λ b. absurd (ground (arith, b));
    only = c.only;
    in_range = (omega arith, omega arith);
    waited = λ i lt. absurd (omega (arith, lt));
    turn = c.turn;
  }
