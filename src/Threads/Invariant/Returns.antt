-- ===== src/Threads/Invariant/Returns.antt =====
-- The steps of the host in `thread_wait`, and the call of `thread_dispatch`, keep the invariant.
use vpic.Prelude.{
  ℕ, ◌+◌, ◌≤◌, ◌<◌, ◌≡◌, refl, ◌∙◌, ap, true, false, List, [], arith, Bool-cases, inl, inr, ◌==◌,
}
use vpic.Sort.Scatter.{with_key}
use vpic.Threads.{Threads, Call, call, n_thread, idle, clearing, dispatched, polling}
use vpic.Threads.Invariant.{
  holds, AreJobs, IsConsistent, given, before_call, after_call, after_sign, is_querying, is_calling,
  seen, is_busy,
}

module _ (t : Threads) (c : IsConsistent t) where
  -- The loop of `thread_wait`.
  pub poll-IsConsistent :
      (j : ℕ)
      → t.host ≡ polling j
      → j < t.n_pipeline
      → t.done j ≡ true
      → IsConsistent (record t { host = polling (j + 1) })
  unfolding given before_call after_call after_sign is_querying is_calling seen is_busy
  poll-IsConsistent j e lt d = record {
    booted = c.booted;
    parts = c.parts;
    jobs = rw e at c.jobs;
    busy = rw e at c.busy;
    fresh = λ i b le. absurd (ground (arith, b));
    own_call = λ b. (rw e at c.own_call) refl;
    own_flag = λ b. (rw e at c.own_flag) refl;
    asked = λ b. absurd (ground (arith, b));
    takes_part = λ b. absurd (ground (arith, b));
    only = c.only;
    in_range = (omega arith, omega (arith, lt));
    waited = λ i hi. elim (Bool-cases (i == j)) [
      | inl same ↦ ap t.done {x = i} {y = j} (ground (arith, same)) ∙ d
      | inr ne ↦ (rw e at c.waited) i (ground (arith, hi, ne))
    ];
    turn = c.turn;
  }

  pub wait-IsConsistent :
      t.host ≡ dispatched → IsConsistent (record t { busy = true; host = polling 0 })
  unfolding given before_call after_call after_sign is_querying is_calling seen is_busy
  wait-IsConsistent e = record {
    booted = c.booted;
    parts = c.parts;
    jobs = rw e at c.jobs;
    busy = refl;
    fresh = λ i b le. absurd (ground (arith, b));
    own_call = λ b. (rw e at c.own_call) refl;
    own_flag = λ b. (rw e at c.own_flag) refl;
    asked = λ b. absurd (ground (arith, b));
    takes_part = λ b. absurd (ground (arith, b));
    only = c.only;
    in_range = (omega arith, omega arith);
    waited = λ i lt. absurd (omega (arith, lt));
    turn = c.turn;
  }

  -- When all flags are seen, no thread has a job.
  pub released :
      (j k : ℕ)
      → t.host ≡ polling j
      → t.n_pipeline ≤ j
      → k < n_thread t
      → holds (t.pipeline k) ≡ true
      → ⊥
  unfolding given seen
  released j k e le lt b =
      let jobs : AreJobs (n_thread t) (n_thread t) (call t) t.pipeline t.done t.calls =
        rw e at c.jobs in
      let task = jobs.task k lt b in
      let d : t.done (t.pipeline k).job ≡ true =
        (rw e at c.waited) (t.pipeline k).job (omega (arith, task.early, le)) in
      ground (arith, d, task.unsigned)

  -- Without jobs, nothing is due.
  none-AreJobs :
      (expected : ℕ → Call) (calls : List Call)
      → ((k : ℕ) → k < n_thread t → holds (t.pipeline k) ≡ true → ⊥)
      → AreJobs (n_thread t) 0 expected t.pipeline t.done calls
  none-AreJobs expected calls none_held = record {
    ok = c.jobs.ok;
    task = λ k lt b. absurd (none_held k lt b);
    apart = λ k i lt li b. absurd (none_held k lt b);
    holder = λ j lt. absurd (omega (arith, lt));
    finished = λ j lt. absurd (omega (arith, lt));
  }

  pub return-IsConsistent :
      (j : ℕ)
      → t.host ≡ polling j
      → t.n_pipeline ≤ j
      → IsConsistent (record t { busy = false; host = idle })
  unfolding given before_call after_call after_sign is_querying is_calling seen is_busy
  return-IsConsistent j e le = record {
    booted = c.booted;
    parts = c.parts;
    jobs = none-AreJobs (call t) t.calls (λ k lt b. released j k e le lt b);
    busy = refl;
    fresh = λ i b. absurd (ground (arith, b));
    own_call = λ b. absurd (ground (arith, b));
    own_flag = λ b. absurd (ground (arith, b));
    asked = λ b. absurd (ground (arith, b));
    takes_part = λ b. absurd (ground (arith, b));
    only = c.only;
    in_range = (omega arith, omega arith);
    waited = λ i lt. absurd (omega (arith, lt));
    turn = c.turn;
  }

  pub begin-IsConsistent :
      (func args size : ℕ)
      → t.host ≡ idle
      → IsConsistent (record t {
        busy = true;
        func = func;
        args = args;
        size = size;
        calls = [];
        host = clearing 0;
      })
  unfolding given before_call after_call after_sign is_querying is_calling seen is_busy with_key
  begin-IsConsistent func args size e = record {
    booted = c.booted;
    parts = c.parts;
    jobs =
        none-AreJobs
          (call (record t {
            busy = true;
            func = func;
            args = args;
            size = size;
            calls = [];
            host = clearing 0;
          }))
          []
          (λ k lt b.
            let early = ((rw e at c.jobs).task k lt b).early in absurd (omega (arith, early)));
    busy = refl;
    fresh = λ i b le. refl;
    own_call = λ b. absurd (ground (arith, b));
    own_flag = λ b. absurd (ground (arith, b));
    asked = λ b. absurd (ground (arith, b));
    takes_part = λ b. absurd (ground (arith, b));
    only = λ j le. refl;
    in_range = (omega arith, omega arith);
    waited = λ i lt. absurd (omega (arith, lt));
    turn = c.turn;
  }
