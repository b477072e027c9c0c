-- ===== src/Threads/Rank/Progress.antt =====
-- As long as the host is not outside, it or a thread lowers the rank.
use native.Mathlib.Decide.{dec_lt}
use vpic.Prelude.{
  ℕ, ◌+◌, ◌*◌, ◌≤◌, ◌<◌, ◌≡◌, ◌≢◌, refl, sym, ◌∙◌, ap, true, false, some, arith, Bool-cases, inl,
  inr, ◌==◌, update, ltb, ltb→lt,
}
use vpic.Threads.{
  is_spurious, Threads, Pipeline, State, Host, invoke, call, n_thread, is_locked, signal, next_id,
  assign, parallel_execute, host_step, thread_wait, sleep, execute, terminate, ack, idle, clearing,
  querying, calling, signing, dispatched, polling, Action, wait, go, step,
}
use vpic.Threads.Invariant.{is_ok, IsConsistent, given, after_sign, is_querying, seen, is_busy}
use vpic.Threads.Rank.{
  host_rank, rank, weights-update, Lowered, holds-weight, is_locked-weight, execute-weight,
  signal-weight,
}
use vpic.Threads.Rank.Awake.{awake-Lowered}

module _ (t : Threads) (c : IsConsistent t) where
  -- The host goes on.
  host-Lowered : (u : Threads) → host_step t ≡ some u → rank u < rank t → Lowered t
  unfolding step is_spurious
  host-Lowered u e less = record {
    action = go;
    after = u;
    steps = e;
    lower = less;
    signalled = refl;
  }

  assign-rank :
      (j : ℕ)
      → t.host ≡ querying j
      → j < n_thread t
      → t.id < n_thread t
      → rank (assign t t.id j) < rank t
  unfolding assign next_id host_rank
  assign-rank j e lt turn =
      let q : Pipeline = record {
        state = execute;
        func = t.func;
        args = t.args + j * t.size;
        job = j;
        n_job = t.n_pipeline;
        flag = j;
        mgr = signal (t.pipeline t.id).mgr;
      } in
      omega (
        arith,
        weights-update t.pipeline (n_thread t) t.id q turn,
        signal-weight (t.pipeline t.id).mgr,
        ap (host_rank t.n_pipeline (n_thread t)) e,
        lt,
      )

  querying-Lowered :
      (j : ℕ) → t.host ≡ querying j → (s : State) → (t.pipeline t.id).state ≡ s → Lowered t
  unfolding host_step parallel_execute given is_querying is_ok assign next_id
  querying-Lowered j e s is =
      let lt : j < n_thread t = ((rw e at c.asked) refl).0 in
      let turn : t.id < n_thread t = c.turn (omega (arith, lt)) in
      elim (Bool-cases (is_locked (t.pipeline t.id).mgr)) [
        | inl b ↦
            awake-Lowered t c t.id turn (t.pipeline t.id).mgr refl
              (is_locked-weight (t.pipeline t.id).mgr b)
        | inr b ↦ free s is turn lt b
      ]
    where
      free :
          (s : State)
          → (t.pipeline t.id).state ≡ s
          → t.id < n_thread t
          → j < n_thread t
          → is_locked (t.pipeline t.id).mgr ≡ false
          → Lowered t
      free sleep is turn lt b =
          let some_thread : (n_thread t == 0) ≡ false = ground (arith, lt) in
          host-Lowered (assign t t.id j)
            (rw (host_step, e, parallel_execute, some_thread, b, is) refl) (assign-rank j e lt turn)
      free execute is turn lt b =
          awake-Lowered t c t.id turn (t.pipeline t.id).mgr refl
            (execute-weight (t.pipeline t.id).mgr (rw is at (c.jobs.ok t.id turn)))
      free terminate is turn lt b = absurd (ground (arith, rw is at (c.jobs.ok t.id turn)))
      free ack is turn lt b = absurd (ground (arith, rw is at (c.jobs.ok t.id turn)))

  polling-Lowered : (j : ℕ) → t.host ≡ polling j → Lowered t
  unfolding host_step host_rank given seen after_sign
  polling-Lowered j e = elim (Bool-cases (ltb j t.n_pipeline)) [
    | inl b ↦ elim (Bool-cases (t.done j)) [
      | inl d ↦
          host-Lowered (record t { host = polling (j + 1) }) (rw (host_step, e, b, d) refl)
            (omega (arith, ap (host_rank t.n_pipeline (n_thread t)) e, ltb→lt j t.n_pipeline b))
      | inr d ↦ elim (dec_lt j (n_thread t)) [
        | yes lt ↦
            let (k, hk, held, same) = (rw e at c.jobs).holder j lt d in
            awake-Lowered t c k hk (t.pipeline k).mgr refl
              (holds-weight (t.pipeline k).state (t.pipeline k).mgr (c.jobs.ok k hk) held)
        | no ge ↦
            let own : t.dispatch_to_host ≢ 0 = λ z. omega (arith, z, ge, ltb→lt j t.n_pipeline b) in
            let j_own : n_thread t ≡ j = omega (arith, c.parts, ge, ltb→lt j t.n_pipeline b) in
            let set : t.done j ≡ true = ap t.done (sym j_own) ∙ (rw e at c.own_flag) refl own in
            absurd (ground (arith, set, d))
      ]
    ]
    | inr b ↦
        let le : j ≤ t.n_pipeline = (rw e at c.in_range).1 in
        host-Lowered (record t { busy = false; host = idle }) (rw (host_step, e, b) refl)
          (omega (arith, ap (host_rank t.n_pipeline (n_thread t)) e, le))
  ]

  clearing-Lowered : (j : ℕ) → t.host ≡ clearing j → Lowered t
  unfolding host_step host_rank given
  clearing-Lowered j e = elim (Bool-cases (ltb j (n_thread t))) [
    | inl b ↦
        host-Lowered (record t { done = update t.done j false; host = querying j })
          (rw (host_step, e, b) refl) (omega (arith, ap (host_rank t.n_pipeline (n_thread t)) e))
    | inr b ↦ elim (Bool-cases (t.dispatch_to_host == 0)) [
      | inl z ↦
          host-Lowered (record t { host = dispatched }) (rw (host_step, e, b, z) refl)
            (omega (arith, ap (host_rank t.n_pipeline (n_thread t)) e))
      | inr z ↦
          host-Lowered (record t { done = update t.done j false; host = calling })
            (rw (host_step, e, b, z) refl)
            (omega (arith, ap (host_rank t.n_pipeline (n_thread t)) e))
    ]
  ]

  dispatched-Lowered : t.host ≡ dispatched → Lowered t
  unfolding step thread_wait host_rank is_busy is_spurious
  dispatched-Lowered e =
      let b : t.busy ≡ true = rw e at c.busy in
      let z : (t.n_pipeline == 0) ≡ false = ground (arith, c.booted) in
      record {
        action = wait;
        after = record t { busy = true; host = polling 0 };
        steps = rw (step, thread_wait, e, z, b) refl;
        lower = omega (arith, ap (host_rank t.n_pipeline (n_thread t)) e);
        signalled = refl;
      }

  Lowered-at : (h : Host) → t.host ≡ h → h ≢ idle → Lowered t
  unfolding host_step host_rank
  Lowered-at idle e b = absurd (b refl)
  Lowered-at (clearing j) e b = clearing-Lowered j e
  Lowered-at (querying j) e b = querying-Lowered j e (t.pipeline t.id).state refl
  Lowered-at calling e b =
      host-Lowered (record t { calls = invoke (call t (n_thread t)) t.calls; host = signing })
        (rw (host_step, e) refl) (omega (arith, ap (host_rank t.n_pipeline (n_thread t)) e))
  Lowered-at signing e b =
      host-Lowered (record t { done = update t.done (n_thread t) true; host = dispatched })
        (rw (host_step, e) refl) (omega (arith, ap (host_rank t.n_pipeline (n_thread t)) e))
  Lowered-at dispatched e b = dispatched-Lowered e
  Lowered-at (polling j) e b = polling-Lowered j e

  -- Unless the host is outside, there is a step that lowers the rank, other than a wake-up without
  -- a signal.
  pub progress :
      t.host ≢ idle
      → (a : Action) × (u : Threads) × (step a t ≡ some u)
        × (rank u < rank t)
        × (is_spurious a t ≡ false)
  progress b =
      let p = Lowered-at t.host refl b in (p.action, p.after, p.steps, p.lower, p.signalled)
