-- ===== src/Threads/Stuck/HostSteps.antt =====
-- The steps of the host when Dispatch_To_Host is neither 0 nor 1.
use vpic.Prelude.{
  ℕ, ◌+◌, ◌-◌, ◌*◌, ◌≤◌, ◌<◌, ◌≡◌, refl, ap, true, false, arith, Bool-cases, inl, inr, ◌==◌, ltb,
  lt→ltb, ltb→lt,
}
use vpic.Threads.{
  Threads, State, Host, n_thread, is_locked, signal, next_id, assign, parallel_execute, host_step,
  sleep, execute, terminate, ack, idle, clearing, querying, calling, signing, dispatched, polling,
}
use vpic.Threads.Invariant.{given, is_querying, seen}
use vpic.Threads.Stuck.{IsStuck, Stays, flags-update, host_at, flag_at}

module _ (t : Threads) (c : IsStuck t) where
  passes : IsStuck (record t { id = next_id t })
  passes = record {
    parts = c.parts;
    unset = c.unset;
    flags = c.flags;
    in_range = c.in_range;
    asked = c.asked;
  }

  assigns : (j : ℕ) → t.host ≡ querying j → IsStuck (assign t t.id j)
  unfolding assign given is_querying seen
  assigns j e =
      let lt : j < n_thread t = (rw e at c.asked) refl in
      record {
        parts = c.parts;
        unset = c.unset;
        flags =
            flags-update t c t.id
              (record {
                state = execute;
                func = t.func;
                args = t.args + j * t.size;
                job = j;
                n_job = t.n_pipeline;
                flag = j;
                mgr = signal (t.pipeline t.id).mgr;
              })
              (omega (arith, lt, c.parts));
        in_range = (omega (arith, lt), omega (arith, c.parts));
        asked = λ b. absurd (ground (arith, b));
      }

  parallel_execute-at :
      (j : ℕ)
      → t.host ≡ querying j
      → (s : State) → (t.pipeline t.id).state ≡ s
      → Stays (parallel_execute t j)
  unfolding parallel_execute
  parallel_execute-at j e s is = elim (Bool-cases (n_thread t == 0)) [
    | inl z ↦ rw (Stays, z) refl
    | inr z ↦ elim (Bool-cases (is_locked (t.pipeline t.id).mgr)) [
      | inl b ↦ rw (Stays, z, b) passes
      | inr b ↦ free s is z b
    ]
  ]
    where
      free :
          (s : State)
          → (t.pipeline t.id).state ≡ s
          → (n_thread t == 0) ≡ false
          → is_locked (t.pipeline t.id).mgr ≡ false
          → Stays (parallel_execute t j)
      free sleep is z b = rw (Stays, z, b, is) (assigns j e)
      free execute is z b = rw (Stays, z, b, is) passes
      free terminate is z b = rw (Stays, z, b, is) refl
      free ack is z b = rw (Stays, z, b, is) passes

  -- The host polls a flag before the last, or the last for ever.
  pub polls :
      (j : ℕ) → t.host ≡ polling j → (j < t.n_pipeline) × (t.done j ≡ true → j + 1 < t.n_pipeline)
  unfolding seen
  polls j e =
      let lt : j < t.n_pipeline = (rw e at c.in_range).1 in
      (
        lt,
        λ d. elim (Bool-cases (j == t.n_pipeline - 1)) [
          | inl last ↦ absurd (
              ground (
                arith,
                d,
                c.unset,
                ap t.done {x = j} {y = t.n_pipeline - 1} (ground (arith, last)),
              ))
          | inr ne ↦ ground (arith, lt, ne)
        ],
      )

  pub host_step-at : (h : Host) → t.host ≡ h → Stays (host_step t)
  unfolding host_step given is_querying seen
  host_step-at idle e = rw (Stays, e) refl
  host_step-at (clearing j) e =
      let le : j ≤ n_thread t = (rw e at c.in_range).0 in
      elim (Bool-cases (ltb j (n_thread t))) [
        | inl b ↦
            let lt = ltb→lt j (n_thread t) b in
            rw (Stays, e, b)
              (flag_at t c j false (querying j) (omega (arith, lt, c.parts)) le
                (omega (arith, c.parts)) (λ x. lt))
        | inr b ↦ elim (Bool-cases (t.dispatch_to_host == 0)) [
          | inl z ↦ absurd (ground (arith, z, c.parts))
          | inr z ↦
              rw (Stays, e, b, z)
                (flag_at t c j false calling (omega (arith, le, c.parts)) (omega arith)
                  (omega (arith, c.parts)) (λ x. absurd (ground (arith, x))))
        ]
      ]
  host_step-at (querying j) e = rw (Stays, e) (parallel_execute-at j e (t.pipeline t.id).state refl)
  host_step-at calling e =
      rw (Stays, e)
        (record {
          parts = c.parts;
          unset = c.unset;
          flags = c.flags;
          in_range = (omega arith, omega (arith, c.parts));
          asked = λ b. absurd (ground (arith, b));
        })
  host_step-at signing e =
      rw (Stays, e)
        (flag_at t c (n_thread t) true dispatched (omega (arith, c.parts)) (omega arith)
          (omega (arith, c.parts)) (λ x. absurd (ground (arith, x))))
  host_step-at dispatched e = rw (Stays, e) refl
  host_step-at (polling j) e =
      let (lt, next) = polls j e in
      elim (Bool-cases (t.done j)) [
        | inl d ↦
            rw (Stays, e, lt→ltb j t.n_pipeline lt, d)
              (host_at t c (polling (j + 1)) (omega arith) (next d) refl)
        | inr d ↦ rw (Stays, e, lt→ltb j t.n_pipeline lt, d) c
      ]
