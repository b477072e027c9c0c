-- ===== src/Threads/Rank/Awake.antt =====
-- A thread that is awake lowers the rank.
use vpic.Prelude.{ℕ, ◌<◌, ◌≡◌, refl, ap, true, some, arith, update, lt→ltb}
use vpic.Threads.{
  is_spurious, is_waiting, Threads, Pipeline, Mgr, State, invoke, n_thread, pipeline_mgr, sleep,
  execute, terminate, ack, waiting, waking, executing, flagging, settling, returned, thread, step,
}
use vpic.Threads.Invariant.{is_ok, IsConsistent}
use vpic.Threads.Rank.{weight, weights, weights-update, Lowered}

module _ (t : Threads) (c : IsConsistent t) where
  module _ (k : ℕ) (lt : k < n_thread t) where
    steps_thread : (u : Threads) → pipeline_mgr k t ≡ some u → step (thread k) t ≡ some u
    unfolding step
    steps_thread u e = rw (lt→ltb k (n_thread t) lt) e

    lowers :
        (q : Pipeline)
        → weight q.mgr < weight (t.pipeline k).mgr
        → weights (update t.pipeline k q) (n_thread t) < weights t.pipeline (n_thread t)
    lowers q less = omega (arith, weights-update t.pipeline (n_thread t) k q lt, less)

    waking-Lowered :
        (s : State)
        → is_ok s waking ≡ true
        → (t.pipeline k).state ≡ s
        → (t.pipeline k).mgr ≡ waking
        → Lowered t
    unfolding pipeline_mgr is_ok weight is_spurious is_waiting
    waking-Lowered sleep h e m =
        let q : Pipeline = record (t.pipeline k) { state = sleep; mgr = settling } in
        record {
          action = thread k;
          after = record t { pipeline = update t.pipeline k q };
          steps =
              steps_thread (record t { pipeline = update t.pipeline k q })
                (rw (pipeline_mgr, m, e)
                  (ap
                    (λ x. some (record t {
                      pipeline =
                          update t.pipeline k (record (t.pipeline k) { state = x; mgr = settling });
                    }))
                    e));
          lower = omega (arith, lowers q (rw m (omega arith)));
          signalled = rw (is_spurious, m) refl;
        }
    waking-Lowered execute h e m =
        let q : Pipeline = record (t.pipeline k) { state = execute; mgr = executing } in
        record {
          action = thread k;
          after = record t { pipeline = update t.pipeline k q };
          steps =
              steps_thread (record t { pipeline = update t.pipeline k q })
                (rw (pipeline_mgr, m, e)
                  (ap
                    (λ x. some (record t {
                      pipeline =
                          update t.pipeline k
                            (record (t.pipeline k) { state = x; mgr = executing });
                    }))
                    e));
          lower = omega (arith, lowers q (rw m (omega arith)));
          signalled = rw (is_spurious, m) refl;
        }
    waking-Lowered terminate h e m = absurd (ground (arith, h))
    waking-Lowered ack h e m = absurd (ground (arith, h))

    -- A thread that is awake goes on.
    pub awake-Lowered : (m : Mgr) → (t.pipeline k).mgr ≡ m → 0 < weight m → Lowered t
    unfolding pipeline_mgr weight is_spurious is_waiting
    awake-Lowered waiting m pos = absurd (omega (arith, pos))
    awake-Lowered waking m pos =
        waking-Lowered (t.pipeline k).state (rw m at (c.jobs.ok k lt)) refl m
    awake-Lowered executing m pos =
        let p = t.pipeline k in
        let q : Pipeline = record p { mgr = flagging } in
        let u : Threads = record t {
          pipeline = update t.pipeline k q;
          calls =
              invoke (record { func = p.func; args = p.args; job = p.job; n_job = p.n_job })
                t.calls;
        } in
        record {
          action = thread k;
          after = u;
          steps = steps_thread u (rw (pipeline_mgr, m) refl);
          lower = omega (arith, lowers q (rw m (omega arith)));
          signalled = rw (is_spurious, m) refl;
        }
    awake-Lowered flagging m pos =
        let p = t.pipeline k in
        let q : Pipeline = record p { mgr = settling } in
        let u : Threads = record t {
          pipeline = update t.pipeline k q;
          done = update t.done p.flag true;
        } in
        record {
          action = thread k;
          after = u;
          steps = steps_thread u (rw (pipeline_mgr, m) refl);
          lower = omega (arith, lowers q (rw m (omega arith)));
          signalled = rw (is_spurious, m) refl;
        }
    awake-Lowered settling m pos =
        let q : Pipeline = record (t.pipeline k) { state = sleep; mgr = waiting } in
        let u : Threads = record t { pipeline = update t.pipeline k q } in
        record {
          action = thread k;
          after = u;
          steps = steps_thread u (rw (pipeline_mgr, m) refl);
          lower = omega (arith, lowers q (rw m (omega arith)));
          signalled = rw (is_spurious, m) refl;
        }
    awake-Lowered returned m pos = absurd (omega (arith, pos))
