-- ===== src/Threads/Invariant/Manager.antt =====
-- The steps of `pipeline_mgr` keep the invariant.
use vpic.Prelude.{
  ℕ, ◌≤◌, ◌<◌, ◌≡◌, refl, ◌∙◌, Bool, true, false, Option, none, some, List, arith, update,
  update_ne,
}
use vpic.Threads.{
  Threads, Pipeline, Call, Mgr, State, invoke, call, n_thread, pipeline_mgr, sleep, execute,
  terminate, ack, waiting, waking, executing, flagging, settling, returned,
}
use vpic.Threads.Invariant.{
  calls_of, calls_of-invoke_ne, is_ok, has_job, has_called, holds, call_of, AreJobs, IsConsistent,
  given,
}
use vpic.Threads.Invariant.Jobs.{move-AreJobs, call-AreJobs, sign-AreJobs}

-- A step that is possible leads to a consistent state.
abbrev pub Keeps : Option Threads → Type 0
Keeps none = true ≡ true
Keeps (some u) = IsConsistent u

-- What a thread changes does not concern jobs that are not given.
with_jobs :
    (t : Threads) (pipeline : ℕ → Pipeline) (done : ℕ → Bool) (calls : List Call)
    → IsConsistent t
    → AreJobs (n_thread t) (given t.host (n_thread t)) (call t) pipeline done calls
    → ((j : ℕ) → given t.host (n_thread t) ≤ j → calls_of j calls ≡ calls_of j t.calls)
    → ((j : ℕ) → given t.host (n_thread t) ≤ j → done j ≡ t.done j)
    → ((j : ℕ) → t.done j ≡ true → done j ≡ true)
    → IsConsistent (record t { pipeline = pipeline; done = done; calls = calls })
with_jobs t pipeline done calls c jobs same_calls same_done grows = record {
  booted = c.booted;
  parts = c.parts;
  jobs = jobs;
  busy = c.busy;
  fresh = λ j b le. same_calls j le ∙ c.fresh j b le;
  own_call = λ b d. same_calls (n_thread t) c.in_range.0 ∙ c.own_call b d;
  own_flag = λ b d. grows (n_thread t) (c.own_flag b d);
  asked =
      λ b. let a = c.asked b in (a.0, same_done (given t.host (n_thread t)) (omega arith) ∙ a.1);
  takes_part = c.takes_part;
  only = λ j le. same_calls j (omega (arith, c.in_range.0, le)) ∙ c.only j le;
  in_range = c.in_range;
  waited = λ i lt. grows i (c.waited i lt);
  turn = c.turn;
}

update-true : (a : ℕ → Bool) (i j : ℕ) → a j ≡ true → update a i true j ≡ true
unfolding update
update-true a i j h = ground (arith, h)

sleeps : is_ok sleep waiting ≡ true
unfolding is_ok
sleeps = refl

wake_lem :
    (s : State)
    → is_ok s waiting ≡ true
    → (is_ok s waking ≡ true) × (has_job s waking ≡ has_job s waiting)
unfolding is_ok has_job
wake_lem sleep h = (refl, refl)
wake_lem execute h = absurd (ground (arith, h))
wake_lem terminate h = absurd (ground (arith, h))
wake_lem ack h = absurd (ground (arith, h))

execute_lem :
    (s : State)
    → is_ok s executing ≡ true
    → (is_ok s flagging ≡ true)
      × (has_job s flagging ≡ has_job s executing)
      × (has_job s executing ≡ true)
unfolding is_ok has_job
execute_lem sleep h = absurd (ground (arith, h))
execute_lem execute h = (refl, refl, refl)
execute_lem terminate h = absurd (ground (arith, h))
execute_lem ack h = absurd (ground (arith, h))

flag_lem :
    (s : State)
    → is_ok s flagging ≡ true
    → (is_ok s settling ≡ true) × (has_job s settling ≡ false) × (has_job s flagging ≡ true)
unfolding is_ok has_job
flag_lem sleep h = absurd (ground (arith, h))
flag_lem execute h = (refl, refl, refl)
flag_lem terminate h = absurd (ground (arith, h))
flag_lem ack h = absurd (ground (arith, h))

settle_lem : (s : State) → is_ok s settling ≡ true → has_job sleep waiting ≡ has_job s settling
unfolding is_ok has_job
settle_lem sleep h = refl
settle_lem execute h = refl
settle_lem terminate h = absurd (ground (arith, h))
settle_lem ack h = absurd (ground (arith, h))

module _ (t : Threads) (k : ℕ) (lt : k < n_thread t) (c : IsConsistent t) where
  abbrev p : Pipeline
  p = t.pipeline k

  -- The thread moves on.
  moves :
      (s : State) (m : Mgr)
      → is_ok s m ≡ true
      → has_job s m ≡ holds p
      → has_called m ≡ has_called p.mgr
      → IsConsistent (record t { pipeline = update t.pipeline k (record p { state = s; mgr = m }) })
  moves s m good same called =
      with_jobs t (update t.pipeline k (record p { state = s; mgr = m })) t.done t.calls c
        (move-AreJobs (n_thread t) (given t.host (n_thread t)) (call t) t.pipeline t.done t.calls
          c.jobs k lt s m good same (λ b. called))
        (λ j le. refl) (λ j le. refl) (λ j b. b)

  pipeline_mgr-waking :
      (s : State) → is_ok s waking ≡ true → p.state ≡ s → p.mgr ≡ waking → Keeps (pipeline_mgr k t)
  unfolding pipeline_mgr is_ok has_job has_called
  pipeline_mgr-waking sleep h e m =
      rw (Keeps, m, e)
        (moves p.state settling (rw (is_ok, e) refl) (rw (has_job, m, e) refl) (rw m refl))
  pipeline_mgr-waking execute h e m =
      rw (Keeps, m, e)
        (moves p.state executing (rw (is_ok, e) refl) (rw (has_job, m, e) refl) (rw m refl))
  pipeline_mgr-waking terminate h e m = absurd (ground (arith, h))
  pipeline_mgr-waking ack h e m = absurd (ground (arith, h))

  pipeline_mgr-at : (m : Mgr) → p.mgr ≡ m → Keeps (pipeline_mgr k t)
  unfolding pipeline_mgr has_called
  pipeline_mgr-at waiting m =
      let w = wake_lem p.state (rw m at (c.jobs.ok k lt)) in
      rw (Keeps, m) (moves p.state waking w.0 (rw m w.1) (rw m refl))
  pipeline_mgr-at waking m = pipeline_mgr-waking p.state (rw m at (c.jobs.ok k lt)) refl m
  pipeline_mgr-at executing m =
      let w = execute_lem p.state (rw m at (c.jobs.ok k lt)) in
      let held : holds p ≡ true = rw m w.2 in
      let task = c.jobs.task k lt held in
      rw (Keeps, m)
        (with_jobs t (update t.pipeline k (record p { mgr = flagging })) t.done
          (invoke (call_of p) t.calls) c
          (call-AreJobs (n_thread t) (given t.host (n_thread t)) (call t) t.pipeline t.done t.calls
            c.jobs k lt p.state flagging w.0 (rw m w.1) held (rw m refl) refl)
          (λ j le. calls_of-invoke_ne (call_of p) t.calls j (omega (arith, task.early, le)))
          (λ j le. refl) (λ j b. b))
  pipeline_mgr-at flagging m =
      let w = flag_lem p.state (rw m at (c.jobs.ok k lt)) in
      let held : holds p ≡ true = rw m w.2 in
      let task = c.jobs.task k lt held in
      rw (Keeps, m)
        (with_jobs t (update t.pipeline k (record p { mgr = settling })) (update t.done p.flag true)
          t.calls c
          (sign-AreJobs (n_thread t) (given t.host (n_thread t)) (call t) t.pipeline t.done t.calls
            c.jobs k lt p.state settling w.0 w.1 held (rw m refl))
          (λ j le. refl)
          (λ j le. update_ne t.done p.flag j true (omega (arith, task.early, task.flag, le)))
          (λ j b. update-true t.done p.flag j b))
  pipeline_mgr-at settling m =
      rw (Keeps, m)
        (moves sleep waiting sleeps (settle_lem p.state (rw m at (c.jobs.ok k lt)) ∙ rw m refl)
          (rw m refl))
  pipeline_mgr-at returned m = rw (Keeps, m) refl

  pub pipeline_mgr-Keeps : Keeps (pipeline_mgr k t)
  pipeline_mgr-Keeps = pipeline_mgr-at p.mgr refl
