-- ===== src/Threads/Stuck.antt =====
-- What holds of the dispatcher from its start when Dispatch_To_Host, an integer from the command
-- line, is neither 0 nor 1.
use mathlib.Core.Path.{subst}
use vpic.Prelude.{
  ℕ, ◌+◌, ◌-◌, ◌*◌, ◌≤◌, ◌<◌, ◌≡◌, ◌≢◌, refl, ◌∙◌, ap, Bool, true, false, Option, none, some, [],
  arith, Bool-cases, inl, inr, ◌==◌, update, update_ne, ltb, lt→ltb, ltb→lt,
}
use vpic.Threads.{
  Threads, Pipeline, Mgr, State, Host, n_thread, is_locked, signal, next_id, assign,
  parallel_execute, host_step, thread_dispatch, thread_wait, pipeline_mgr, sleep, execute,
  terminate, ack, waiting, waking, executing, flagging, settling, returned, idle, clearing,
  querying, calling, signing, dispatched, polling, Action, dispatch, wait, go, thread, step,
}
use vpic.Threads.Invariant.{given, is_querying, seen}
use vpic.Threads.Wait.{Reachable, here, further, polls_on}
pub mod HostSteps
pub mod Hangs

-- The last flag is never set, and the wait does not get past it.
pub record IsStuck (t : Threads) : Type 0 where
  pub parts : (2 ≤ t.dispatch_to_host) × (t.dispatch_to_host ≤ t.n_pipeline)
  pub unset : t.done (t.n_pipeline - 1) ≡ false
  pub flags : (k : ℕ) → (t.pipeline k).flag < t.n_pipeline - 1
  pub in_range : (given t.host (n_thread t) ≤ n_thread t) × (seen t.host < t.n_pipeline)
  pub asked : is_querying t.host ≡ true → given t.host (n_thread t) < n_thread t

abbrev pub Stays : Option Threads → Type 0
Stays none = true ≡ true
Stays (some u) = IsStuck u

module _ (t : Threads) (c : IsStuck t) where
  pub flags-update :
      (k : ℕ) (q : Pipeline)
      → q.flag < t.n_pipeline - 1
      → (i : ℕ) → (update t.pipeline k q i).flag < t.n_pipeline - 1
  unfolding update
  flags-update k q lt i = elim (Bool-cases (i == k)) [ inl e ↦ rw e lt | inr f ↦ rw f (c.flags i) ]

  pub pipelines :
      (k : ℕ) (q : Pipeline)
      → q.flag < t.n_pipeline - 1
      → IsStuck (record t { pipeline = update t.pipeline k q })
  pipelines k q lt = record {
    parts = c.parts;
    unset = c.unset;
    flags = flags-update k q lt;
    in_range = c.in_range;
    asked = c.asked;
  }

  pipeline_mgr-waking :
      (k : ℕ) (s : State)
      → (t.pipeline k).state ≡ s
      → (t.pipeline k).mgr ≡ waking
      → Stays (pipeline_mgr k t)
  unfolding pipeline_mgr
  pipeline_mgr-waking k sleep e m =
      rw (Stays, m, e) (pipelines k (record (t.pipeline k) { mgr = settling }) (c.flags k))
  pipeline_mgr-waking k execute e m =
      rw (Stays, m, e) (pipelines k (record (t.pipeline k) { mgr = executing }) (c.flags k))
  pipeline_mgr-waking k terminate e m =
      rw (Stays, m, e) (pipelines k (record (t.pipeline k) { mgr = returned }) (c.flags k))
  pipeline_mgr-waking k ack e m =
      rw (Stays, m, e) (pipelines k (record (t.pipeline k) { mgr = settling }) (c.flags k))

  pub pipeline_mgr-at : (k : ℕ) (m : Mgr) → (t.pipeline k).mgr ≡ m → Stays (pipeline_mgr k t)
  unfolding pipeline_mgr
  pipeline_mgr-at k waiting m =
      rw (Stays, m) (pipelines k (record (t.pipeline k) { mgr = waking }) (c.flags k))
  pipeline_mgr-at k waking m = pipeline_mgr-waking k (t.pipeline k).state refl m
  pipeline_mgr-at k executing m =
      rw (Stays, m)
        (record {
          parts = c.parts;
          unset = c.unset;
          flags = flags-update k (record (t.pipeline k) { mgr = flagging }) (c.flags k);
          in_range = c.in_range;
          asked = c.asked;
        })
  pipeline_mgr-at k flagging m =
      rw (Stays, m)
        (record {
          parts = c.parts;
          unset =
              update_ne t.done (t.pipeline k).flag (t.n_pipeline - 1) true
                (omega (arith, c.flags k))
              ∙ c.unset;
          flags = flags-update k (record (t.pipeline k) { mgr = settling }) (c.flags k);
          in_range = c.in_range;
          asked = c.asked;
        })
  pipeline_mgr-at k settling m =
      rw (Stays, m)
        (pipelines k (record (t.pipeline k) { state = sleep; mgr = waiting }) (c.flags k))
  pipeline_mgr-at k returned m = rw (Stays, m) refl

  -- The host moves to a place in range.
  pub host_at :
      (h : Host)
      → given h (n_thread t) ≤ n_thread t
      → seen h < t.n_pipeline
      → is_querying h ≡ false
      → IsStuck (record t { host = h })
  host_at h g s q = record {
    parts = c.parts;
    unset = c.unset;
    flags = c.flags;
    in_range = (g, s);
    asked = λ b. absurd (ground (arith, b, q));
  }

  pub flag_at :
      (i : ℕ) (b : Bool) (h : Host)
      → i < t.n_pipeline - 1
      → given h (n_thread t) ≤ n_thread t
      → seen h < t.n_pipeline
      → (is_querying h ≡ true → given h (n_thread t) < n_thread t)
      → IsStuck (record t { done = update t.done i b; host = h })
  flag_at i b h lt g s q = record {
    parts = c.parts;
    unset = update_ne t.done i (t.n_pipeline - 1) b (omega (arith, lt)) ∙ c.unset;
    flags = c.flags;
    in_range = (g, s);
    asked = q;
  }
