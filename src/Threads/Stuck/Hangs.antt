-- ===== src/Threads/Stuck/Hangs.antt =====
-- What `thread_wait` does when Dispatch_To_Host is neither 0 nor 1.
use mathlib.Core.Path.{subst}
use vpic.Prelude.{
  ℕ, ◌-◌, ◌≤◌, ◌≡◌, ◌≢◌, refl, ap, true, false, Option, none, some, [], arith, Bool-cases, inl, inr,
  ◌==◌, ltb, lt→ltb,
}
use vpic.Threads.{
  Threads, Host, n_thread, host_step, thread_dispatch, thread_wait, idle, clearing, querying,
  calling, signing, dispatched, polling, Action, dispatch, wait, go, thread, step,
}
use vpic.Threads.Invariant.{given, is_querying, seen}
use vpic.Threads.Wait.{Reachable, here, further, polls_on}
use vpic.Threads.Stuck.{IsStuck, Stays, pipeline_mgr-at}
use vpic.Threads.Stuck.HostSteps.{polls, host_step-at}

module _ (t : Threads) (c : IsStuck t) where
  -- A call of the host.
  begins :
      (func args size : ℕ)
      → IsStuck (record t {
        busy = true;
        func = func;
        args = args;
        size = size;
        calls = [];
        host = clearing 0;
      })
  unfolding given is_querying seen
  begins func args size = record {
    parts = c.parts;
    unset = c.unset;
    flags = c.flags;
    in_range = (omega arith, omega (arith, c.parts));
    asked = λ b. absurd (ground (arith, b));
  }

  waits : IsStuck (record t { busy = true; host = polling 0 })
  unfolding given is_querying seen
  waits = record {
    parts = c.parts;
    unset = c.unset;
    flags = c.flags;
    in_range = (omega arith, omega (arith, c.parts));
    asked = λ b. absurd (ground (arith, b));
  }

  dispatch-at :
      (func args size : ℕ) (h : Host) → t.host ≡ h → Stays (thread_dispatch func args size t)
  unfolding thread_dispatch
  dispatch-at func args size idle e = elim (Bool-cases (t.n_pipeline == 0)) [
    | inl z ↦ rw (Stays, e, z) refl
    | inr z ↦ elim (Bool-cases t.busy) [
      | inl b ↦ rw (Stays, e, z, b) refl
      | inr b ↦ rw (Stays, e, z, b) (begins func args size)
    ]
  ]
  dispatch-at func args size (clearing j) e = rw (Stays, e) refl
  dispatch-at func args size (querying j) e = rw (Stays, e) refl
  dispatch-at func args size calling e = rw (Stays, e) refl
  dispatch-at func args size signing e = rw (Stays, e) refl
  dispatch-at func args size dispatched e = rw (Stays, e) refl
  dispatch-at func args size (polling j) e = rw (Stays, e) refl

  wait-at : (h : Host) → t.host ≡ h → Stays (thread_wait t)
  unfolding thread_wait
  wait-at dispatched e = elim (Bool-cases (t.n_pipeline == 0)) [
    | inl z ↦ rw (Stays, e, z) refl
    | inr z ↦ elim (Bool-cases t.busy) [
      | inl b ↦ rw (Stays, e, z, b) waits
      | inr b ↦ rw (Stays, e, z, b) refl
    ]
  ]
  wait-at idle e = rw (Stays, e) refl
  wait-at (clearing j) e = rw (Stays, e) refl
  wait-at (querying j) e = rw (Stays, e) refl
  wait-at calling e = rw (Stays, e) refl
  wait-at signing e = rw (Stays, e) refl
  wait-at (polling j) e = rw (Stays, e) refl

  step-Stays : (a : Action) → Stays (step a t)
  unfolding step
  step-Stays (dispatch func args size) = dispatch-at func args size t.host refl
  step-Stays wait = wait-at t.host refl
  step-Stays go = host_step-at t c t.host refl
  step-Stays (thread k) = elim (Bool-cases (ltb k (n_thread t))) [
    | inl b ↦ rw (Stays, b) (pipeline_mgr-at t c k (t.pipeline k).mgr refl)
    | inr b ↦ rw (Stays, b) refl
  ]

Stays-some : (o : Option Threads) (u : Threads) → o ≡ some u → Stays o → IsStuck u
Stays-some none u e k = absurd (ground (arith, e))
Stays-some (some v) u e k =
    subst IsStuck
      (ap (λ (o : Option Threads). elim o as (λ x. Threads) [ none ↦ v | some x ↦ x ]) e) k

Reachable-IsStuck : (s t : Threads) → IsStuck s → Reachable s t → IsStuck t
Reachable-IsStuck s t c here = c
Reachable-IsStuck s u c (further {t = t} a r e) =
    Stays-some (step a t) u e (step-Stays t (Reachable-IsStuck s t c r) a)

-- After `thread_boot` with a Dispatch_To_Host from 2 to n_pipeline, the flags and the pipelines being
-- as the program starts with them, `thread_wait` never returns, whatever steps are taken: no round
-- of its loop is the last.
pub thread_wait-hangs :
    (s t u : Threads) (i : ℕ)
    → 2 ≤ s.dispatch_to_host
    → s.dispatch_to_host ≤ s.n_pipeline
    → s.host ≡ idle
    → ((k : ℕ) → s.done k ≡ false)
    → ((k : ℕ) → (s.pipeline k).flag ≡ 0)
    → Reachable s t
    → t.host ≡ polling i
    → host_step t ≡ some u
    → u.host ≢ idle
unfolding given is_querying seen
thread_wait-hangs s t u i two few outside unset flags r e steps =
    let c : IsStuck s = record {
      parts = (two, few);
      unset = unset (s.n_pipeline - 1);
      flags = λ k. omega (arith, flags k, two, few);
      in_range = rw outside (omega arith, omega (arith, two, few));
      asked = λ b. absurd (ground (arith, rw outside at b));
    } in
    let (lt, next) = polls t (Reachable-IsStuck s t c r) i e in
    polls_on t u i e (lt→ltb i t.n_pipeline lt) steps
