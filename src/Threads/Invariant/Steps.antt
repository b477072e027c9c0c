-- ===== src/Threads/Invariant/Steps.antt =====
-- Every step keeps the invariant.
use mathlib.Core.Path.{subst}
use vpic.Prelude.{
  ℕ, ◌≡◌, refl, ap, false, Option, none, some, arith, Bool-cases, inl, inr, ◌==◌, ltb, ltb→lt,
}
use vpic.Threads.{
  Threads, State, Host, n_thread, is_locked, parallel_execute, host_step, thread_dispatch,
  thread_wait, sleep, execute, terminate, ack, idle, clearing, querying, calling, signing,
  dispatched, polling, Action, dispatch, wait, go, thread, step,
}
use vpic.Threads.Invariant.{IsConsistent}
use vpic.Threads.Invariant.Manager.{Keeps, pipeline_mgr-Keeps}
use vpic.Threads.Invariant.Dispatch.{
  pass-IsConsistent, assign-IsConsistent, calling-IsConsistent, signing-IsConsistent,
  clearing-IsConsistent, clearing_end, host_call-IsConsistent, all_threads-IsConsistent,
}
use vpic.Threads.Invariant.Returns.{
  poll-IsConsistent, wait-IsConsistent, return-IsConsistent, begin-IsConsistent,
}

module _ (t : Threads) (c : IsConsistent t) where
  querying-Keeps :
      (j : ℕ) (s : State)
      → t.host ≡ querying j
      → (t.pipeline t.id).state ≡ s
      → Keeps (parallel_execute t j)
  unfolding parallel_execute
  querying-Keeps j s e is = elim (Bool-cases (n_thread t == 0)) [
    | inl z ↦ rw (Keeps, z) refl
    | inr z ↦ elim (Bool-cases (is_locked (t.pipeline t.id).mgr)) [
      | inl b ↦ rw (Keeps, z, b) (pass-IsConsistent t c j e)
      | inr b ↦ free s is z b
    ]
  ]
    where
      free :
          (s : State)
          → (t.pipeline t.id).state ≡ s
          → (n_thread t == 0) ≡ false
          → is_locked (t.pipeline t.id).mgr ≡ false
          → Keeps (parallel_execute t j)
      free sleep is z b = rw (Keeps, z, b, is) (assign-IsConsistent t c j e is b)
      free execute is z b = rw (Keeps, z, b, is) (pass-IsConsistent t c j e)
      free terminate is z b = rw (Keeps, z, b, is) refl
      free ack is z b = rw (Keeps, z, b, is) (pass-IsConsistent t c j e)

  host_step-at : (h : Host) → t.host ≡ h → Keeps (host_step t)
  unfolding host_step
  host_step-at idle e = rw (Keeps, e) refl
  host_step-at (clearing j) e = elim (Bool-cases (ltb j (n_thread t))) [
    | inl b ↦ rw (Keeps, e, b) (clearing-IsConsistent t c j e (ltb→lt j (n_thread t) b))
    | inr b ↦ elim (Bool-cases (t.dispatch_to_host == 0)) [
      | inl z ↦
          rw (Keeps, e, b, z)
            (all_threads-IsConsistent t c j e (clearing_end t c j e b) (ground (arith, z)))
      | inr z ↦
          rw (Keeps, e, b, z)
            (host_call-IsConsistent t c j e (clearing_end t c j e b) (ground (arith, z)))
    ]
  ]
  host_step-at (querying j) e = rw (Keeps, e) (querying-Keeps j (t.pipeline t.id).state e refl)
  host_step-at calling e = rw (Keeps, e) (calling-IsConsistent t c e)
  host_step-at signing e = rw (Keeps, e) (signing-IsConsistent t c e)
  host_step-at dispatched e = rw (Keeps, e) refl
  host_step-at (polling j) e = elim (Bool-cases (ltb j t.n_pipeline)) [
    | inl b ↦ elim (Bool-cases (t.done j)) [
      | inl d ↦ rw (Keeps, e, b, d) (poll-IsConsistent t c j e (ltb→lt j t.n_pipeline b) d)
      | inr d ↦ rw (Keeps, e, b, d) c
    ]
    | inr b ↦ rw (Keeps, e, b) (return-IsConsistent t c j e (ground (arith, b)))
  ]

  dispatch-at :
      (func args size : ℕ) (h : Host) → t.host ≡ h → Keeps (thread_dispatch func args size t)
  unfolding thread_dispatch
  dispatch-at func args size idle e = elim (Bool-cases (t.n_pipeline == 0)) [
    | inl z ↦ rw (Keeps, e, z) refl
    | inr z ↦ elim (Bool-cases t.busy) [
      | inl b ↦ rw (Keeps, e, z, b) refl
      | inr b ↦ rw (Keeps, e, z, b) (begin-IsConsistent t c func args size e)
    ]
  ]
  dispatch-at func args size (clearing j) e = rw (Keeps, e) refl
  dispatch-at func args size (querying j) e = rw (Keeps, e) refl
  dispatch-at func args size calling e = rw (Keeps, e) refl
  dispatch-at func args size signing e = rw (Keeps, e) refl
  dispatch-at func args size dispatched e = rw (Keeps, e) refl
  dispatch-at func args size (polling j) e = rw (Keeps, e) refl

  wait-at : (h : Host) → t.host ≡ h → Keeps (thread_wait t)
  unfolding thread_wait
  wait-at dispatched e = elim (Bool-cases (t.n_pipeline == 0)) [
    | inl z ↦ rw (Keeps, e, z) refl
    | inr z ↦ elim (Bool-cases t.busy) [
      | inl b ↦ rw (Keeps, e, z, b) (wait-IsConsistent t c e)
      | inr b ↦ rw (Keeps, e, z, b) refl
    ]
  ]
  wait-at idle e = rw (Keeps, e) refl
  wait-at (clearing j) e = rw (Keeps, e) refl
  wait-at (querying j) e = rw (Keeps, e) refl
  wait-at calling e = rw (Keeps, e) refl
  wait-at signing e = rw (Keeps, e) refl
  wait-at (polling j) e = rw (Keeps, e) refl

  step-Keeps : (a : Action) → Keeps (step a t)
  unfolding step
  step-Keeps (dispatch func args size) = dispatch-at func args size t.host refl
  step-Keeps wait = wait-at t.host refl
  step-Keeps go = host_step-at t.host refl
  step-Keeps (thread k) = elim (Bool-cases (ltb k (n_thread t))) [
    | inl b ↦ rw (Keeps, b) (pipeline_mgr-Keeps t k (ltb→lt k (n_thread t) b) c)
    | inr b ↦ rw (Keeps, b) refl
  ]

Keeps-some : (o : Option Threads) (u : Threads) → o ≡ some u → Keeps o → IsConsistent u
Keeps-some none u e k = absurd (ground (arith, e))
Keeps-some (some v) u e k =
    subst IsConsistent
      (ap (λ (o : Option Threads). elim o as (λ x. Threads) [ none ↦ v | some x ↦ x ]) e) k

-- Any step from a consistent state of the dispatcher leads to a consistent state: each job that was
-- given to a thread and of which the flag is not set is the task of exactly one thread, each of
-- which the flag is set was called once, and `thread_wait` has seen no flag that is not set.
pub step-IsConsistent :
    (a : Action) (t u : Threads) → IsConsistent t → step a t ≡ some u → IsConsistent u
step-IsConsistent a t u c e = Keeps-some (step a t) u e (step-Keeps t c a)
