-- ===== src/Threads/Wait.antt =====
-- What a caller of the dispatcher relies on: that the calls are made once `thread_wait` returns, and
-- that it can return.
use native.Mathlib.Decide.{dec_lt}
use vpic.Prelude.{
  if◌then◌else◌, ltb→lt, ℕ, zero, suc, ◌+◌, ◌≤◌, ◌<◌, ◌≡◌, ◌≢◌, ◌⊎◌, refl, sym, ◌∙◌, ap, true,
  false, Option, none, some, List, [], ◌∷◌, arith, Bool-cases, inl, inr, ltb,
}
use vpic.Sort.Scatter.{with_key}
use vpic.Threads.{
  Threads, Host, State, Mgr, invoke, call, n_thread, host_step, sleep, waiting, idle, clearing,
  querying, calling, signing, dispatched, polling, Action, step, run,
}
use vpic.Threads.Invariant.{
  calls_of, due, is_ok, has_job, AreJobs, IsConsistent, given, seen, after_call, after_sign,
  is_busy, before_call, is_querying, is_calling,
}
use vpic.Threads.Invariant.Steps.{step-IsConsistent}
use vpic.Threads.Rank.{rank}
use vpic.Threads.Rank.Progress.{progress}

-- After `thread_boot`, all threads sleep.
pub record IsBooted (t : Threads) : Type 0 where
  pub booted : 0 < t.n_pipeline
  pub parts : (t.dispatch_to_host ≤ 1) × (t.dispatch_to_host ≤ t.n_pipeline)
  pub outside : t.host ≡ idle
  pub free : t.busy ≡ false
  pub first : t.id ≡ 0
  pub uncalled : t.calls ≡ []
  pub asleep : (k : ℕ) → ((t.pipeline k).state ≡ sleep) × ((t.pipeline k).mgr ≡ waiting)

-- The states that the dispatcher comes to, whoever takes the steps.
pub data Reachable (s : Threads) : Threads → Type 0 where
  here : Reachable s s
  further : {t u : Threads} (a : Action) → Reachable s t → step a t ≡ some u → Reachable s u

asleep_lem :
    (s : State) (m : Mgr) → s ≡ sleep → m ≡ waiting → (is_ok s m ≡ true) × (has_job s m ≡ false)
unfolding is_ok has_job
asleep_lem s m e f = rw (e, f) (refl, refl)

IsBooted-IsConsistent : (t : Threads) → IsBooted t → IsConsistent t
unfolding given before_call after_call after_sign is_querying is_calling seen is_busy with_key
IsBooted-IsConsistent t b =
    let lem =
      λ (k : ℕ). asleep_lem (t.pipeline k).state (t.pipeline k).mgr (b.asleep k).0 (b.asleep k).1 in
    let jobs : AreJobs (n_thread t) 0 (call t) t.pipeline t.done t.calls = record {
      ok = λ k lt. (lem k).0;
      task = λ k lt h. absurd (ground (arith, h, (lem k).1));
      apart = λ k i lt li h. absurd (ground (arith, h, (lem k).1));
      holder = λ j lt. absurd (omega (arith, lt));
      finished = λ j lt. absurd (omega (arith, lt));
    } in
    record {
      booted = b.booted;
      parts = b.parts;
      jobs = rw b.outside jobs;
      busy = rw b.outside b.free;
      fresh = λ j h. absurd (ground (arith, rw b.outside at h));
      own_call = λ h. absurd (ground (arith, rw b.outside at h));
      own_flag = λ h. absurd (ground (arith, rw b.outside at h));
      asked = λ h. absurd (ground (arith, rw b.outside at h));
      takes_part = λ h. absurd (ground (arith, rw b.outside at h));
      only = λ j le. ap (calls_of j) b.uncalled;
      in_range = rw b.outside (omega arith, omega arith);
      waited = λ i lt. absurd (omega (arith, rw b.outside at lt));
      turn = λ lt. omega (arith, b.first, lt);
    }

-- After `thread_boot` with a Dispatch_To_Host of 0 or 1, not above n_pipeline, and in whatever
-- order the host and the threads take their steps, wake-ups without a signal included, the state
-- of the dispatcher is consistent: a job that was given to a thread and has no flag yet is the
-- task of one thread and no other, and its function has been called once or not yet; that of a job
-- with its flag has been called once, with its own arguments, unless it is NULL; no other job has
-- been called; and every flag that `thread_wait` has passed is set.
pub Reachable-IsConsistent : (s t : Threads) → IsBooted s → Reachable s t → IsConsistent t
Reachable-IsConsistent s t b here = IsBooted-IsConsistent s b
Reachable-IsConsistent s u b (further {t = t} a r e) =
    step-IsConsistent a t u (Reachable-IsConsistent s t b r) e

abbrev unwrap : Threads → Option Threads → Threads
unwrap t none = t
unwrap t (some u) = u

-- The host has seen all flags.
calls_settled :
    (t : Threads) (i j : ℕ)
    → IsConsistent t
    → t.host ≡ polling i
    → t.n_pipeline ≤ i
    → j < t.n_pipeline
    → calls_of j t.calls ≡ due t j
unfolding given seen after_call
calls_settled t i j c e le lt = elim (dec_lt j (n_thread t)) [
  | yes h ↦ (rw e at c.jobs).finished j h ((rw e at c.waited) j (omega (arith, lt, le)))
  | no h ↦
      let own : t.dispatch_to_host ≢ 0 = λ z. omega (arith, z, h, lt) in
      let j_own : n_thread t ≡ j = omega (arith, c.parts, h, lt) in
      ap (λ x. calls_of x t.calls) (sym j_own) ∙ (rw e at c.own_call) refl own ∙ ap (due t) j_own
]

-- Where a round of the loop of `thread_wait` leads.
pub polls_on :
    (t u : Threads) (i : ℕ)
    → t.host ≡ polling i
    → ltb i t.n_pipeline ≡ true
    → host_step t ≡ some u
    → u.host ≢ idle
unfolding host_step is_busy
polls_on t u i e b steps ends = elim (Bool-cases (t.done i)) [
  | inl d ↦
      let next : host_step t ≡ some (record t { host = polling (i + 1) }) =
        rw (host_step, e, b, d) refl in
      let same : u ≡ record t { host = polling (i + 1) } = ap (unwrap t) (sym steps ∙ next) in
      let busy : true ≡ false = ap (λ x. is_busy x.host) (sym same) ∙ ap is_busy ends in
      absurd (ground (arith, busy))
  | inr d ↦
      let next : host_step t ≡ some (record t { host = polling i }) =
        rw (host_step, e, b, d) (ap (λ h. some (record t { host = h })) e) in
      let same : u ≡ record t { host = polling i } = ap (unwrap t) (sym steps ∙ next) in
      let busy : true ≡ false = ap (λ x. is_busy x.host) (sym same) ∙ ap is_busy ends in
      absurd (ground (arith, busy))
]

-- After `thread_boot` with a Dispatch_To_Host of 0 or 1, not above n_pipeline, and any steps: when
-- `thread_wait` returns from the dispatch of a function, each of the jobs 0 to n_pipeline-1, that
-- of the host among them if it takes part, has been called exactly once, with its own arguments,
-- its index and the number of jobs, and no other job has been called. After the dispatch of NULL,
-- no job has.
pub thread_wait-calls :
    (s t u : Threads) (i j : ℕ)
    → IsBooted s
    → Reachable s t
    → t.host ≡ polling i
    → host_step t ≡ some u
    → u.host ≡ idle
    → calls_of j u.calls ≡ (if ltb j u.n_pipeline then invoke (call u j) [] else [])
unfolding host_step
thread_wait-calls s t u i j b r e steps ends = elim (Bool-cases (ltb i t.n_pipeline)) [
  | inl more ↦ absurd (polls_on t u i e more steps ends)
  | inr over ↦
      let next : host_step t ≡ some (record t { busy = false; host = idle }) =
        rw (host_step, e, over) refl in
      let same : u ≡ record t { busy = false; host = idle } = ap (unwrap t) (sym steps ∙ next) in
      let c = Reachable-IsConsistent s t b r in
      rw same (elim (Bool-cases (ltb j t.n_pipeline)) [
        | inl lt ↦ rw lt (calls_settled t i j c e (ground (arith, over)) (ltb→lt j t.n_pipeline lt))
        | inr ge ↦ rw ge (c.only j (ground (arith, ge)))
      ])
]

host_cases : (h : Host) → (h ≡ idle) ⊎ (h ≢ idle)
unfolding is_busy
host_cases idle = inl refl
host_cases (clearing j) = inr (λ e. ground (arith, ap is_busy e))
host_cases (querying j) = inr (λ e. ground (arith, ap is_busy e))
host_cases calling = inr (λ e. ground (arith, ap is_busy e))
host_cases signing = inr (λ e. ground (arith, ap is_busy e))
host_cases dispatched = inr (λ e. ground (arith, ap is_busy e))
host_cases (polling j) = inr (λ e. ground (arith, ap is_busy e))

returns_below :
    (bound : ℕ) (t : Threads)
    → IsConsistent t
    → rank t ≤ bound
    → (schedule : List Action) × (u : Threads) × (run schedule t ≡ some u) × (u.host ≡ idle)
unfolding run
returns_below zero t c le = elim (host_cases t.host) [
  | inl e ↦ ([], t, refl, e)
  | inr ne ↦ let (a, u, e, less, real) = progress t c ne in absurd (omega (arith, less, le))
]
returns_below (suc bound) t c le = elim (host_cases t.host) [
  | inl e ↦ ([], t, refl, e)
  | inr ne ↦
      let (a, v, e, less, real) = progress t c ne in
      let (schedule, u, runs, ends) =
        returns_below bound v (step-IsConsistent a t v c e) (omega (arith, less, le)) in
      (a ∷ schedule, u, rw (run, real, e) runs, ends)
]

-- From every state that the dispatcher comes to after `thread_boot` with a Dispatch_To_Host of 0
-- or 1, not above n_pipeline, there are steps, of which none is a thread's wake-up without a signal,
-- after which the dispatch has been waited for and the host is outside: no dispatch deadlocks, even
-- where threads wake up by signals only.
pub thread_wait-returns :
    (s t : Threads)
    → IsBooted s
    → Reachable s t
    → (schedule : List Action) × (u : Threads) × (run schedule t ≡ some u) × (u.host ≡ idle)
thread_wait-returns s t b r =
    returns_below (rank t) t (Reachable-IsConsistent s t b r) (omega arith)
