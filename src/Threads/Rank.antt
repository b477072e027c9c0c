-- ===== src/Threads/Rank.antt =====
-- A number that some step lowers as long as a dispatch is under way.
pub mod Awake
pub mod Progress
use native.Mathlib.Decide.{dec_lt}
use vpic.Prelude.{
  ℕ, zero, suc, ◌+◌, ◌-◌, ◌*◌, ◌≤◌, ◌<◌, ◌≡◌, ◌≢◌, refl, sym, ◌∙◌, ap, true, false, some, arith,
  Bool-cases, inl, inr, ◌==◌, update, update_self, update_ne, ltb, lt→ltb, ltb→lt,
}
use vpic.Threads.{
  is_spurious, is_waiting, Threads, Pipeline, Mgr, State, Host, invoke, call, n_thread, is_locked,
  signal, next_id, assign, parallel_execute, host_step, thread_wait, pipeline_mgr, sleep, execute,
  terminate, ack, waiting, waking, executing, flagging, settling, returned, idle, clearing,
  querying, calling, signing, dispatched, polling, Action, wait, go, thread, step,
}
use vpic.Threads.Invariant.{
  is_ok, has_job, IsConsistent, given, after_sign, is_querying, seen, is_busy,
}

-- The steps that a thread has left until it sleeps.
unfoldable pub weight : Mgr → ℕ
weight waiting = 0
weight waking = 4
weight executing = 3
weight flagging = 2
weight settling = 1
weight returned = 0

unfoldable pub weights : (ℕ → Pipeline) → ℕ → ℕ
weights pipeline zero = 0
weights pipeline (suc n) = weights pipeline n + weight (pipeline n).mgr

-- Those of the host, where a job given to a thread counts for more than the steps of the thread.
unfoldable pub host_rank : (n_pipeline n : ℕ) → Host → ℕ
host_rank n_pipeline n idle = 0
host_rank n_pipeline n (clearing j) = n_pipeline + 6 + 7 * (n - j)
host_rank n_pipeline n (querying j) = n_pipeline + 5 + 7 * (n - j)
host_rank n_pipeline n calling = n_pipeline + 5
host_rank n_pipeline n signing = n_pipeline + 4
host_rank n_pipeline n dispatched = n_pipeline + 3
host_rank n_pipeline n (polling j) = n_pipeline + 2 - j

abbrev pub rank : Threads → ℕ
rank t = host_rank t.n_pipeline (n_thread t) t.host + weights t.pipeline (n_thread t)

weights_zero : (pipeline : ℕ → Pipeline) → weights pipeline 0 ≡ 0
unfolding weights
weights_zero pipeline = refl

weights-suc :
    (pipeline : ℕ → Pipeline) (n : ℕ)
    → weights pipeline (suc n) ≡ weights pipeline n + weight (pipeline n).mgr
unfolding weights
weights-suc pipeline n = refl

weights_skips :
    (pipeline : ℕ → Pipeline) (n k : ℕ) (q : Pipeline)
    → n ≤ k
    → weights (update pipeline k q) n ≡ weights pipeline n
weights_skips pipeline zero k q le =
    weights_zero (update pipeline k q) ∙ sym (weights_zero pipeline)
weights_skips pipeline (suc n) k q le = omega (
  arith,
  weights-suc (update pipeline k q) n,
  weights-suc pipeline n,
  weights_skips pipeline n k q (omega arith),
  ap (λ x. weight x.mgr) (update_ne pipeline k n q (omega arith)),
)

pub weights-update :
    (pipeline : ℕ → Pipeline) (n k : ℕ) (q : Pipeline)
    → k < n
    → weights (update pipeline k q) n + weight (pipeline k).mgr ≡ weights pipeline n + weight q.mgr
weights-update pipeline zero k q lt = absurd (omega arith)
weights-update pipeline (suc n) k q lt = elim (Bool-cases (n == k)) [
  | inl t ↦
      let e : n ≡ k = ground (arith, t) in
      omega (
        arith,
        weights-suc (update pipeline k q) n,
        weights-suc pipeline n,
        weights_skips pipeline n k q (omega arith),
        ap (λ i. weight (update pipeline k q i).mgr) e,
        ap (λ x. weight x.mgr) (update_self pipeline k q),
        ap (λ i. weight (pipeline i).mgr) e,
      )
  | inr f ↦ omega (
    arith,
    weights-suc (update pipeline k q) n,
    weights-suc pipeline n,
    weights-update pipeline n k q (ground (arith, f, lt)),
    ap (λ x. weight x.mgr) (update_ne pipeline k n q (ground (arith, f))),
  )
]

-- A step that lowers the rank.
pub record Lowered (t : Threads) : Type 0 where
  pub action : Action
  pub after : Threads
  pub steps : step action t ≡ some after
  pub lower : rank after < rank t
  pub signalled : is_spurious action t ≡ false

-- A thread that is awake has been signalled.
pub weight-is_waiting : (m : Mgr) → 0 < weight m → is_waiting m ≡ false
unfolding weight is_waiting
weight-is_waiting waiting h = absurd (omega (arith, h))
weight-is_waiting waking h = refl
weight-is_waiting executing h = refl
weight-is_waiting flagging h = refl
weight-is_waiting settling h = refl
weight-is_waiting returned h = refl

-- A thread that has a job, or the mutex, is awake.
pub holds-weight : (s : State) (m : Mgr) → is_ok s m ≡ true → has_job s m ≡ true → 0 < weight m
unfolding is_ok has_job weight
holds-weight sleep m h b = absurd (ground (arith, b))
holds-weight execute waiting h b = absurd (ground (arith, h))
holds-weight execute waking h b = omega arith
holds-weight execute executing h b = omega arith
holds-weight execute flagging h b = omega arith
holds-weight execute settling h b = omega arith
holds-weight execute returned h b = absurd (ground (arith, h))
holds-weight terminate m h b = absurd (ground (arith, b))
holds-weight ack m h b = absurd (ground (arith, b))

pub is_locked-weight : (m : Mgr) → is_locked m ≡ true → 0 < weight m
unfolding is_locked weight
is_locked-weight waiting h = absurd (ground (arith, h))
is_locked-weight waking h = absurd (ground (arith, h))
is_locked-weight executing h = omega arith
is_locked-weight flagging h = omega arith
is_locked-weight settling h = omega arith
is_locked-weight returned h = absurd (ground (arith, h))

-- Free, with a job assigned: it was signalled already.
pub execute-weight : (m : Mgr) → is_ok execute m ≡ true → 0 < weight m
unfolding is_ok weight
execute-weight waiting h = absurd (ground (arith, h))
execute-weight waking h = omega arith
execute-weight executing h = omega arith
execute-weight flagging h = omega arith
execute-weight settling h = omega arith
execute-weight returned h = absurd (ground (arith, h))

pub signal-weight : (m : Mgr) → weight (signal m) ≤ weight m + 4
unfolding signal weight
signal-weight waiting = omega arith
signal-weight waking = omega arith
signal-weight executing = omega arith
signal-weight flagging = omega arith
signal-weight settling = omega arith
signal-weight returned = omega arith
