-- ===== src/Threads/Invariant.antt =====
-- What holds of the dispatcher whenever a step has ended: a job that is given to a thread is with
-- one thread until its flag is set, and it is called once before that.
pub mod Jobs
pub mod Assign
pub mod Manager
pub mod Dispatch
pub mod Returns
pub mod Steps
use vpic.Prelude.{
  ℕ, zero, suc, ◌+◌, ◌-◌, ◌≤◌, ◌<◌, ◌≡◌, ◌≢◌, refl, sym, ◌∙◌, ap, Bool, true, false, Option, none,
  some, List, [], ◌∷◌, arith, if◌then◌else◌, Bool-cases, inl, inr, ◌==◌, update, update_self,
  update_ne, ltb,
}
use vpic.Sort.Scatter.{with_key}
use vpic.Threads.{
  Threads, Pipeline, Call, Host, Mgr, State, invoke, call, n_thread, sleep, execute, terminate, ack,
  waiting, waking, executing, flagging, settling, returned, idle, clearing, querying, calling,
  signing, dispatched, polling,
}

abbrev job_of : Call → ℕ
job_of c = c.job

-- The calls that were made for a job, and those that are due.
abbrev pub calls_of : ℕ → List Call → List Call
calls_of j calls = with_key job_of j calls

abbrev pub due : Threads → ℕ → List Call
due t j = invoke (call t j) []

pub calls_of-invoke :
    (c : Call) (calls : List Call)
    → calls_of c.job calls ≡ []
    → calls_of c.job (invoke c calls) ≡ invoke c []
unfolding invoke with_key
calls_of-invoke c calls h = elim (Bool-cases (c.func == 0)) [
  | inl t ↦ rw t h
  | inr f ↦ let same : (c.job == c.job) ≡ true = ground arith in rw (f, same) (ap (λ l. c ∷ l) h)
]

pub calls_of-invoke_ne :
    (c : Call) (calls : List Call) (j : ℕ)
    → c.job ≢ j
    → calls_of j (invoke c calls) ≡ calls_of j calls
unfolding invoke with_key
calls_of-invoke_ne c calls j ne = elim (Bool-cases (c.func == 0)) [
  | inl t ↦ rw t refl
  | inr f ↦ let other : (c.job == j) ≡ false = ground arith in rw (f, other) refl
]

-- The states that a pipeline comes to.
unfoldable pub is_ok : State → Mgr → Bool
is_ok sleep waiting = true
is_ok sleep waking = true
is_ok sleep executing = false
is_ok sleep flagging = false
is_ok sleep settling = true
is_ok sleep returned = false
is_ok execute waiting = false
is_ok execute waking = true
is_ok execute executing = true
is_ok execute flagging = true
is_ok execute settling = true
is_ok execute returned = false
is_ok terminate m = false
is_ok ack m = false

-- A thread has a job of which the flag is not set.
unfoldable pub has_job : State → Mgr → Bool
has_job sleep m = false
has_job execute waiting = true
has_job execute waking = true
has_job execute executing = true
has_job execute flagging = true
has_job execute settling = false
has_job execute returned = false
has_job terminate m = false
has_job ack m = false

-- It has called the job's function.
unfoldable pub has_called : Mgr → Bool
has_called waiting = false
has_called waking = false
has_called executing = false
has_called flagging = true
has_called settling = false
has_called returned = false

-- How many jobs the host has given to threads.
unfoldable pub given : Host → ℕ → ℕ
given idle n = 0
given (clearing j) n = j
given (querying j) n = j
given calling n = n
given signing n = n
given dispatched n = n
given (polling j) n = n

-- The host is in `thread_dispatch` and has not called the function itself.
unfoldable pub before_call : Host → Bool
before_call idle = false
before_call (clearing j) = true
before_call (querying j) = true
before_call calling = true
before_call signing = false
before_call dispatched = false
before_call (polling j) = false

-- It has set its own flag, if it takes part.
unfoldable pub after_sign : Host → Bool
after_sign idle = false
after_sign (clearing j) = false
after_sign (querying j) = false
after_sign calling = false
after_sign signing = false
after_sign dispatched = true
after_sign (polling j) = true

unfoldable pub after_call : Host → Bool
after_call idle = false
after_call (clearing j) = false
after_call (querying j) = false
after_call calling = false
after_call signing = true
after_call dispatched = true
after_call (polling j) = true

unfoldable pub is_querying : Host → Bool
is_querying idle = false
is_querying (clearing j) = false
is_querying (querying j) = true
is_querying calling = false
is_querying signing = false
is_querying dispatched = false
is_querying (polling j) = false

unfoldable pub is_calling : Host → Bool
is_calling idle = false
is_calling (clearing j) = false
is_calling (querying j) = false
is_calling calling = true
is_calling signing = false
is_calling dispatched = false
is_calling (polling j) = false

-- The flags that `thread_wait` has seen.
unfoldable pub seen : Host → ℕ
seen idle = 0
seen (clearing j) = 0
seen (querying j) = 0
seen calling = 0
seen signing = 0
seen dispatched = 0
seen (polling j) = j

unfoldable pub is_busy : Host → Bool
is_busy idle = false
is_busy (clearing j) = true
is_busy (querying j) = true
is_busy calling = true
is_busy signing = true
is_busy dispatched = true
is_busy (polling j) = true

-- The call that a pipeline is to make.
abbrev pub call_of : Pipeline → Call
call_of p = record { func = p.func; args = p.args; job = p.job; n_job = p.n_job }

abbrev pub holds : Pipeline → Bool
holds p = has_job p.state p.mgr

-- Of the jobs below `g`, given to `n` threads: `expected` are the calls that are to be made.
module _ (n g : ℕ) (expected : ℕ → Call) where
  pub record IsTask (done : ℕ → Bool) (calls : List Call) (p : Pipeline) : Type 0 where
    pub early : p.job < g
    pub flag : p.flag ≡ p.job
    pub called : call_of p ≡ expected p.job
    pub unsigned : done p.job ≡ false
    pub made : calls_of p.job calls ≡ (if has_called p.mgr then invoke (expected p.job) [] else [])

  pub record AreJobs (pipeline : ℕ → Pipeline) (done : ℕ → Bool) (calls : List Call) : Type 0 where
    pub ok : (k : ℕ) → k < n → is_ok (pipeline k).state (pipeline k).mgr ≡ true
    pub task : (k : ℕ) → k < n → holds (pipeline k) ≡ true → IsTask done calls (pipeline k)
    pub apart :
        (k i : ℕ)
        → k < n
        → i < n
        → holds (pipeline k) ≡ true
        → holds (pipeline i) ≡ true
        → (pipeline k).job ≡ (pipeline i).job
        → k ≡ i
    pub holder :
        (j : ℕ)
        → j < g
        → done j ≡ false
        → (k : ℕ) × (k < n) × (holds (pipeline k) ≡ true) × ((pipeline k).job ≡ j)
    pub finished : (j : ℕ) → j < g → done j ≡ true → calls_of j calls ≡ invoke (expected j) []

pub record IsConsistent (t : Threads) : Type 0 where
  pub booted : 0 < t.n_pipeline
  pub parts : (t.dispatch_to_host ≤ 1) × (t.dispatch_to_host ≤ t.n_pipeline)
  pub jobs : AreJobs (n_thread t) (given t.host (n_thread t)) (call t) t.pipeline t.done t.calls
  pub busy : t.busy ≡ is_busy t.host
  pub fresh :
      (j : ℕ) → before_call t.host ≡ true → given t.host (n_thread t) ≤ j → calls_of j t.calls ≡ []
  pub own_call :
      after_call t.host ≡ true
      → t.dispatch_to_host ≢ 0
      → calls_of (n_thread t) t.calls ≡ due t (n_thread t)
  pub own_flag : after_sign t.host ≡ true → t.dispatch_to_host ≢ 0 → t.done (n_thread t) ≡ true
  pub asked :
      is_querying t.host ≡ true
      → (given t.host (n_thread t) < n_thread t) × (t.done (given t.host (n_thread t)) ≡ false)
  pub takes_part : is_calling t.host ≡ true → 0 < t.dispatch_to_host
  pub only : (j : ℕ) → t.n_pipeline ≤ j → calls_of j t.calls ≡ []
  pub in_range : (given t.host (n_thread t) ≤ n_thread t) × (seen t.host ≤ t.n_pipeline)
  pub waited : (i : ℕ) → i < seen t.host → t.done i ≡ true
  pub turn : 0 < n_thread t → t.id < n_thread t
