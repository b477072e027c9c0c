-- ===== src/Threads.antt =====
-- The thread dispatcher, src/util/pipelines/pipelines_thread.cc: `thread_dispatch`,
-- `parallel_execute`, `thread_wait` and `pipeline_mgr`, as steps of the host and of the pipeline
-- threads. A step of the host that holds a pipeline's mutex is one step from the lock to the unlock,
-- as the fields that it uses are touched by nobody else without the mutex.
mod Tests
pub mod Invariant
pub mod Rank
pub mod Wait
pub mod Order
pub mod Serial
pub mod Stuck
use vpic.Prelude.{
  ℕ, ◌+◌, ◌-◌, ◌*◌, Bool, true, false, not, Option, none, some, List, [], ◌∷◌, update, ltb, ◌==◌,
  if◌then◌else◌,
}

-- PIPELINE_SLEEP and so on.
pub data State : Type 0 where
  sleep : State
  execute : State
  terminate : State
  ack : State

-- Where `pipeline_mgr` is: in `pthread_cond_wait` without the mutex, woken and waiting for the mutex,
-- or, with the mutex, before the call of `func`, before the flag, and before it sleeps again; or
-- returned.
pub data Mgr : Type 0 where
  waiting : Mgr
  waking : Mgr
  executing : Mgr
  flagging : Mgr
  settling : Mgr
  returned : Mgr

-- `pipeline_state_t`, with the place of its thread. `flag` is the index of an entry of `Done`.
pub record Pipeline : Type 0 where
  pub state : State
  pub func : ℕ
  pub args : ℕ
  pub job : ℕ
  pub n_job : ℕ
  pub flag : ℕ
  pub mgr : Mgr

-- Where the host is: outside, in the loop of `thread_dispatch` before `Done[id] = 0`, in
-- `parallel_execute`, before the host's own call and before its flag, between the dispatch and the
-- wait, and in the loop of `thread_wait`.
pub data Host : Type 0 where
  idle : Host
  clearing : ℕ → Host
  querying : ℕ → Host
  calling : Host
  signing : Host
  dispatched : Host
  polling : ℕ → Host

-- A call `func( args, job, n_job )`.
pub record Call : Type 0 where
  pub func : ℕ
  pub args : ℕ
  pub job : ℕ
  pub n_job : ℕ

-- The static variables, the arguments of the dispatch under way, and the calls made for it.
pub record Threads : Type 0 where
  pub n_pipeline : ℕ
  pub dispatch_to_host : ℕ
  pub id : ℕ
  pub busy : Bool
  pub done : ℕ → Bool
  pub pipeline : ℕ → Pipeline
  pub host : Host
  pub func : ℕ
  pub args : ℕ
  pub size : ℕ
  pub calls : List Call

-- `thread.n_pipeline-Dispatch_To_Host`
abbrev pub n_thread : Threads → ℕ
n_thread t = t.n_pipeline - t.dispatch_to_host

-- `if( func ) func( args, job, n_job );`, NULL being 0.
unfoldable pub invoke : Call → List Call → List Call
invoke c calls = if c.func == 0 then calls else c ∷ calls

-- The call of a job: `func( ((char *)args) + id*sz*str, id, thread.n_pipeline )`.
abbrev pub call : Threads → ℕ → Call
call t job = record { func = t.func; args = t.args + job * t.size; job = job; n_job = t.n_pipeline }

-- The mutex is the thread's, so that `pthread_mutex_trylock` fails.
unfoldable pub is_locked : Mgr → Bool
is_locked waiting = false
is_locked waking = false
is_locked executing = true
is_locked flagging = true
is_locked settling = true
is_locked returned = false

-- `pthread_cond_signal`
unfoldable pub signal : Mgr → Mgr
signal waiting = waking
signal waking = waking
signal executing = executing
signal flagging = flagging
signal settling = settling
signal returned = returned

-- `id = Id; if( (++Id) >= thread.n_pipeline-Dispatch_To_Host ) Id = 0;`
unfoldable pub next_id : Threads → ℕ
next_id t = if ltb (t.id + 1) (n_thread t) then t.id + 1 else 0

-- The case PIPELINE_SLEEP of `parallel_execute`.
unfoldable pub assign : Threads → (id job : ℕ) → Threads
assign t id job = record t {
  pipeline = update t.pipeline id (record {
    state = execute;
    func = t.func;
    args = t.args + job * t.size;
    job = job;
    n_job = t.n_pipeline;
    flag = job;
    mgr = signal (t.pipeline id).mgr;
  });
  id = next_id t;
  host = clearing (job + 1);
}

-- A round of the loop of `parallel_execute`; `none` is an error. Without a thread, whether or not the
-- dispatcher is booted, it is one at the head.
unfoldable pub parallel_execute : Threads → (job : ℕ) → Option Threads
parallel_execute t job =
    let p = t.pipeline t.id in
    let pass = record t { id = next_id t } in
    if n_thread t == 0 then none else if is_locked p.mgr then some pass else elim p.state [
      | sleep ↦ some (assign t t.id job)
      | execute ↦ some pass
      | terminate ↦ none
      | ack ↦ some pass
    ]

-- A step of the host inside of `thread_dispatch` and `thread_wait`.
unfoldable pub host_step : Threads → Option Threads
host_step t = elim t.host [
  | idle ↦ none
  | clearing id ↦
      if ltb id (n_thread t)
      then some (record t { done = update t.done id false; host = querying id })
      else if t.dispatch_to_host == 0
      then some (record t { host = dispatched })
      else some (record t { done = update t.done id false; host = calling })
  | querying id ↦ parallel_execute t id
  | calling ↦ some (record t { calls = invoke (call t (n_thread t)) t.calls; host = signing })
  | signing ↦ some (record t { done = update t.done (n_thread t) true; host = dispatched })
  | dispatched ↦ none
  | polling id ↦
      if ltb id t.n_pipeline
      then if t.done id then some (record t { host = polling (id + 1) }) else some t
      else some (record t { busy = false; host = idle })
]

-- The call of `thread_dispatch`; `size` is `sz*str`. `none` is an error, or a call that the host is not
-- free to make.
unfoldable pub thread_dispatch : (func args size : ℕ) → Threads → Option Threads
thread_dispatch func args size t = elim t.host [
  | idle ↦
      if t.n_pipeline == 0
      then none
      else if t.busy
      then none
      else some (record t {
        busy = true;
        func = func;
        args = args;
        size = size;
        calls = [];
        host = clearing 0;
      })
  | clearing id ↦ none
  | querying id ↦ none
  | calling ↦ none
  | signing ↦ none
  | dispatched ↦ none
  | polling id ↦ none
]

-- The call of `thread_wait`.
unfoldable pub thread_wait : Threads → Option Threads
thread_wait t = elim t.host [
  | idle ↦ none
  | clearing id ↦ none
  | querying id ↦ none
  | calling ↦ none
  | signing ↦ none
  | dispatched ↦
      if t.n_pipeline == 0
      then none
      else if t.busy
      then some (record t { host = polling 0 })
      else none
  | polling id ↦ none
]

-- A step of the thread of pipeline `k`. It may wake up without a signal.
unfoldable pub pipeline_mgr : ℕ → Threads → Option Threads
pipeline_mgr k t =
    let p = t.pipeline k in
    let put : Pipeline → Threads = λ q. record t { pipeline = update t.pipeline k q } in
    elim p.mgr [
      | waiting ↦ some (put (record p { mgr = waking }))
      | waking ↦ elim p.state [
        | sleep ↦ some (put (record p { mgr = settling }))
        | execute ↦ some (put (record p { mgr = executing }))
        | terminate ↦ some (put (record p { mgr = returned }))
        | ack ↦ some (put (record p { mgr = settling }))
      ]
      | executing ↦ some (record t {
        pipeline = update t.pipeline k (record p { mgr = flagging });
        calls =
            invoke (record { func = p.func; args = p.args; job = p.job; n_job = p.n_job }) t.calls;
      })
      | flagging ↦ some (record t {
        pipeline = update t.pipeline k (record p { mgr = settling });
        done = update t.done p.flag true;
      })
      | settling ↦ some (put (record p { state = sleep; mgr = waiting }))
      | returned ↦ none
    ]

unfoldable pub is_waiting : Mgr → Bool
is_waiting waiting = true
is_waiting waking = false
is_waiting executing = false
is_waiting flagging = false
is_waiting settling = false
is_waiting returned = false

-- Who takes the next step.
pub data Action : Type 0 where
  dispatch : (func args size : ℕ) → Action
  wait : Action
  go : Action
  thread : ℕ → Action

unfoldable pub step : Action → Threads → Option Threads
step (dispatch func args size) t = thread_dispatch func args size t
step wait t = thread_wait t
step go t = host_step t
step (thread k) t = if ltb k (n_thread t) then pipeline_mgr k t else none

-- The step is that of a thread that wakes up without a signal.
unfoldable pub is_spurious : Action → Threads → Bool
is_spurious (dispatch func args size) t = false
is_spurious wait t = false
is_spurious go t = false
is_spurious (thread k) t = is_waiting (t.pipeline k).mgr

-- A schedule in which no thread wakes up without a signal; `none` is an error, or a step that nobody
-- can take.
unfoldable pub run : List Action → Threads → Option Threads
run [] t = some t
run (a ∷ schedule) t =
    if is_spurious a t then none else elim (step a t) [ none ↦ none | some u ↦ run schedule u ]
