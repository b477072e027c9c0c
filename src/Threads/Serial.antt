-- ===== src/Threads/Serial.antt =====
-- The serial dispatcher, src/util/pipelines/pipelines_serial.cc, which calls the pipelines one after
-- the other in `serial_dispatch`, and that it makes the calls that the threads make.
use vpic.Prelude.{
  ℕ, ◌+◌, ◌*◌, ◌≤◌, ◌<◌, ◌≡◌, refl, sym, ◌∙◌, ap, Bool, true, false, Option, none, some, List, [],
  arith, if◌then◌else◌, Bool-cases, inl, inr, ◌==◌, ltb, ltb→lt, for_range, for_range_inv,
}
use vpic.Sort.Scatter.{with_key}
use vpic.Threads.{Threads, Call, invoke, host_step, idle, polling}
use vpic.Threads.Invariant.{calls_of, calls_of-invoke, calls_of-invoke_ne}
use vpic.Threads.Wait.{IsBooted, Reachable, thread_wait-calls}

-- The static variables, and the calls that were made.
pub record Serial : Type 0 where
  pub n_pipeline : ℕ
  pub busy : Bool
  pub calls : List Call

-- `size` is `sz*str`.
unfoldable pub serial_call : (func args size n_pipeline id : ℕ) → Call
serial_call func args size n_pipeline id = record {
  func = func;
  args = args + id * size;
  job = id;
  n_job = n_pipeline;
}

-- `none` is an error. The calls are those of this dispatch.
unfoldable pub serial_dispatch : (func args size : ℕ) → Serial → Option Serial
serial_dispatch func args size s =
    if s.n_pipeline == 0
    then none
    else if s.busy
    then none
    else some (record s {
      busy = true;
      calls =
          for_range s.n_pipeline 0
            (λ id calls. invoke (serial_call func args size s.n_pipeline id) calls) [];
    })

unfoldable pub serial_wait : Serial → Option Serial
serial_wait s =
    if s.n_pipeline == 0 then none else if s.busy then some (record s { busy = false }) else none

-- The calls of the jobs below `i` are made.
record IsMade (func args size n i : ℕ) (calls : List Call) : Type 0 where
  made : (j : ℕ) → j < i → calls_of j calls ≡ invoke (serial_call func args size n j) []
  fresh : (j : ℕ) → i ≤ j → calls_of j calls ≡ []

invoke-IsMade :
    (func args size n k : ℕ) (calls : List Call)
    → IsMade func args size n k calls
    → IsMade func args size n (k + 1) (invoke (serial_call func args size n k) calls)
unfolding serial_call
invoke-IsMade func args size n k calls h = record {
  made = λ j lt. elim (Bool-cases (j == k)) [
    | inl t ↦
        let e : k ≡ j = ground (arith, t) in
        rw (← e) (calls_of-invoke (serial_call func args size n k) calls (h.fresh k (omega arith)))
    | inr f ↦
        calls_of-invoke_ne (serial_call func args size n k) calls j (ground (arith, f))
        ∙ h.made j (ground (arith, f, lt))
  ];
  fresh = λ j le.
      calls_of-invoke_ne (serial_call func args size n k) calls j (omega (arith, le))
      ∙ h.fresh j (omega (arith, le));
}

abbrev loop : (func args size n : ℕ) → List Call
loop func args size n =
    for_range n 0 (λ id calls. invoke (serial_call func args size n id) calls) []

loop-IsMade : (func args size n : ℕ) → IsMade func args size n n (loop func args size n)
unfolding with_key
loop-IsMade func args size n =
    for_range_inv (IsMade func args size n)
      (λ id calls. invoke (serial_call func args size n id) calls) n 0 n [] (omega arith)
      (λ k calls lo hi h. invoke-IsMade func args size n k calls h)
      (record { made = λ j lt. absurd (omega (arith, lt)); fresh = λ j le. refl })

-- `serial.dispatch( func, args, sz, str ); serial.wait();`
abbrev pub dispatch_and_wait : (func args size : ℕ) → Serial → Option Serial
dispatch_and_wait func args size s = wait_after (serial_dispatch func args size s)
  where
    wait_after : Option Serial → Option Serial
    wait_after none = none
    wait_after (some r) = serial_wait r

dispatch_and_wait-loop :
    (func args size : ℕ) (s : Serial)
    → 0 < s.n_pipeline
    → s.busy ≡ false
    → dispatch_and_wait func args size s
      ≡ some (record s { busy = false; calls = loop func args size s.n_pipeline })
unfolding serial_dispatch serial_wait
dispatch_and_wait-loop func args size s pos free =
    let booted : (s.n_pipeline == 0) ≡ false = ground arith in rw (booted, free) (rw booted refl)

-- What a dispatch has called for a job.
abbrev pub called_for : ℕ → Option Serial → List Call
called_for j none = []
called_for j (some s) = calls_of j s.calls

-- After `thread_boot` with a Dispatch_To_Host of 0 or 1, not above n_pipeline, and any steps: when
-- `thread_wait` returns from a dispatch, the calls made for each job are those that the serial
-- dispatcher, booted with as many pipelines and not busy, makes for it in a dispatch and a wait,
-- which end without an error, of the same function on the same arguments.
pub thread_wait-dispatch_and_wait :
    (s t u : Threads) (i j : ℕ) (r : Serial)
    → IsBooted s
    → Reachable s t
    → t.host ≡ polling i
    → host_step t ≡ some u
    → u.host ≡ idle
    → 0 < r.n_pipeline
    → r.n_pipeline ≡ u.n_pipeline
    → r.busy ≡ false
    → calls_of j u.calls ≡ called_for j (dispatch_and_wait u.func u.args u.size r)
unfolding serial_call
thread_wait-dispatch_and_wait s t u i j r b reach e steps ends pos same free =
    let made = loop-IsMade u.func u.args u.size r.n_pipeline in
    thread_wait-calls s t u i j b reach e steps ends
    ∙ sym (
        ap (called_for j) (dispatch_and_wait-loop u.func u.args u.size r pos free)
        ∙ elim (Bool-cases (ltb j u.n_pipeline)) [
          | inl lt ↦ rw lt (
              made.made j (omega (arith, same, ltb→lt j u.n_pipeline lt))
              ∙ ap (λ n. invoke (serial_call u.func u.args u.size n j) []) same)
          | inr ge ↦ rw ge (made.fresh j (ground (arith, same, ge)))
        ])
