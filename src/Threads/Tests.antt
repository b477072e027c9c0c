-- ===== src/Threads/Tests.antt =====
-- The theorems on the dispatcher at two jobs, one of them the host's.
mod Sort
use vpic.Prelude.{
  ℕ, zero, suc, ◌+◌, ◌*◌, ◌/◌, Option, none, ◌==◌, ltb, if◌then◌else◌, ◌≡◌, ◌≢◌, refl, true, false,
  some, List, [], arith, update,
}
use vpic.Threads.{
  Threads, Pipeline, invoke, call, assign, signal, is_locked, parallel_execute, host_step,
  thread_dispatch, thread_wait, pipeline_mgr, sleep, waiting, executing, flagging, settling, idle,
  clearing, querying, calling, signing, dispatched, polling, Action, dispatch, wait, go, thread,
  step, run,
}
use vpic.Threads.Invariant.{IsConsistent, calls_of}
use vpic.Grid.Voxel.{voxel}
use vpic.Sort.Legacy.{Particle, Species, sort_out_of_place}
use vpic.Sort.Runs.{IsFilled}
use vpic.Sort.Pipeline.{Arrays, sort_p_pipeline}
use vpic.Sort.Pipeline.Coarse.{IsDivision}
use vpic.Sort.Pipeline.Result.{IsSortable, p_at, partition_at}
use vpic.Threads.Order.{IsReturn, orders_of}
use vpic.Threads.Serial.{Serial, dispatch_and_wait, called_for, thread_wait-dispatch_and_wait}
use vpic.Threads.Stuck.Hangs.{thread_wait-hangs}
use vpic.Threads.Wait.{
  IsBooted, Reachable, here, further, Reachable-IsConsistent, thread_wait-calls,
  thread_wait-returns,
}

abbrev asleep : Pipeline
asleep = record { state = sleep; func = 0; args = 0; job = 0; n_job = 0; flag = 0; mgr = waiting }

abbrev pub start : Threads
start = record {
  n_pipeline = 2;
  dispatch_to_host = 1;
  id = 0;
  busy = false;
  done = λ k. false;
  pipeline = λ k. asleep;
  host = idle;
  func = 0;
  args = 0;
  size = 0;
  calls = [];
}

pub start-IsBooted : IsBooted start
start-IsBooted = record {
  booted = omega arith;
  parts = (omega arith, omega arith);
  outside = refl;
  free = refl;
  first = refl;
  uncalled = refl;
  asleep = λ k. (refl, refl);
}

-- A dispatch of function 5 on arguments of 8 bytes from address 100 on.
abbrev begun : Threads
begun = record start { busy = true; func = 5; args = 100; size = 8; calls = []; host = clearing 0 }

abbrev cleared : Threads
cleared = record begun { done = update begun.done 0 false; host = querying 0 }

abbrev given_out : Threads
given_out = assign cleared 0 0

begun-Reachable : Reachable start begun
unfolding step thread_dispatch
begun-Reachable = further (dispatch 5 100 8) here refl

cleared-Reachable : Reachable start cleared
unfolding step host_step
cleared-Reachable = further go begun-Reachable refl

given_out-Reachable : Reachable start given_out
unfolding step host_step parallel_execute is_locked
given_out-Reachable = further go cleared-Reachable refl

-- The host's own job, and then the wait.
abbrev own : Threads
own = record given_out { done = update given_out.done 1 false; host = calling }

abbrev called : Threads
called = record own { calls = invoke (call own 1) own.calls; host = signing }

abbrev signed : Threads
signed = record called { done = update called.done 1 true; host = dispatched }

abbrev waited : Threads
waited = record signed { host = polling 0 }

waited-Reachable : Reachable start waited
unfolding step host_step assign thread_wait
waited-Reachable =
    further {t = signed} wait
      (further {t = called} go
        (further {t = own} go (further {t = given_out} go given_out-Reachable refl) refl) refl)
      refl

-- The thread runs its job and sleeps; the host sees both flags.
abbrev running : Threads
running = record waited {
  pipeline = update waited.pipeline 0 (record (waited.pipeline 0) { mgr = executing });
}

abbrev returned_from : Threads
returned_from = record running {
  pipeline = update running.pipeline 0 (record (running.pipeline 0) { mgr = flagging });
  calls = invoke (call running 0) running.calls;
}

abbrev flagged : Threads
flagged = record returned_from {
  pipeline = update returned_from.pipeline 0 (record (returned_from.pipeline 0) { mgr = settling });
  done = update returned_from.done 0 true;
}

abbrev seen_all : Threads
seen_all = record flagged { host = polling 2 }

abbrev pub outside : Threads
outside = record seen_all { busy = false; host = idle }

flagged-Reachable : Reachable start flagged
unfolding step pipeline_mgr update assign signal
flagged-Reachable =
    further {t = returned_from} (thread 0)
      (further {t = running} (thread 0) (further {t = waited} (thread 0) waited-Reachable refl)
        refl)
      refl

seen_all-Reachable : Reachable start seen_all
unfolding step host_step update assign
seen_all-Reachable =
    further {t = record flagged { host = polling 1 }} go
      (further {t = flagged} go flagged-Reachable refl) refl

Reachable-IsConsistent_example : IsConsistent given_out
Reachable-IsConsistent_example =
    Reachable-IsConsistent start given_out start-IsBooted given_out-Reachable

-- The thread's job has been called when the wait returns.
thread_wait-calls_example :
    calls_of 0 outside.calls ≡ (if ltb 0 outside.n_pipeline then invoke (call outside 0) [] else [])
unfolding host_step assign
thread_wait-calls_example =
    thread_wait-calls start seen_all outside 2 0 start-IsBooted seen_all-Reachable refl refl refl

thread_wait-returns_example :
    (schedule : List Action) × (u : Threads) × (run schedule given_out ≡ some u) × (u.host ≡ idle)
thread_wait-returns_example = thread_wait-returns start given_out start-IsBooted given_out-Reachable

pub outside-IsReturn : IsReturn start outside
unfolding host_step assign
outside-IsReturn = record {
  before = seen_all;
  flag = 2;
  reached = seen_all-Reachable;
  waits = refl;
  steps = refl;
  ends = refl;
  called = omega arith;
}

abbrev one_by_one : Serial
one_by_one = record { n_pipeline = 2; busy = false; calls = [] }

thread_wait-dispatch_and_wait_example :
    calls_of 1 outside.calls
    ≡ called_for 1 (dispatch_and_wait outside.func outside.args outside.size one_by_one)
unfolding host_step assign
thread_wait-dispatch_and_wait_example =
    thread_wait-dispatch_and_wait start seen_all outside 2 1 one_by_one start-IsBooted
      seen_all-Reachable refl refl refl (omega arith) refl refl

-- Two pipelines, of which the host takes one and nobody the other.
abbrev odd : Threads
odd = record start { dispatch_to_host = 2 }

abbrev odd_begun : Threads
odd_begun = record odd {
  busy = true;
  func = 5;
  args = 100;
  size = 8;
  calls = [];
  host = clearing 0;
}

abbrev odd_own : Threads
odd_own = record odd_begun { done = update odd_begun.done 0 false; host = calling }

abbrev odd_called : Threads
odd_called = record odd_own { calls = invoke (call odd_own 0) odd_own.calls; host = signing }

abbrev odd_signed : Threads
odd_signed = record odd_called { done = update odd_called.done 0 true; host = dispatched }

abbrev odd_waiting : Threads
odd_waiting = record odd_signed { host = polling 0 }

odd_waiting-Reachable : Reachable odd odd_waiting
unfolding step host_step thread_wait thread_dispatch
odd_waiting-Reachable =
    further {t = odd_signed} wait
      (further {t = odd_called} go
        (further {t = odd_own} go
          (further {t = odd_begun} go (further (dispatch 5 100 8) here refl) refl) refl)
        refl)
      refl

thread_wait-hangs_example : (record odd_waiting { host = polling 1 }).host ≢ idle
unfolding host_step update
thread_wait-hangs_example =
    thread_wait-hangs odd odd_waiting (record odd_waiting { host = polling 1 }) 0 (omega arith)
      (omega arith) refl (λ k. refl) (λ k. refl) odd_waiting-Reachable refl refl
