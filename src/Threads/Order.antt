-- ===== src/Threads/Order.antt =====
-- The dispatcher and the parallel sort: the order in which a dispatch makes its calls is an order of
-- the pipelines as the model of the sort's stages takes it.
use vpic.Prelude.{ℕ, ◌≡◌, ◌≢◌, Bool, true, false, some, List, [], ◌∷◌}
use vpic.Sort.Pipeline.{Orders}
use vpic.Threads.{Threads, Call, host_step, idle, polling}
use vpic.Threads.Wait.{Reachable}

-- The jobs of calls.
abbrev pub jobs_of : List Call → List ℕ
jobs_of [] = []
jobs_of (c ∷ calls) = c.job ∷ jobs_of calls

abbrev is_empty : List Call → Bool
is_empty [] = true
is_empty (c ∷ calls) = false

-- `thread_wait` has returned, in the state `u`, from the dispatch of a function that is not NULL.
pub record IsReturn (s u : Threads) : Type 0 where
  pub before : Threads
  pub flag : ℕ
  pub reached : Reachable s before
  pub waits : before.host ≡ polling flag
  pub steps : host_step before ≡ some u
  pub ends : u.host ≡ idle
  pub called : u.func ≢ 0

-- The orders in which three dispatches made their calls, of which the list has the last in front.
abbrev pub orders_of : (t u v : Threads) → Orders
orders_of t u v = record {
  counting = jobs_of t.calls;
  sorting = jobs_of u.calls;
  subsorting = jobs_of v.calls;
}
