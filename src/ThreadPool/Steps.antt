-- ===== src/ThreadPool/Steps.antt =====
-- The threads of a pool of base/ThreadPool.cc and those that hand tasks to it, in any order.
use cobra.Base.{true, ℕ, zero, suc, List, [], ◌∷◌, ◌++◌, Option, none, some, ◌>>=◌, if◌then◌else◌}
use cobra.Monitor.{notify, resume}
use cobra.ThreadPool.{
  ThreadPool, new, start, stop, run_turn, Taken, slept, no_task, took, take_turn,
}

-- A pool, how many of its threads are at the test of runInThread, before the mutex of take(), in a task and
-- at their end; which tasks were put in the queue, taken out of it and called, each in order; and the
-- tasks held by the threads that have returned from take() and not called them yet.
pub record System : Type 0 where
  pub pool : ThreadPool
  pub testing : ℕ
  pub entering : ℕ
  pub calling : ℕ
  pub gone : ℕ
  pub pushed : List ℕ
  pub taken : List ℕ
  pub called : List ℕ
  pub held : List ℕ

pub data Event : Type 0 where
  -- A thread outside gives a task to run(), and one that slept in run() with its task goes on.
  offers : ℕ → Event
  retries : ℕ → Event
  -- A thread of the pool tests running_, enters take(), goes on in take(), calls the task that it took,
  -- which is one of those that are held, and returns from it.
  tests : Event
  enters : Event
  goes_on : Event
  calls : ℕ → Event
  returns : Event
  -- Spurious wakeups.
  stirs_worker : Event
  stirs_outside : Event
  stops : Event

-- run() of a task; without threads the task is called at once.
abbrev pub offer : ℕ → ThreadPool → System → System
offer task p s =
    let r = run_turn task p in
    record s { pool = r.1; pushed = if r.0 then s.pushed ++ task ∷ [] else s.pushed }

abbrev pub after_take : Taken → System → System
after_take slept s = s
after_take no_task s = record s { testing = suc s.testing }
after_take (took x) s = record s { taken = s.taken ++ x ∷ []; held = x ∷ s.held }

abbrev pub enter : ThreadPool → System → System
enter p s = let r = take_turn p in after_take r.0 (record s { pool = r.1 })

-- The steps, each with the number of threads that stand where it begins; nothing happens where none does.
abbrev pub give : ℕ → ℕ → System → System
give task zero s = record s {
  pushed = s.pushed ++ task ∷ [];
  taken = s.taken ++ task ∷ [];
  called = s.called ++ task ∷ [];
}
give task (suc n) s = offer task s.pool s

abbrev pub retry : ℕ → ℕ → System → System
retry task zero s = s
retry task (suc n) s = offer task (record s.pool { not_full = resume n s.pool.not_full }) s

abbrev pub test_running : ℕ → System → System
test_running zero s = s
test_running (suc n) s =
    if s.pool.running
    then record s { testing = n; entering = suc s.entering }
    else record s { testing = n; gone = suc s.gone }

abbrev pub enter_take : ℕ → System → System
enter_take zero s = s
enter_take (suc n) s = enter s.pool (record s { entering = n })

abbrev pub go_on : ℕ → System → System
go_on zero s = s
go_on (suc n) s = enter (record s.pool { not_empty = resume n s.pool.not_empty }) s

-- The element at an index, and the others.
abbrev pub take_out : List ℕ → ℕ → Option (ℕ × List ℕ)
take_out [] i = none
take_out (x ∷ xs) zero = some (x, xs)
take_out (x ∷ xs) (suc i) = do (y, ys) ← take_out xs i; some (y, x ∷ ys)

-- A thread calls the task that it holds; without the mutex, so in any order of the threads.
abbrev pub call : Option (ℕ × List ℕ) → System → System
call none s = s
call (some (x, xs)) s = record s { held = xs; called = s.called ++ x ∷ []; calling = suc s.calling }

abbrev pub return : ℕ → System → System
return zero s = s
return (suc n) s = record s { calling = n; testing = suc s.testing }

abbrev pub step : Event → System → System
step (offers task) s = give task s.pool.threads s
step (retries task) s = retry task s.pool.not_full.woken s
step tests s = test_running s.testing s
step enters s = enter_take s.entering s
step goes_on s = go_on s.pool.not_empty.woken s
step (calls i) s = call (take_out s.held i) s
step returns s = return s.calling s
step stirs_worker s = record s { pool = record s.pool { not_empty = notify s.pool.not_empty } }
step stirs_outside s = record s { pool = record s.pool { not_full = notify s.pool.not_full } }
step stops s = record s { pool = stop s.pool }

abbrev pub run : List Event → System → System
run [] s = s
run (e ∷ es) s = run es (step e s)

-- A pool that is started, with all its threads at their first test.
abbrev pub begin : ThreadPool → System
begin p = record {
  pool = p;
  testing = p.threads;
  entering = 0;
  calling = 0;
  gone = 0;
  pushed = [];
  taken = [];
  called = [];
  held = [];
}

-- A pool with threads after some history.
abbrev pub after : ℕ → ℕ → List Event → System
after max_size threads es =
    run es (begin (record (new max_size) { threads = threads; running = true }))

abbrev pub lifetime : ℕ → ℕ → List Event → Option System
lifetime max_size threads es = do p ← start threads (new max_size); some (run es (begin p))
