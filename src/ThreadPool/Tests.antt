-- ===== src/ThreadPool/Tests.antt =====
-- Pools of one and of two threads.
use cobra.Base.{arith, ◌+◌, ◌≤◌, ◌≡◌, refl, true, List, [], ◌∷◌, some}
use cobra.ThreadPool.{run_turn, take_turn, new}
use cobra.ThreadPool.Steps.{
  System, Event, offers, retries, tests, enters, goes_on, calls, returns, after, stirs_outside,
  stops, run, begin, lifetime,
}
use cobra.ThreadPool.Order.{Inv, lifetime-Inv}
use cobra.ThreadPool.Progress.{IsOver, Calls, queue-Calls, run-blocked}

-- Two threads, of which one sleeps; the second task waits until it is woken.
abbrev events : List Event
events =
    tests ∷ enters ∷ offers 7 ∷ offers 8 ∷ offers 9 ∷ goes_on ∷ calls 0 ∷ returns ∷ retries 9 ∷ []

lifetime-Inv_example : (s : System) × (lifetime 2 2 events ≡ some s) × Inv s
lifetime-Inv_example = lifetime-Inv 2 2 events (omega arith)

-- A thread that sleeps while nothing waits, and then a task.
abbrev past : List Event
past = tests ∷ enters ∷ offers 7 ∷ []

queue-Calls_example : Calls (after 2 1 past) 7
unfolding run_turn take_turn
queue-Calls_example = queue-Calls 2 1 past 7 [] (omega arith) refl refl refl

-- The only thread holds the first of two tasks.
busy_test :
    (run
      (calls 0 ∷ returns ∷ tests ∷ enters ∷ calls 0 ∷ [])
      (after 2 1 (offers 7 ∷ offers 8 ∷ tests ∷ enters ∷ []))).called
    ≡ 7 ∷ 8 ∷ []
unfolding run_turn take_turn
busy_test = refl

-- The queue is full when the pool stops; then another thread calls run().
abbrev over : System
over =
    run (offers 7 ∷ stops ∷ tests ∷ offers 8 ∷ [])
      (begin (record (new 1) { threads = 1; running = true }))

over-IsOver : IsOver over
unfolding run_turn
over-IsOver = record { running = refl; nobody = refl; manned = omega arith; full = refl }

run-blocked_example :
    ((run (stirs_outside ∷ retries 8 ∷ []) over).pushed ≡ over.pushed)
    × ((run (stirs_outside ∷ retries 8 ∷ []) over).called ≡ over.called)
    × (over.pool.not_full.sleeping + over.pool.not_full.woken
        ≤ (run (stirs_outside ∷ retries 8 ∷ []) over).pool.not_full.sleeping
          + (run (stirs_outside ∷ retries 8 ∷ []) over).pool.not_full.woken)
run-blocked_example = run-blocked (stirs_outside ∷ retries 8 ∷ []) over over-IsOver
