-- ===== src/Worker/Tests.antt =====
-- A worker of cobra/worker.cpp to which another thread gives a functor while it polls.
use cobra.Base.{◌+◌, ◌<◌, ◌≡◌, ◌⊎◌, refl, true, false, [], ◌∷◌, ◌++◌}
use cobra.Worker.{
  new, wakeup, push_functor, wake_after, needs_wakeup, run_in_loop, queue_in_loop, begin_loop,
}
use cobra.Worker.Steps.{
  handling, polling, testing, System, initial, starts, goes_on, other_pushes, Reach, here, next,
}
use cobra.Worker.Order.{left, queued-called}
use cobra.Worker.Rounds.{polling-called}

run_in_loop_test :
    (run_in_loop true 7 new ≡ (7 ∷ [], new))
    × (run_in_loop false 7 new ≡ ([], wakeup (push_functor 7 new)))
unfolding run_in_loop queue_in_loop wake_after needs_wakeup wakeup push_functor
run_in_loop_test = (refl, refl)

abbrev asleep : System
asleep = record initial { worker = begin_loop new; phase = polling }

abbrev pushed : System
pushed = record asleep { worker = push_functor 7 asleep.worker; owed = 1; queued = 7 ∷ [] }

pushed_reached : Reach initial pushed
unfolding begin_loop push_functor
pushed_reached =
    next
      (next (next here (starts initial refl))
        (goes_on (record initial { worker = begin_loop new; phase = testing }) refl refl))
      (other_pushes asleep 7)

queued-called_example :
    (pushed.queued ≡ pushed.called ++ (left pushed.phase ++ pushed.worker.pending_functors))
    × ((pushed.phase ≡ handling)
        ⊎ ((pushed.worker.pending_functors ≡ [])
            ⊎ (0 < pushed.worker.wakeups + pushed.owed + pushed.unannounced)))
queued-called_example = queued-called pushed pushed_reached

polling-called_example :
    (t : System) × Reach pushed t
    × (t.called ≡ 7 ∷ [])
    × (t.queued ≡ 7 ∷ [])
    × (t.worker.pending_functors ≡ [])
    × (t.phase ≡ testing)
polling-called_example = polling-called pushed pushed_reached refl
