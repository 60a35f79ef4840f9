-- ===== src/Worker.antt =====
-- cobra/worker.h and cobra/worker.cpp: the loop of a worker and the functors that its own thread and others
-- queue for it. A functor is a number. The eventfd is its counter. The events of the loop and of the other
-- threads are steps between states; what a poll reports but the eventfd, and the channels, are left out.
pub mod Steps
pub mod Order
pub mod Rounds
mod Tests
use cobra.Base.{ℕ, suc, Bool, true, false, not, ◌||◌, List, [], ◌∷◌, ◌++◌, if◌then◌else◌, ◌+◌}

pub record Worker : Type 0 where
  pub looping : Bool
  pub quit : Bool
  pub event_handling : Bool
  pub calling_pending_functors : Bool
  pub pending_functors : List ℕ
  -- The counter of wakeupFd_.
  pub wakeups : ℕ

-- Worker::Worker
abbrev pub new : Worker
new = record {
  looping = false;
  quit = false;
  event_handling = false;
  calling_pending_functors = false;
  pending_functors = [];
  wakeups = 0;
}

-- Worker::wakeup: write(2) adds one to the counter.
unfoldable pub wakeup : Worker → Worker
wakeup w = record w { wakeups = suc w.wakeups }

-- Worker::handleRead: read(2) takes the whole counter.
unfoldable pub handle_read : Worker → Worker
handle_read w = record w { wakeups = 0 }

-- The two halves of Worker::queueInLoop, between which other threads may run.
unfoldable pub push_functor : ℕ → Worker → Worker
push_functor f w = record w { pending_functors = w.pending_functors ++ f ∷ [] }

unfoldable pub needs_wakeup : Bool → Worker → Bool
needs_wakeup in_loop_thread w = not in_loop_thread || w.calling_pending_functors

unfoldable pub wake_after : Bool → Worker → Worker
wake_after in_loop_thread w = if needs_wakeup in_loop_thread w then wakeup w else w

-- Worker::queueInLoop without an interruption.
unfoldable pub queue_in_loop : Bool → ℕ → Worker → Worker
queue_in_loop in_loop_thread f w = wake_after in_loop_thread (push_functor f w)

-- Worker::runInLoop: the functors to call at once, and the worker.
unfoldable pub run_in_loop : Bool → ℕ → Worker → List ℕ × Worker
run_in_loop in_loop_thread f w =
    if in_loop_thread then (f ∷ [], w) else ([], queue_in_loop in_loop_thread f w)

-- The two halves of Worker::Quit.
unfoldable pub set_quit : Worker → Worker
set_quit w = record w { quit = true }

unfoldable pub wake_to_quit : Bool → Worker → Worker
wake_to_quit in_loop_thread w = if not in_loop_thread then wakeup w else w

unfoldable pub quit_loop : Bool → Worker → Worker
quit_loop in_loop_thread w = wake_to_quit in_loop_thread (set_quit w)

-- Worker::Loop before its while, around the handlers of events, and behind it.
unfoldable pub begin_loop : Worker → Worker
begin_loop w = record w { looping = true; quit = false }

unfoldable pub begin_events : Worker → Worker
begin_events w = record w { event_handling = true }

unfoldable pub end_events : Worker → Worker
end_events w = record w { event_handling = false }

unfoldable pub end_loop : Worker → Worker
end_loop w = record w { looping = false }

-- Worker::doPendingFunctors up to its loop: the functors to call, and the worker.
unfoldable pub swap_functors : Worker → List ℕ × Worker
swap_functors w =
    (w.pending_functors, record w { calling_pending_functors = true; pending_functors = [] })

unfoldable pub end_functors : Worker → Worker
end_functors w = record w { calling_pending_functors = false }
