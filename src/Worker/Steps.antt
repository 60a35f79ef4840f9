-- ===== src/Worker/Steps.antt =====
-- A worker's loop and the other threads, step by step: cobra/worker.cpp.
use cobra.Base.{ℕ, suc, ◌≡◌, true, false, List, [], ◌∷◌, ◌++◌}
use cobra.Worker.{
  Worker, new, handle_read, push_functor, wake_after, queue_in_loop, set_quit, quit_loop,
  begin_loop, begin_events, end_events, end_loop, swap_functors, end_functors,
}

-- Where the thread of the loop is: outside of it, at the test of quit_, in poll, among the handlers of the
-- events, or with these functors left to call.
pub data Phase : Type 0 where
  outside : Phase
  testing : Phase
  polling : Phase
  handling : Phase
  calling : List ℕ → Phase

-- The worker with its thread; the other threads that have pushed a functor or set quit_ and have yet to
-- write to the eventfd; how many functors the loop's own thread has queued outside of Loop() since they
-- were last taken; and what has been queued and called since the beginning.
pub record System : Type 0 where
  pub worker : Worker
  pub phase : Phase
  pub owed : ℕ
  pub unannounced : ℕ
  pub queued : List ℕ
  pub called : List ℕ

abbrev pub initial : System
initial = record {
  worker = new;
  phase = outside;
  owed = 0;
  unannounced = 0;
  queued = [];
  called = [];
}

pub data Step : System → System → Type 0 where
  outside_queues :
      (s : System) (f : ℕ)
      → s.phase ≡ outside
      → Step s (record s {
        worker = queue_in_loop true f s.worker;
        unannounced = suc s.unannounced;
        queued = s.queued ++ f ∷ [];
      })
  outside_quits :
      (s : System) → s.phase ≡ outside → Step s (record s { worker = quit_loop true s.worker })
  starts :
      (s : System)
      → s.phase ≡ outside
      → Step s (record s { worker = begin_loop s.worker; phase = testing })
  goes_on :
      (s : System)
      → s.phase ≡ testing
      → s.worker.quit ≡ false
      → Step s (record s { phase = polling })
  stops :
      (s : System)
      → s.phase ≡ testing
      → s.worker.quit ≡ true
      → Step s (record s { worker = end_loop s.worker; phase = outside })
  returns :
      (s : System)
      → s.phase ≡ polling
      → Step s (record s { worker = begin_events s.worker; phase = handling })
  reads : (s : System) → s.phase ≡ handling → Step s (record s { worker = handle_read s.worker })
  handler_queues :
      (s : System) (f : ℕ)
      → s.phase ≡ handling
      → Step s (record s { worker = queue_in_loop true f s.worker; queued = s.queued ++ f ∷ [] })
  handler_quits :
      (s : System) → s.phase ≡ handling → Step s (record s { worker = quit_loop true s.worker })
  swaps :
      (s : System)
      → s.phase ≡ handling
      → Step s (record s {
        worker = (swap_functors (end_events s.worker)).1;
        phase = calling (swap_functors (end_events s.worker)).0;
        unannounced = 0;
      })
  calls :
      (s : System) (f : ℕ) (fs : List ℕ)
      → s.phase ≡ calling (f ∷ fs)
      → Step s (record s { phase = calling fs; called = s.called ++ f ∷ [] })
  functor_queues :
      (s : System) (f : ℕ) (fs : List ℕ)
      → s.phase ≡ calling fs
      → Step s (record s { worker = queue_in_loop true f s.worker; queued = s.queued ++ f ∷ [] })
  functor_quits :
      (s : System) (fs : List ℕ)
      → s.phase ≡ calling fs
      → Step s (record s { worker = quit_loop true s.worker })
  ends :
      (s : System)
      → s.phase ≡ calling []
      → Step s (record s { worker = end_functors s.worker; phase = testing })
  other_pushes :
      (s : System) (f : ℕ)
      → Step s (record s {
        worker = push_functor f s.worker;
        owed = suc s.owed;
        queued = s.queued ++ f ∷ [];
      })
  other_sets_quit :
      (s : System) → Step s (record s { worker = set_quit s.worker; owed = suc s.owed })
  other_wakes :
      (s : System) (n : ℕ)
      → s.owed ≡ suc n
      → Step s (record s { worker = wake_after false s.worker; owed = n })

pub data Reach (s : System) : System → Type 0 where
  here : Reach s s
  next : {t u : System} → Reach s t → Step t u → Reach s u
