-- ===== src/TimerQueue/Tests.antt =====
-- The timer queue of cobra/timer_queue.cpp on two timers: one at 8 that is due at 10 and repeats every 5,
-- and one at 16 that is due at 20 once.
use cobra.Base.{
  ℕ, ◌<◌, ◌≡◌, refl, Bool, true, false, List, [], ◌∷◌, Option, none, some, if◌then◌else◌, arith,
}
use cobra.TimerQueue.{
  Entry, Timer, TimerQueue, max_address, new, insert, add_timer_in_loop, add_timer, remove_active,
  note_cancel, cancel_in_loop, erase_active, get_expired, reset_one, reset_all, rearm, reset,
  Request, adds, cancels, takes, serve, serve_all, run_all, handle_read,
}
use cobra.TimerQueue.Invariant.{Inv, free-Away, with_timer, with_timer-Inv}
use cobra.TimerQueue.Removal.{dropped, dropped-Inv, dropped-Away}
use cobra.TimerQueue.Expired.{Split, get_expired-Split}
use cobra.TimerQueue.Reset.{Renewed, reset_all-Renewed}
use cobra.TimerQueue.Rounds.{IsValid, handle_read-IsValid}

abbrev often : Timer
often = record { expiration = 10; delta = 5; repeat = true; sequence = 1 }

abbrev once : Timer
once = record { expiration = 20; delta = 0; repeat = false; sequence = 2 }

new-Inv : Inv new
unfolding new
new-Inv = record {
  sorted_timers = tt;
  sorted_active = tt;
  sizes = refl;
  of_timers = λ t p h. cc;
  of_active = λ p s h. cc;
  of_heap = λ p x e. cc;
}

abbrev one_timer : TimerQueue
one_timer = with_timer 8 often new

one_timer-Inv : Inv one_timer
unfolding new
one_timer-Inv = with_timer-Inv 8 often new-Inv (free-Away 8 new-Inv refl) (omega arith) low
  where
    low : 8 < max_address
    low = omega arith

abbrev two_timers : TimerQueue
two_timers = with_timer 16 once one_timer

two_timers-Inv : Inv two_timers
unfolding new
two_timers-Inv =
    with_timer-Inv 16 once one_timer-Inv (free-Away 16 one_timer-Inv refl) (omega arith) low
  where
    low : 16 < max_address
    low = omega arith

-- Addresses in steps of 8.
abbrev alloc : (ℕ → Option Timer) → ℕ
alloc heap = if taken (heap 8) then (if taken (heap 16) then 24 else 16) else 8
  where
    taken : Option Timer → Bool
    taken none = false
    taken (some x) = true

-- A callback that asks for one more timer, cancels its own and one that does not exist.
abbrev on_timer : Timer → List Request
on_timer x = adds 15 0 false ∷ cancels (8, 1) ∷ cancels (99, 7) ∷ takes 1 ∷ []

-- At 12 the first timer alone is due.
expired_test :
    (r : TimerQueue) × (get_expired 12 two_timers ≡ some ((10, 8) ∷ [], r))
    × (r.timers ≡ (20, 16) ∷ [])
unfolding new get_expired erase_active
expired_test = (record two_timers { timers = (20, 16) ∷ []; active = (16, 2) ∷ [] }, refl, refl)

get_expired-Split_example :
    (expired : List Entry) × (r : TimerQueue) × (get_expired 12 two_timers ≡ some (expired, r))
    × Split 12 two_timers expired r
get_expired-Split_example = get_expired-Split 12 two_timers two_timers-Inv

handle_read-IsValid_example :
    (r : TimerQueue) × (handle_read alloc on_timer 12 two_timers ≡ some r) × IsValid r
unfolding new get_expired erase_active serve_all serve add_timer add_timer_in_loop insert
    cancel_in_loop remove_active note_cancel
handle_read-IsValid_example =
    handle_read-IsValid alloc on_timer 12 two_timers (omega arith) two_timers-Inv refl

abbrev alarm : Option TimerQueue → Option (List Entry × Option ℕ)
alarm none = none
alarm (some q) = some (q.timers, q.armed)

-- The timer at 8 has been cancelled by its own callback.
handle_read_test :
    alarm (handle_read alloc on_timer 12 two_timers) ≡ some ((15, 24) ∷ (20, 16) ∷ [], some 113)
unfolding new get_expired erase_active serve_all serve add_timer add_timer_in_loop insert
    cancel_in_loop remove_active note_cancel run_all handle_read reset_one reset_all rearm reset
handle_read_test = refl

reset_all-Renewed_example :
    (r : TimerQueue) × Renewed 12 ((10, 8) ∷ []) (dropped 10 8 1 one_timer) r
unfolding new
reset_all-Renewed_example =
    reset_all-Renewed 12 ((10, 8) ∷ []) (dropped 10 8 1 one_timer) (omega arith)
      (dropped-Inv 10 8 often one_timer-Inv refl refl refl refl)
      ((often, refl, dropped-Away 10 8 often one_timer-Inv refl refl), tt) (tt, tt)
