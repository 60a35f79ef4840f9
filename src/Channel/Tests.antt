-- ===== src/Channel/Tests.antt =====
-- The order of callbacks at a tied channel whose peer hung up while the socket is writable.
use cobra.Base.{◌≡◌, refl, true, not, ◌&&◌, List, [], ◌∷◌, ◌++◌, Option, some, ◌>>=◌, if◌then◌else◌}
use cobra.Channel.{
  Channel, Mask, Callback, close_cb, read_cb, write_cb, none_event, new, tie, handle_event,
  handle_event_with_guard, run_when,
}
use cobra.Channel.Dispatch.{run_all, wanted, handle_event-wanted}

abbrev hung_up : Channel
hung_up =
    let c = tie (new 5) in
    record c {
      revents = mask;
      has_close = true;
      has_error = true;
      has_read = true;
      has_write = true;
    }
  where
    mask : Mask
    mask = let m = none_event in record m { pollhup = true; pollpri = true; pollout = true }

-- A state that lists the callbacks run.
abbrev list : Callback → List Callback → Option (List Callback)
list k ks = some (ks ++ k ∷ [])

wanted-hung_up : wanted hung_up ≡ close_cb ∷ read_cb ∷ write_cb ∷ []
wanted-hung_up = refl

handle_event-hung_up :
    handle_event list (λ b ks. ks) true hung_up [] ≡ some (close_cb ∷ read_cb ∷ write_cb ∷ [])
unfolding handle_event handle_event_with_guard run_when
handle_event-hung_up = refl

handle_event-wanted_example :
    handle_event list (λ b ks. ks) true hung_up []
    ≡ (if true && not true then some [] else run_all list (wanted hung_up) [] >>= λ s'. some s')
handle_event-wanted_example = handle_event-wanted list (λ b ks. ks) true hung_up []
