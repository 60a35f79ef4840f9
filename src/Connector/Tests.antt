-- ===== src/Connector/Tests.antt =====
-- A connector that is refused twice, then connects; and the back-off after seven failures.
use cobra.Base.{◌≡◌, refl, true, false, List, [], ◌∷◌, some, ◌>>=◌}
use cobra.Connector.{
  Connector, new, retry, start_in_loop, connect_to, start_connecting, handle_write, handle_error,
  retry_removed, remove_and_reset_channel, succeed, reset_channel, e_conn_refused, e_in_progress,
  connected,
}
use cobra.Connector.Life.{Event, fires, writes, fails, resets_channel, run, started}

abbrev attempts : List Event
attempts =
    fires 5 e_conn_refused
    ∷ fires 6 e_in_progress
    ∷ writes 111 false
    ∷ fails
    ∷ resets_channel
    ∷ fires 7 e_in_progress
    ∷ writes 0 false
    ∷ resets_channel
    ∷ []

abbrev going : Connector
going = let c = new in record c { connect = true }

-- The third attempt is up, after two failures.
run-attempts : (run attempts started >>= λ w. some w.conn.state) ≡ some connected
unfolding new start_in_loop connect_to start_connecting retry handle_write handle_error
    retry_removed remove_and_reset_channel succeed reset_channel
run-attempts = refl
