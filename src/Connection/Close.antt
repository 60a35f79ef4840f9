-- ===== src/Connection/Close.antt =====
-- The start and the end of a connection, and its reads: cobra/tcp_connection.cpp.
use cobra.Base.{
  if◌then◌else◌, ℕ, ◌≡◌, refl, ap, ◌∙◌, List, [], ◌∷◌, ◌++◌, none, some, arith, Bool, true, false,
  ◌||◌,
}
use cobra.Channel.{is_none_event, none_event, with_nothing}
use cobra.Buffer.{Buffer, max_size, readable_bytes}
use cobra.Buffer
use cobra.Connection.{
  shutdown, shutdown_in_loop, disconnected, connected, disconnecting, Effect, updated_channel,
  removed_channel, called_connection, called_close, Connection, new, is_connected, is_disconnecting,
  connection_established, connection_destroyed, handle_close,
}
use cobra.Connection.Output.{calls}
use cobra.Connection.Stream.{Inv}

-- handleClose of a connection that is up or disconnecting, and the ConnectionDestroyed that follows
-- it, both succeed, their assertions included; together they tell the user once that the connection
-- is down, and call the close callback before the channel is removed.
connection_destroyed-handle_close :
    (c : Connection)
    → (is_connected c.state || is_disconnecting c.state) ≡ true
    → (c' : Connection) × (es : List Effect) × (fs : List Effect) × (handle_close c
        ≡ some (c', es ++ called_close ∷ []))
      × (connection_destroyed c' ≡ some (c', fs ++ removed_channel ∷ []))
      × (calls (es ++ fs) ≡ 1)
      × (c'.state ≡ disconnected)
      × (c'.channel.events ≡ none_event)
unfolding handle_close connection_destroyed
connection_destroyed-handle_close c up = (
  record c { state = disconnected; channel = with_nothing c.channel },
  updated_channel ∷ called_connection ∷ [],
  [],
  rw up,
  refl,
  refl,
  refl,
  refl,
)

-- ConnectionDestroyed of a connection that is still up, as the server's destructor calls it, succeeds
-- and tells the user once.
pub connection_destroyed_up :
    (c : Connection)
    → c.state ≡ connected
    → (c' : Connection) × (es : List Effect) × (connection_destroyed c ≡ some (c', es))
      × (calls es ≡ 1)
      × (c'.state ≡ disconnected)
      × (c'.channel.events ≡ none_event)
unfolding connection_destroyed
connection_destroyed_up c up = (
  record c { state = disconnected; channel = with_nothing c.channel },
  updated_channel ∷ called_connection ∷ removed_channel ∷ [],
  rw (ap is_connected up),
  refl,
  refl,
  refl,
)

destroyed_disconnecting :
    (c : Connection)
    → c.state ≡ disconnecting
    → is_none_event c.channel ≡ false
    → connection_destroyed c ≡ none
unfolding connection_destroyed
destroyed_disconnecting c down busy = rw (ap is_connected down, busy)

-- shutdown() of a connection that is up and watches for any event, and then ConnectionDestroyed, as
-- the server's destructor calls it, fail the assertion of Channel::remove: the events are disabled
-- only in the state kConnected.
pub connection_destroyed-shutdown :
    (c : Connection)
    → c.state ≡ connected
    → is_none_event c.channel ≡ false
    → connection_destroyed (shutdown c).0 ≡ none
unfolding shutdown
connection_destroyed-shutdown c up busy =
    ap (λ b. connection_destroyed (shut b).0) (ap is_connected up)
    ∙ destroyed_disconnecting (record c { state = disconnecting }) refl busy
  where
    shut : Bool → Connection × List Effect
    shut b =
        if b
        then (
          record c { state = disconnecting },
          shutdown_in_loop (record c { state = disconnecting }),
        )
        else (c, [])

-- A connection just established is up, watches for reads, has told the user once, and starts a trace
-- at which the invariant of the stream holds.
established-Inv :
    (fd : ℕ)
    → (c : Connection) × (es : List Effect) × (connection_established (new fd) ≡ some (c, es))
      × (calls es ≡ 1)
      × (c.state ≡ connected)
      × (c.channel.events.pollin ≡ true)
      × Inv (record { conn = c; accepted = []; wire = []; fin = false })
unfolding connection_established new Buffer.new
established-Inv fd = (
  _,
  _,
  refl,
  refl,
  refl,
  refl,
  record {
    valid = record { output_sound = omega arith; input_sound = omega arith; drained = λ u o. refl };
    up = refl;
    order = refl;
    closed = λ e. cc;
    room = omega arith;
  },
)
