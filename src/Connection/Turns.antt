-- ===== src/Connection/Turns.antt =====
-- The turns that a server sees a connection of cobra/tcp_connection.cpp take: up, down, gone.
use cobra.Base.{
  not, Bool-cases, inl, inr, ℕ, Bool, ◌≡◌, refl, ap, List, [], ◌∷◌, some, true, false, ◌||◌,
  if◌then◌else◌,
}
use cobra.Channel.{is_writing, is_none_event, with_nothing, with_reading, tie}
use cobra.Connection.{
  when, shut_write, Connection, Effect, new, connecting, connected, disconnected, disconnecting,
  is_connected, is_disconnecting, updated_channel, called_connection, called_close, removed_channel,
  connection_established, connection_destroyed, handle_close, shutdown, shutdown_in_loop,
}
use cobra.Connection.Output.{calls}

-- A connection that handleClose accepts, and that watches for something.
abbrev pub IsUp : Connection → Type 0
IsUp c =
    ((is_connected c.state || is_disconnecting c.state) ≡ true) × (is_none_event c.channel ≡ false)

-- One that is down and watches for nothing.
abbrev pub IsDown : Connection → Type 0
IsDown c = (c.state ≡ disconnected) × (is_none_event c.channel ≡ true)

-- One that was made and not established.
abbrev pub IsNew : Connection → Type 0
IsNew c = (c.state ≡ connecting) × (is_none_event c.channel ≡ true)

pub new-IsNew : (n : ℕ) → IsNew (new n)
unfolding new
new-IsNew n = (refl, refl)

pub connection_established-IsUp :
    (c : Connection)
    → c.state ≡ connecting
    → (c' : Connection) × (es : List Effect) × (connection_established c ≡ some (c', es))
      × (calls es ≡ 1)
      × IsUp c'
unfolding connection_established
connection_established-IsUp c e = (
  record c { state = connected; channel = with_reading (tie c.channel) },
  updated_channel ∷ called_connection ∷ [],
  rw e refl,
  refl,
  (refl, refl),
)

pub handle_close-IsDown :
    (c : Connection)
    → IsUp c
    → (c' : Connection) × (es : List Effect) × (handle_close c ≡ some (c', es))
      × (calls es ≡ 1)
      × IsDown c'
unfolding handle_close
handle_close-IsDown c up = (
  record c { state = disconnected; channel = with_nothing c.channel },
  updated_channel ∷ called_connection ∷ called_close ∷ [],
  rw up.0 refl,
  refl,
  (refl, refl),
)

pub connection_destroyed-IsDown :
    (c : Connection) → IsDown c → connection_destroyed c ≡ some (c, removed_channel ∷ [])
unfolding connection_destroyed
connection_destroyed-IsDown c (s, n) = rw (ap is_connected s, n) refl

pub shutdown-IsUp : (c : Connection) → IsUp c → IsUp (shutdown c).0
unfolding shutdown
shutdown-IsUp c up = go (is_connected c.state)
  where
    shut : Bool → Connection × List Effect
    shut b =
        if b
        then (
          record c { state = disconnecting },
          shutdown_in_loop (record c { state = disconnecting }),
        )
        else (c, [])

    go : (b : Bool) → IsUp (shut b).0
    go true = (refl, up.1)
    go false = up

-- A connection that is not up stays as it is.
pub shutdown_down : (c : Connection) → is_connected c.state ≡ false → shutdown c ≡ (c, [])
unfolding shutdown
shutdown_down c e = rw e refl

calls-when : (b : Bool) → calls (when b shut_write) ≡ 0
calls-when true = refl
calls-when false = refl

pub calls-shutdown : (c : Connection) → calls (shutdown c).1 ≡ 0
unfolding shutdown shutdown_in_loop
calls-shutdown c = elim (Bool-cases (is_connected c.state)) [
  | inl e ↦ rw e (calls-when (not (is_writing c.channel)))
  | inr e ↦ rw e refl
]
