-- ===== src/Connector/Life.antt =====
-- A connector in its event loop, through all that can happen to it: cobra/connector.cpp.
pub mod Phases
pub mod Run
use cobra.Base.{
  ℕ, zero, suc, ◌+◌, ◌-◌, ◌*◌, ◌≤◌, ◌≡◌, refl, ap, ◌∙◌, Bool, true, false, List, [], ◌∷◌, ◌++◌,
  Option, none, some, if◌then◌else◌, check, ◌>>=◌, ◌>>◌, min, ltb, ◌==◌, not, arith, ◌&&◌, ◌⊎◌,
  Bool-cases, inl, inr, ==_self, ==_ne,
}
use cobra.Channel.{Channel, with_writing, with_nothing}
use cobra.Channel
use cobra.Connector.{
  State, disconnected, connecting, connected, Connector, new, Effect, opened, closed, handed,
  updated_channel, removed_channel, queued_reset, queued_stop, retried_after, Outcome, Errno,
  verdict, goes_on, tries_again, gives_up, Verdict, is_disconnected, is_connecting, is_empty,
  start_connecting, retry, connect_to, start_in_loop, remove_and_reset_channel, reset_channel,
  retry_removed, stop, stop_in_loop, succeed, handle_write, handle_error, init_retry_delay,
  max_retry_delay,
}

-- The connector with what it has set going: the descriptors that it must still close or hand on, and
-- the resets and retries that wait in the loop.
pub record World : Type 0 where
  pub conn : Connector
  pub owned : List ℕ
  pub resets : ℕ
  pub timers : ℕ

-- A descriptor leaves the owned ones once; one that is not owned cannot.
abbrev pub release : ℕ → List ℕ → Option (List ℕ)
release fd [] = none
release fd (x ∷ xs) = if x == fd then some xs else release fd xs >>= λ ys. some (x ∷ ys)

abbrev pub apply : Effect → World → Option World
apply (opened fd) w = some (record w { owned = fd ∷ w.owned })
apply (closed fd) w = release fd w.owned >>= λ left. some (record w { owned = left })
apply (handed fd) w = release fd w.owned >>= λ left. some (record w { owned = left })
apply queued_reset w = some (record w { resets = suc w.resets })
apply (retried_after delay) w = some (record w { timers = suc w.timers })
apply _ w = some w

abbrev pub apply_all : List Effect → World → Option World
apply_all [] w = some w
apply_all (e ∷ es) w = apply e w >>= apply_all es

-- What the loop may call. A retry carries the new socket and the errno of connect(2), a write event
-- SO_ERROR and whether the socket is connected to itself.
pub data Event : Type 0 where
  fires : ℕ → Errno → Event
  writes : ℕ → Bool → Event
  fails : Event
  resets_channel : Event
  stops : Event
  stops_in_loop : Event

-- Whether the loop can call it: a timer that runs, after the functors queued before it; a channel
-- that the connector still has; a queued reset. A channel that has connected is not watched any more.
abbrev pub is_possible : Event → World → Bool
is_possible (fires fd errno) w = not (w.timers == 0) && (w.resets == 0)
is_possible (writes err self) w = not (is_empty w.conn.channel) && not (is_connected w.conn.state)
  where
    is_connected : State → Bool
    is_connected connected = true
    is_connected _ = false
is_possible fails w = not (is_empty w.conn.channel)
is_possible resets_channel w = not (w.resets == 0)
is_possible stops w = true
is_possible stops_in_loop w = true

abbrev pub called : Event → World → Option (World × List Effect)
called (fires fd errno) w = do
  (c, es) ← start_in_loop fd errno w.conn
  some (record w { conn = c; timers = w.timers - 1 }, es)
called (writes err self) w = do
  (c, es) ← handle_write err self w.conn
  some (record w { conn = c }, es)
called fails w = do (c, es) ← handle_error w.conn; some (record w { conn = c }, es)
called resets_channel w = some (record w { conn = reset_channel w.conn; resets = w.resets - 1 }, [])
called stops w = some (record w { conn = (stop w.conn).0 }, (stop w.conn).1)
called stops_in_loop w = do (c, es) ← stop_in_loop w.conn; some (record w { conn = c }, es)

-- An event that cannot happen is passed over.
abbrev pub step : Event → World → Option World
step e w = if is_possible e w then called e w >>= (λ (w', es). apply_all es w') else some w

abbrev pub run : List Event → World → Option World
run [] w = some w
run (e ∷ es) w = step e w >>= run es

-- The descriptors that a connector must hold: the one that it is connecting with.
abbrev pub held : Connector → List ℕ
held c = if is_connecting c.state then fd_of c.channel else []
  where
    fd_of : Option Channel → List ℕ
    fd_of none = []
    fd_of (some ch) = ch.fd ∷ []

abbrev pub IsBounded : ℕ → Type 0
IsBounded delay = (init_retry_delay ≤ delay) × (delay ≤ max_retry_delay)

-- A connector in a state between two events: its descriptors accounted for, at most one retry and one
-- reset waiting, none of them while it is connecting, and the delay in its bounds.
pub record IsSound (w : World) : Type 0 where
  pub account : w.owned ≡ held w.conn
  pub one_timer : w.timers ≤ 1
  pub one_reset : w.resets ≤ 1
  pub quiet : is_connecting w.conn.state ≡ true → (w.timers ≡ 0) × (w.resets ≡ 0)
  pub bounded : IsBounded w.conn.retry_delay

-- Just after start(): startInLoop is to run.
abbrev pub started : World
started = record {
  conn = let c = new in record c { connect = true };
  owned = [];
  resets = 0;
  timers = 1;
}
