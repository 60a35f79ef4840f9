-- ===== src/Connector.antt =====
-- cobra/connector.h and cobra/connector.cpp: the client's side of setting a connection up, with
-- retries. The socket and the errno of connect(2) are parameters; what a handler does outside the
-- connector is a list of effects in order. A failed assertion is `none`.
pub mod Life
pub mod Delay
mod Tests
use cobra.Base.{
  ℕ, ◌*◌, ◌≡◌, Bool, true, false, List, [], ◌∷◌, ◌++◌, Option, none, some, if◌then◌else◌, check,
  ◌>>=◌, ◌>>◌, min, ◌==◌, not,
}
use cobra.Channel.{Channel, with_writing, with_nothing}
use cobra.Channel

-- States
pub data State : Type 0 where
  disconnected connecting connected : State

abbrev pub init_retry_delay : ℕ
init_retry_delay = 500

abbrev pub max_retry_delay : ℕ
max_retry_delay = 30000

pub record Connector : Type 0 where
  pub state : State
  pub connect : Bool
  pub channel : Option Channel
  pub retry_delay : ℕ

pub data Effect : Type 0 where
  opened : ℕ → Effect
  closed : ℕ → Effect
  handed : ℕ → Effect
  updated_channel : Effect
  removed_channel : Effect
  queued_reset : Effect
  queued_stop : Effect
  retried_after : ℕ → Effect

abbrev pub Outcome : Type 0
Outcome = Option (Connector × List Effect)

abbrev pub is_disconnected : State → Bool
is_disconnected disconnected = true
is_disconnected _ = false

abbrev pub is_connecting : State → Bool
is_connecting connecting = true
is_connecting _ = false

abbrev pub is_empty : Option Channel → Bool
is_empty none = true
is_empty (some _) = false

-- Connector::Connector
pub new : Connector
new = record {
  state = disconnected;
  connect = false;
  channel = none;
  retry_delay = init_retry_delay;
}

-- The values of errno that Connector::connect tells apart.
pub data Errno : Type 0 where
  e_none e_in_progress e_intr e_is_conn : Errno
  e_again e_addr_in_use e_addr_not_avail e_conn_refused e_net_unreach : Errno
  e_acces e_perm e_af_no_support e_already e_badf e_fault e_not_sock : Errno
  e_other : Errno

pub data Verdict : Type 0 where
  goes_on tries_again gives_up : Verdict

-- The switch of Connector::connect.
abbrev pub verdict : Errno → Verdict
verdict e_none = goes_on
verdict e_in_progress = goes_on
verdict e_intr = goes_on
verdict e_is_conn = goes_on
verdict e_again = tries_again
verdict e_addr_in_use = tries_again
verdict e_addr_not_avail = tries_again
verdict e_conn_refused = tries_again
verdict e_net_unreach = tries_again
verdict e_acces = gives_up
verdict e_perm = gives_up
verdict e_af_no_support = gives_up
verdict e_already = gives_up
verdict e_badf = gives_up
verdict e_fault = gives_up
verdict e_not_sock = gives_up
verdict e_other = gives_up

-- Connector::connecting
pub start_connecting : ℕ → Connector → Outcome
start_connecting fd c = do
  check (is_empty c.channel)
  some (
    record c { state = connecting; channel = some (with_writing (wired fd)) },
    updated_channel ∷ [],
  )
  where
    wired : ℕ → Channel
    wired n = let ch = Channel.new n in record ch { has_write = true; has_error = true }

-- Connector::retry
pub retry : ℕ → Connector → Connector × List Effect
retry fd c =
    if c.connect
    then (
      record c { state = disconnected; retry_delay = min (c.retry_delay * 2) max_retry_delay },
      closed fd ∷ retried_after c.retry_delay ∷ [],
    )
    else (record c { state = disconnected }, closed fd ∷ [])

-- Connector::connect
pub connect_to : ℕ → Errno → Connector → Outcome
connect_to fd errno c = elim (verdict errno) [
  | goes_on ↦ (do (c', es) ← start_connecting fd c; some (c', opened fd ∷ es))
  | tries_again ↦ some ((retry fd c).0, opened fd ∷ (retry fd c).1)
  | gives_up ↦ some (c, opened fd ∷ closed fd ∷ [])
]

-- Connector::startInLoop
pub start_in_loop : ℕ → Errno → Connector → Outcome
start_in_loop fd errno c = do
  check (is_disconnected c.state)
  if c.connect then connect_to fd errno c else some (c, [])

-- Connector::start in the loop's thread.
pub start : ℕ → Errno → Connector → Outcome
start fd errno c = start_in_loop fd errno (record c { connect = true })

-- Connector::removeAndResetChannel; a missing channel is a failed assertion of scoped_ptr.
pub remove_and_reset_channel : Connector → Option (ℕ × Connector × List Effect)
remove_and_reset_channel c = do
  ch ← c.channel
  some (
    ch.fd,
    record c { channel = some (with_nothing ch) },
    updated_channel ∷ removed_channel ∷ queued_reset ∷ [],
  )

-- Connector::resetChannel
pub reset_channel : Connector → Connector
reset_channel c = record c { channel = none }

-- What follows removeAndResetChannel where the attempt is given up: a retry.
pub retry_removed : Connector → Outcome
retry_removed c = do
  (fd, c', es) ← remove_and_reset_channel c
  some ((retry fd c').0, es ++ (retry fd c').1)

-- Connector::stop
pub stop : Connector → Connector × List Effect
stop c = (record c { connect = false }, queued_stop ∷ [])

-- Connector::stopInLoop
pub stop_in_loop : Connector → Outcome
stop_in_loop c =
    if is_connecting c.state
    then retry_removed (record c { state = disconnected })
    else some (c, [])

-- The part of handleWrite behind a connect(2) that succeeded.
pub succeed : Connector → Outcome
succeed c = do
  (fd, c', es) ← remove_and_reset_channel c
  some (record c' { state = connected }, es ++ (if c.connect then handed fd else closed fd) ∷ [])

-- Connector::handleWrite; `err` is SO_ERROR, `self` what isSelfConnect says.
pub handle_write : ℕ → Bool → Connector → Outcome
handle_write err self c =
    if is_connecting c.state
    then (if not (err == 0) then retry_removed c else if self then retry_removed c else succeed c)
    else (do check (is_disconnected c.state); some (c, []))

-- Connector::handleError
pub handle_error : Connector → Outcome
handle_error c = if is_connecting c.state then retry_removed c else some (c, [])

-- Connector::restart
pub restart : ℕ → Errno → Connector → Outcome
restart fd errno c =
    start_in_loop fd errno
      (record c { state = disconnected; retry_delay = init_retry_delay; connect = true })
