-- ===== src/Connection.antt =====
-- cobra/tcp_connection.h and cobra/tcp_connection.cpp: one TCP connection in its event loop's thread.
-- The system calls are parameters; what a handler does outside the connection is a list of effects in
-- order. A failed assertion is `none`.
pub mod Output
pub mod Stream
pub mod Close
pub mod Reads
pub mod Events
pub mod Turns
mod Tests
use cobra.Base.{
  ℕ, ◌+◌, ◌-◌, ◌*◌, ◌≡◌, Bool, true, false, not, ◌&&◌, ◌||◌, List, [], ◌∷◌, ◌++◌, Option, none,
  some, length, take, drop, ltb, leb, ◌==◌, if◌then◌else◌, check, ◌>>=◌, ◌>>◌,
}
use cobra.Channel.{
  Channel, is_writing, is_none_event, with_reading, with_writing, without_writing, with_nothing,
  tie,
}
use cobra.Channel
use cobra.Buffer.{Buffer, append, retrieve, readable_bytes, retrieve_all, bytes_at, add_size}
use cobra.Buffer
use cobra.Buffer.Content.{contents}
use cobra.Buffer.ReadFd.{ReadvResult, ReadCount, read_error, read_count, read_fd}

-- StateE
pub data State : Type 0 where
  disconnected connecting connected disconnecting : State

pub data Errno : Type 0 where
  would_block broken_pipe conn_reset other_errno : Errno

-- What write(2) reports of the bytes that it is given: how many it took, or an errno.
pub data WriteResult : Type 0 where
  took : ℕ → WriteResult
  refused : Errno → WriteResult

pub data Effect : Type 0 where
  wrote : List ℕ → Effect
  queued_write_complete : Effect
  queued_high_water : ℕ → Effect
  updated_channel : Effect
  removed_channel : Effect
  shut_write : Effect
  called_connection : Effect
  called_message : List ℕ → Effect
  called_close : Effect
  logged_error : Effect

pub record Connection : Type 0 where
  pub state : State
  pub channel : Channel
  pub input : Buffer
  pub output : Buffer
  pub high_water_mark : ℕ
  -- whether the callback is set
  pub has_write_complete : Bool
  pub has_high_water : Bool

abbrev pub Outcome : Type 0
Outcome = Option (Connection × List Effect)

abbrev pub is_connected : State → Bool
is_connected connected = true
is_connected _ = false

abbrev pub is_disconnected : State → Bool
is_disconnected disconnected = true
is_disconnected _ = false

abbrev pub is_disconnecting : State → Bool
is_disconnecting disconnecting = true
is_disconnecting _ = false

-- TcpConnection::TcpConnection, with every callback of its channel set.
pub new : ℕ → Connection
new fd = record {
  state = connecting;
  channel =
      let c = Channel.new fd in
      record c { has_read = true; has_write = true; has_close = true; has_error = true };
  input = Buffer.new;
  output = Buffer.new;
  high_water_mark = 64 * 1024 * 1024;
  has_write_complete = false;
  has_high_water = false;
}

-- The errors after which sendInLoop gives the data up.
abbrev pub is_fault : Errno → Bool
is_fault broken_pipe = true
is_fault conn_reset = true
is_fault _ = false

-- The direct write of sendInLoop: the bytes written, whether a fault was met, and the effects.
pub record Attempt : Type 0 where
  pub nwrote : ℕ
  pub fault : Bool
  pub effects : List Effect

abbrev pub when : Bool → Effect → List Effect
when true e = e ∷ []
when false e = []

pub write_directly : (List ℕ → WriteResult) → List ℕ → Connection → Attempt
write_directly write bytes c =
    if not (is_writing c.channel) && (readable_bytes c.output == 0)
    then elim (write bytes) [
      | took n ↦ record {
        nwrote = n;
        fault = false;
        effects =
            wrote (take n bytes)
            ∷ when ((length bytes - n == 0) && c.has_write_complete) queued_write_complete;
      }
      | refused e ↦ record { nwrote = 0; fault = is_fault e; effects = [] }
    ]
    else record { nwrote = 0; fault = false; effects = [] }

-- The second half of sendInLoop: what is left goes to the output buffer.
pub keep_rest : List ℕ → Connection → Outcome
keep_rest rest c = do
  let old_len = readable_bytes c.output
  let total = add_size old_len (length rest)
  let high = leb c.high_water_mark total && (ltb old_len c.high_water_mark && c.has_high_water)
  output ← append rest c.output
  some (
    record c {
      output = output;
      channel = if is_writing c.channel then c.channel else with_writing c.channel;
    },
    when high (queued_high_water total) ++ when (not (is_writing c.channel)) updated_channel,
  )

-- TcpConnection::sendInLoop
pub send_in_loop : (List ℕ → WriteResult) → List ℕ → Connection → Outcome
send_in_loop write bytes c =
    let attempt = write_directly write bytes c in
    let rest = drop attempt.nwrote bytes in
    let kept = (do (c', es) ← keep_rest rest c; some (c', attempt.effects ++ es)) in
    if is_disconnected c.state
    then some (c, [])
    else if not attempt.fault && ltb 0 (length bytes - attempt.nwrote)
    then kept
    else some (c, attempt.effects)

-- TcpConnection::send in the loop's thread.
pub send : (List ℕ → WriteResult) → List ℕ → Connection → Outcome
send write bytes c = if is_connected c.state then send_in_loop write bytes c else some (c, [])

-- TcpConnection::shutdownInLoop
pub shutdown_in_loop : Connection → List Effect
shutdown_in_loop c = when (not (is_writing c.channel)) shut_write

-- TcpConnection::shutdown in the loop's thread.
pub shutdown : Connection → Connection × List Effect
shutdown c =
    if is_connected c.state
    then (record c { state = disconnecting }, shutdown_in_loop (record c { state = disconnecting }))
    else (c, [])

-- The part of handleWrite behind a write(2) that took `n` bytes, more than none.
pub after_write : ℕ → Connection → Outcome
after_write n c = do
  output ← retrieve n c.output
  let left = record c { output = output }
  let quiet = record left { channel = without_writing c.channel }
  some (
      if readable_bytes output == 0
      then (
        quiet,
        updated_channel ∷ when c.has_write_complete queued_write_complete
            ++ (if is_disconnecting c.state then shutdown_in_loop quiet else []),
      )
      else (left, []))

-- The part of handleWrite behind its test of isWriting.
pub write_out : (List ℕ → WriteResult) → Connection → Outcome
write_out write c = elim (write (contents c.output)) [
  | took n ↦ (do
    (c', es) ← if ltb 0 n then after_write n c else some (c, [])
    some (c', wrote (take n (contents c.output)) ∷ es))
  | refused _ ↦ some (c, [])
]

-- TcpConnection::handleWrite
pub handle_write : (List ℕ → WriteResult) → Connection → Outcome
handle_write write c = if is_writing c.channel then write_out write c else some (c, [])

-- TcpConnection::ConnectionEstablished
pub connection_established : Connection → Outcome
connection_established c = elim (c.state) [
  | connecting ↦ some (
    record c { state = connected; channel = with_reading (tie c.channel) },
    updated_channel ∷ called_connection ∷ [],
  )
  | _ ↦ none
]

-- TcpConnection::ConnectionDestroyed; Channel::remove asserts that the channel has no events.
pub connection_destroyed : Connection → Outcome
connection_destroyed c = do
  let gone : Connection = record c { state = disconnected; channel = with_nothing c.channel }
  let down : Connection × List Effect =
      if is_connected c.state then (gone, updated_channel ∷ called_connection ∷ []) else (c, [])
  check (is_none_event down.0.channel)
  some (down.0, down.1 ++ removed_channel ∷ [])

-- TcpConnection::handleClose
pub handle_close : Connection → Outcome
handle_close c = do
  check (is_connected c.state || is_disconnecting c.state)
  some (
    record c { state = disconnected; channel = with_nothing c.channel },
    updated_channel ∷ called_connection ∷ called_close ∷ [],
  )

-- TcpConnection::handleError
pub handle_error : Connection → Connection × List Effect
handle_error c = (c, logged_error ∷ [])

-- TcpConnection::handleRead. The user's message callback is a parameter, from the input buffer to what
-- it leaves of it.
pub handle_read : (List ℕ → ReadvResult) → (Buffer → Buffer) → Connection → Outcome
handle_read readv message c = do
  (result, input) ← read_fd readv c.input
  let read = record c { input = input }
  elim result [
    | read_error _ ↦ some (read, logged_error ∷ (handle_error read).1)
    | read_count n ↦
        let closed = handle_close read in
        if ltb 0 n
        then some (record read { input = message input }, called_message (contents input) ∷ [])
        else closed
  ]

-- defaultMessageCb
pub default_message_cb : Buffer → Buffer
default_message_cb b = retrieve_all b
