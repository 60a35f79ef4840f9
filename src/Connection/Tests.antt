-- ===== src/Connection/Tests.antt =====
-- The theorems on connections at connections whose socket takes three bytes at a time.
use cobra.Base.{
  zero, suc, ℕ, ◌≤◌, ◌≡◌, refl, List, [], ◌∷◌, ◌++◌, none, some, length, arith, true, false, ltb,
  if◌then◌else◌, ◌⊎◌,
}
use cobra.Channel.{Channel, Mask, with_writing, with_reading, none_event, handle_event}
use cobra.Buffer.{Buffer, readable_bytes, max_size}
use cobra.Buffer
use cobra.Buffer.Space
use cobra.Buffer.Content.{contents}
use cobra.Buffer.ReadFd.{ReadvResult, stored, sum}
use cobra.Connection.{
  connected, disconnected, disconnecting, WriteResult, Errno, took, refused, Connection, Effect,
  updated_channel, called_connection, called_message, called_close, handle_write, handle_read,
  connection_destroyed, shutdown, new, is_fault,
}
use cobra.Connection.Output.{IsValid, IsWrite, calls}
use cobra.Connection.Output.Flush.{Flushed, handle_write_lem}
use cobra.Connection.Stream.{
  Event, sends, writable, shuts_down, Trace, Inv, IsHealthy, run, run-Inv,
}
use cobra.Connection.Close.{connection_destroyed-shutdown}
use cobra.Connection.Reads.{closed, is_open, handle_read_lem}
use cobra.Connection.Events.{Io, on_event, marked, IsIo}
use cobra.Connection.Events.Safe.{handle_event_lem}

abbrev three_at_most : List ℕ → WriteResult
three_at_most (x ∷ y ∷ z ∷ xs) = took 3
three_at_most xs = took (length xs)

three_within : IsWrite three_at_most
three_within [] n e = ground arith
three_within (x ∷ []) n e = ground arith
three_within (x ∷ y ∷ []) n e = ground arith
three_within (x ∷ y ∷ z ∷ xs) n e = ground arith

three_alive : (bytes : List ℕ) (e : Errno) → three_at_most bytes ≡ refused e → is_fault e ≡ false
three_alive [] n e = cc
three_alive (x ∷ []) n e = cc
three_alive (x ∷ y ∷ []) n e = cc
three_alive (x ∷ y ∷ z ∷ xs) n e = cc

three-IsHealthy : IsHealthy three_at_most
three-IsHealthy = record { within = three_within; alive = three_alive }

-- Up, with nothing to write.
abbrev fresh : Connection
fresh = let c = new 7 in record c { state = connected }

-- Up, with "hello" left to write, and watching for that.
abbrev half_sent : Connection
half_sent =
    let c = new 7 in
    record c {
      state = disconnecting;
      channel = with_writing (let ch = c.channel in ch);
      output = record {
        store = 0 ∷ 0 ∷ 0 ∷ 0 ∷ 0 ∷ 0 ∷ 0 ∷ 0 ∷ 104 ∷ 101 ∷ 108 ∷ 108 ∷ 111 ∷ [];
        reader_index = 8;
        writer_index = 13;
      };
    }

fresh-IsValid : IsValid fresh
unfolding new Buffer.new
fresh-IsValid = record {
  output_sound = omega arith;
  input_sound = omega arith;
  drained = λ up off. refl;
}

fresh-Inv : Inv (record { conn = fresh; accepted = []; wire = []; fin = false })
unfolding new Buffer.new
fresh-Inv = record {
  valid = fresh-IsValid;
  up = refl;
  order = refl;
  closed = λ e. cc;
  room = omega arith;
}

half_sent-IsValid : IsValid half_sent
unfolding new Buffer.new
half_sent-IsValid = record {
  output_sound = omega arith;
  input_sound = omega arith;
  drained = λ up off. cc;
}

-- Two sends, a shutdown, and the writes of what was left.
abbrev life : List Event
life =
    sends three_at_most (1 ∷ 2 ∷ 3 ∷ 4 ∷ 5 ∷ [])
    ∷ sends three_at_most (6 ∷ 7 ∷ [])
    ∷ shuts_down
    ∷ writable three_at_most
    ∷ sends three_at_most (8 ∷ [])
    ∷ writable three_at_most
    ∷ []

abbrev start : Trace
start = record { conn = fresh; accepted = []; wire = []; fin = false }

run-Inv_example :
    (t' : Trace) × (run life start ≡ some t')
    × (t'.wire ++ contents t'.conn.output ≡ t'.accepted)
    × (t'.fin ≡ true → t'.wire ≡ t'.accepted)
run-Inv_example =
    run-Inv life start fresh-Inv
      (
        three-IsHealthy,
        (three-IsHealthy, (three-IsHealthy, (three-IsHealthy, (three-IsHealthy, tt)))),
      )
      (omega arith)

handle_write_lem_example :
    (c' : Connection) × (es : List Effect) × (handle_write three_at_most half_sent ≡ some (c', es))
    × Flushed half_sent c' es
handle_write_lem_example = handle_write_lem three_at_most three_within half_sent-IsValid

-- Up, and watching for reads.
abbrev watching : Connection
watching = record fresh { channel = with_reading fresh.channel }

connection_destroyed-shutdown_example : connection_destroyed (shutdown watching).0 ≡ none
unfolding new
connection_destroyed-shutdown_example = connection_destroyed-shutdown watching refl refl

-- Disconnecting, with nothing to write.
abbrev shut_down : Connection
shut_down = let c = new 7 in record c { state = disconnecting }

-- A socket from which two bytes are read.
abbrev two_bytes : List ℕ → ReadvResult
two_bytes (suc (suc n) ∷ ns) = stored (1 ∷ 2 ∷ [])
two_bytes lengths = stored []

handle_read_lem_example :
    (input : Buffer) × Space.IsValid input
    × (contents input ≡ contents fresh.input ++ 1 ∷ 2 ∷ [])
    × (handle_read two_bytes (λ b. b) fresh
        ≡ some (
            if ltb 0 2
            then (
              record fresh { input = input },
              called_message (contents fresh.input ++ 1 ∷ 2 ∷ []) ∷ [],
            )
            else (
              closed (record fresh { input = input }),
              updated_channel ∷ called_connection ∷ called_close ∷ [],
            )))
unfolding new Buffer.new
handle_read_lem_example =
    handle_read_lem two_bytes (λ b. b) (1 ∷ 2 ∷ []) fresh fresh-IsValid.input_sound (omega arith)
      refl refl (omega arith)

two_bytes_within :
    (lengths bytes : List ℕ) → two_bytes lengths ≡ stored bytes → length bytes ≤ sum lengths
two_bytes_within [] bytes e = ground arith
two_bytes_within (zero ∷ ns) bytes e = ground arith
two_bytes_within (suc zero ∷ ns) bytes e = ground arith
two_bytes_within (suc (suc n) ∷ ns) bytes e = ground arith

abbrev io : Io
io = record { readv = two_bytes; write = three_at_most; message = λ b. b }

io-IsIo : IsIo io
io-IsIo = record {
  write_within = three_within;
  readv_within = two_bytes_within;
  message_valid = λ b v. v;
}

-- Readable and writable at once.
abbrev ready : Connection
ready = record half_sent { channel = channel }
  where
    channel : Channel
    channel = let ch = half_sent.channel in record ch { revents = mask }
      where
        mask : Mask
        mask = let m = none_event in record m { pollin = true; pollout = true }

ready-IsValid : IsValid ready
unfolding new Buffer.new
ready-IsValid = record {
  output_sound = half_sent-IsValid.output_sound;
  input_sound = half_sent-IsValid.input_sound;
  drained = λ up off. cc;
}

handle_event_lem_example :
    (c' : Connection) × (es : List Effect) × (handle_event
        (on_event io)
        marked
        true
        ready.channel
        (ready, [])
      ≡ some (c', es))
    × IsValid c'
    × (((is_open c' ≡ true) × (calls es ≡ 0)) ⊎ ((c'.state ≡ disconnected) × (calls es ≡ 1)))
unfolding new Buffer.new
handle_event_lem_example =
    handle_event_lem io true ready io-IsIo ready-IsValid refl (omega arith) (λ e. cc)
