-- ===== src/Connection/Events.antt =====
-- A poller's event at a connection: cobra/channel.cpp handleEvent with the callbacks that the
-- constructor in cobra/tcp_connection.cpp registers.
pub mod Phases
pub mod Safe
use cobra.Base.{
  ℕ, suc, ◌+◌, ◌≤◌, ◌≡◌, refl, ap, ap₂, sym, ◌∙◌, List, [], ◌∷◌, ◌++◌, Option, none, some, length,
  ltb, arith, Bool, true, false, not, if◌then◌else◌, ◌||◌, ◌&&◌, Bool-cases, ◌>>=◌, ◌>>◌, inl, inr,
  ◌⊎◌,
}
use cobra.Channel.{
  Channel, Mask, Callback, close_cb, error_cb, read_cb, write_cb, run_when, handle_event,
  handle_event_with_guard, is_writing,
}
use cobra.Buffer.{Buffer, max_size}
use cobra.Buffer.Content.{contents}
use cobra.Buffer.Space
use cobra.Buffer.ReadFd.{ReadvResult, failed, stored, offered, extra_size, sum}
use cobra.Connection.{
  State, connecting, connected, disconnecting, disconnected, WriteResult, Effect, wrote,
  queued_write_complete, queued_high_water, updated_channel, removed_channel, shut_write,
  called_connection, called_message, called_close, logged_error, Connection, Outcome, is_connected,
  is_disconnecting, is_disconnected, handle_close, handle_error, handle_read, handle_write,
}
use cobra.Connection.Output.{IsValid, IsWrite, calls}
use cobra.Connection.Output.Flush.{Flushed, handle_write_lem}
use cobra.Connection.Reads.{closed, is_open, handle_close_open, handle_read_lem, handle_read_failed}

-- The system calls and the message callback that a connection is given.
pub record Io : Type 0 where
  pub readv : List ℕ → ReadvResult
  pub write : List ℕ → WriteResult
  pub message : Buffer → Buffer

-- The callbacks that TcpConnection::TcpConnection sets.
abbrev pub callback : Io → Callback → Connection → Outcome
callback io close_cb c = handle_close c
callback io error_cb c = some (handle_error c)
callback io read_cb c = handle_read io.readv io.message c
callback io write_cb c = handle_write io.write c

abbrev pub on_event : Io → Callback → Connection × List Effect → Outcome
on_event io k (c, es) = do (c', fs) ← callback io k c; some (c', es ++ fs)

abbrev pub marked : Bool → Connection × List Effect → Connection × List Effect
marked b (c, es) = (record c { channel = channel }, es)
  where
    channel : Channel
    channel = let ch = c.channel in record ch { event_handling = b }

-- The system calls keep to their manual, and the message callback keeps the buffer valid.
pub record IsIo (io : Io) : Type 0 where
  pub write_within : IsWrite io.write
  pub readv_within :
      (lengths bytes : List ℕ) → io.readv lengths ≡ stored bytes → length bytes ≤ sum lengths
  pub message_valid : (b : Buffer) → Space.IsValid b → Space.IsValid (io.message b)
