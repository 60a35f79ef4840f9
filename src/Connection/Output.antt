-- ===== src/Connection/Output.antt =====
-- The way of the bytes out of a connection: cobra/tcp_connection.cpp sendInLoop and handleWrite.
pub mod Send
pub mod Flush
use cobra.Base.{
  ℕ, zero, suc, ◌+◌, ◌-◌, ◌≤◌, ◌<◌, ◌≡◌, ◌≢◌, refl, ap, ap₂, sym, subst, ◌∙◌, List, [], ◌∷◌, ◌++◌,
  Option, none, some, length, take, drop, length-append, arith, ◌⊎◌, inl, inr, Bool, true, false,
  if◌then◌else◌, ◌&&◌, ◌==◌, not, ltb, leb, length-drop, length-take, ltb→lt, ==_iff, ==_self,
  ==_ne, Bool-cases, Option-cases, check, ◌>>=◌, ◌>>◌, append-nil, append_assoc, take_all, drop_all,
  take-append-drop, length-append, leb→le, max,
}
use cobra.Channel.{Channel, is_writing, with_writing, without_writing}
use cobra.Buffer.{Buffer, append, retrieve, readable_bytes, max_size, add_size, cheap_prepend}
use cobra.Buffer.Content.{contents, length-contents}
use cobra.Buffer.Space
use cobra.Buffer.Append.{append_lem}
use cobra.Buffer.Retrieve.{retrieve_lem}
use cobra.Connection.{
  State, disconnected, connecting, connected, disconnecting, Errno, WriteResult, took, refused,
  Effect, wrote, queued_write_complete, queued_high_water, updated_channel, shut_write,
  removed_channel, called_connection, called_message, called_close, logged_error, Connection,
  Attempt, when, write_directly, keep_rest, send_in_loop, is_disconnected, is_disconnecting,
  is_fault, after_write, handle_write, write_out, Outcome, shutdown_in_loop,
}

-- The bytes that effects put on the wire, in order.
abbrev pub sent : List Effect → List ℕ
sent [] = []
sent (wrote bytes ∷ es) = bytes ++ sent es
sent (_ ∷ es) = sent es

-- Whether the write side of the socket is shut.
abbrev pub shuts : List Effect → Bool
shuts [] = false
shuts (shut_write ∷ es) = true
shuts (_ ∷ es) = shuts es

-- How often the user's connection callback is called.
abbrev pub calls : List Effect → ℕ
calls [] = 0
calls (called_connection ∷ es) = suc (calls es)
calls (_ ∷ es) = calls es

-- write(2) takes no more than it is given.
abbrev pub IsWrite : (List ℕ → WriteResult) → Type 0
IsWrite write = (bytes : List ℕ) (n : ℕ) → write bytes ≡ took n → n ≤ length bytes

-- Both buffers are sound, and a connection that is not down and does not wait for the socket to
-- become writable has nothing to write.
pub record IsValid (c : Connection) : Type 0 where
  pub output_sound : Space.IsValid c.output
  pub input_sound : Space.IsValid c.input
  pub drained :
      is_disconnected c.state ≡ false → is_writing c.channel ≡ false → contents c.output ≡ []

pub readable-contents : {b : Buffer} → Space.IsValid b → readable_bytes b ≡ length (contents b)
readable-contents v = omega (arith, length-contents v)

pub nil_of_length : (xs : List ℕ) → length xs ≡ 0 → xs ≡ []
nil_of_length [] e = refl
nil_of_length (x ∷ xs) e = absurd (omega arith)

pub write_cases : (r : WriteResult) → ((n : ℕ) × (r ≡ took n)) ⊎ ((x : Errno) × (r ≡ refused x))
write_cases (took n) = inl (n, refl)
write_cases (refused x) = inr (x, refl)
