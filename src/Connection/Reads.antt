-- ===== src/Connection/Reads.antt =====
-- The reads of a connection: cobra/tcp_connection.cpp handleRead.
use cobra.Base.{
  ℕ, ◌+◌, ◌≤◌, ◌≡◌, refl, ap, List, [], ◌∷◌, ◌++◌, some, length, ltb, Bool, true, if◌then◌else◌,
  ◌||◌, Bool-cases, inl, inr,
}
use cobra.Channel.{with_nothing}
use cobra.Buffer.{Buffer, max_size}
use cobra.Buffer.Content.{contents}
use cobra.Buffer.Space
use cobra.Buffer.ReadFd.{
  ReadvResult, failed, stored, read_fd, read_fd_lem, offered, extra_size, sum,
}
use cobra.Connection.{
  disconnected, updated_channel, called_connection, called_message, called_close, logged_error,
  Connection, is_connected, is_disconnecting, handle_close, handle_read, handle_error,
}

-- A connection that handleClose has taken down.
abbrev pub closed : Connection → Connection
closed c = record c { state = disconnected; channel = with_nothing c.channel }

abbrev pub is_open : Connection → Bool
is_open c = is_connected c.state || is_disconnecting c.state

pub handle_close_open :
    (c : Connection)
    → is_open c ≡ true
    → handle_close c ≡ some (closed c, updated_channel ∷ called_connection ∷ called_close ∷ [])
unfolding handle_close
handle_close_open c up = rw up refl

-- handleRead of a connection that is open, after a successful readv that stores no more than it is
-- offered, while the input buffer may still grow by the array of readFd. With at least one byte it hands
-- the message callback all that the input held and then the new bytes, in order; with none, the end of the
-- stream, it closes the connection, without an abort.
pub handle_read_lem :
    (readv : List ℕ → ReadvResult) (message : Buffer → Buffer) (bytes : List ℕ) (c : Connection)
    → Space.IsValid c.input
    → length c.input.store + extra_size ≤ max_size
    → is_open c ≡ true
    → readv (offered c.input) ≡ stored bytes
    → length bytes ≤ sum (offered c.input)
    → (input : Buffer) × Space.IsValid input
      × (contents input ≡ contents c.input ++ bytes)
      × (handle_read readv message c
          ≡ some (
              if ltb 0 (length bytes)
              then (
                record c { input = message input },
                called_message (contents c.input ++ bytes) ∷ [],
              )
              else (
                closed (record c { input = input }),
                updated_channel ∷ called_connection ∷ called_close ∷ [],
              )))
unfolding handle_read
handle_read_lem readv message bytes c v room up read fits =
    let (input, e, v', held) = read_fd_lem readv bytes v room read fits in
    elim (Bool-cases (ltb 0 (length bytes))) [
      | inl more ↦ (
        input,
        v',
        held,
        rw (e, more)
            (ap (λ xs. some (record c { input = message input }, called_message xs ∷ [])) held),
      )
      | inr eof ↦ (input, v', held, rw (e, eof) (handle_close_open (record c { input = input }) up))
    ]

-- handleRead of a readv that failed logs and leaves the connection as it is.
pub handle_read_failed :
    (readv : List ℕ → ReadvResult) (message : Buffer → Buffer) (errno : ℕ) (c : Connection)
    → readv (offered c.input) ≡ failed errno
    → handle_read readv message c ≡ some (c, logged_error ∷ logged_error ∷ [])
unfolding handle_read handle_error read_fd
handle_read_failed readv message errno c e = rw (e, read_fd) refl
