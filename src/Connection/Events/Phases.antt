-- ===== src/Connection/Events/Phases.antt =====
-- What each callback of cobra/tcp_connection.cpp does to a connection that is open or closed.
use cobra.Base.{
  ℕ, ◌+◌, ◌≤◌, ◌≡◌, refl, ap, ◌∙◌, List, [], ◌∷◌, ◌++◌, some, length, ltb, arith, true, false, ◌||◌,
  Bool-cases, inl, inr, ◌⊎◌,
}
use cobra.Channel.{read_cb, write_cb, is_writing}
use cobra.Buffer.{max_size}
use cobra.Buffer.Content.{contents}
use cobra.Buffer.ReadFd.{ReadvResult, failed, stored, offered, extra_size}
use cobra.Connection.{
  disconnected, Effect, wrote, queued_write_complete, queued_high_water, updated_channel,
  removed_channel, shut_write, called_connection, called_message, called_close, logged_error,
  Connection, is_connected, is_disconnecting,
}
use cobra.Connection.Output.{IsValid, calls}
use cobra.Connection.Output.Flush.{handle_write_lem}
use cobra.Connection.Reads.{closed, is_open, handle_read_lem, handle_read_failed}
use cobra.Connection.Events.{Io, on_event, IsIo}

-- A connection and the effects of an event so far: still open and the user not told, or closed and
-- told once.
pub record Open (s : Connection × List Effect) : Type 0 where
  pub valid : IsValid s.0
  pub up : is_open s.0 ≡ true
  pub untold : calls s.1 ≡ 0

pub record Closed (s : Connection × List Effect) : Type 0 where
  pub valid : IsValid s.0
  pub down : s.0.state ≡ disconnected
  pub muted : is_writing s.0.channel ≡ false
  pub told : calls s.1 ≡ 1

pub calls-append : (es fs : List Effect) → calls (es ++ fs) ≡ calls es + calls fs
calls-append [] fs = omega arith
calls-append (wrote bytes ∷ es) fs = calls-append es fs
calls-append (queued_write_complete ∷ es) fs = calls-append es fs
calls-append (queued_high_water n ∷ es) fs = calls-append es fs
calls-append (updated_channel ∷ es) fs = calls-append es fs
calls-append (removed_channel ∷ es) fs = calls-append es fs
calls-append (shut_write ∷ es) fs = calls-append es fs
calls-append (called_connection ∷ es) fs = omega (arith, calls-append es fs)
calls-append (called_message xs ∷ es) fs = calls-append es fs
calls-append (called_close ∷ es) fs = calls-append es fs
calls-append (logged_error ∷ es) fs = calls-append es fs

pub closed-Closed :
    (es : List Effect) {c : Connection}
    → IsValid c
    → calls es ≡ 0
    → Closed (closed c, es ++ updated_channel ∷ called_connection ∷ called_close ∷ [])
closed-Closed es v untold = record {
  valid = record {
    output_sound = v.output_sound;
    input_sound = v.input_sound;
    drained = λ up off. cc;
  };
  down = refl;
  muted = refl;
  told = omega (arith, calls-append es (updated_channel ∷ called_connection ∷ called_close ∷ []));
}

pub write-Open :
    {io : Io} (s : Connection × List Effect)
    → IsIo io
    → Open s
    → (s' : Connection × List Effect) × (on_event io write_cb s ≡ some s') × Open s'
write-Open {io} (c, es) ok o =
    let (c', fs, e, f) = handle_write_lem io.write ok.write_within o.valid in
    (
      (c', es ++ fs),
      rw e refl,
      record {
        valid = f.valid;
        up = ap (λ s. is_connected s || is_disconnecting s) f.same_state ∙ o.up;
        untold = omega (arith, calls-append es fs, o.untold, f.untold);
      },
    )

pub write-Closed :
    {io : Io} (s : Connection × List Effect)
    → IsIo io
    → Closed s
    → (s' : Connection × List Effect) × (on_event io write_cb s ≡ some s') × Closed s'
write-Closed {io} (c, es) ok o =
    let (c', fs, e, f) = handle_write_lem io.write ok.write_within o.valid in
    (
      (c', es ++ fs),
      rw e refl,
      record {
        valid = f.valid;
        down = f.same_state ∙ o.down;
        muted = f.muted o.muted;
        told = omega (arith, calls-append es fs, o.told, f.untold);
      },
    )

readv_cases :
    (r : ReadvResult) → ((x : ℕ) × (r ≡ failed x)) ⊎ ((bytes : List ℕ) × (r ≡ stored bytes))
readv_cases (failed x) = inl (x, refl)
readv_cases (stored bytes) = inr (bytes, refl)

pub read-Open :
    {io : Io} (s : Connection × List Effect)
    → IsIo io
    → length s.0.input.store + extra_size ≤ max_size
    → Open s
    → (s' : Connection × List Effect) × (on_event io read_cb s ≡ some s') × (Open s' ⊎ Closed s')
read-Open {io} (c, es) ok room o = elim (readv_cases (io.readv (offered c.input))) [
  | inl (x, e) ↦ (
    (c, es ++ logged_error ∷ logged_error ∷ []),
    rw (handle_read_failed io.readv io.message x c e) refl,
    inl (record {
      valid = o.valid;
      up = o.up;
      untold = omega (arith, calls-append es (logged_error ∷ logged_error ∷ []), o.untold);
    }),
  )
  | inr (bytes, e) ↦
      let (input, v, held, r) =
        handle_read_lem io.readv io.message bytes c o.valid.input_sound room o.up e
          (ok.readv_within _ bytes e) in
      elim (Bool-cases (ltb 0 (length bytes))) [
        | inl more ↦ (
          (
            record c { input = io.message input },
            es ++ called_message (contents c.input ++ bytes) ∷ [],
          ),
          rw (r, more) refl,
          inl (record {
            valid = record {
              output_sound = o.valid.output_sound;
              input_sound = ok.message_valid input v;
              drained = o.valid.drained;
            };
            up = o.up;
            untold = omega (
              arith,
              calls-append es (called_message (contents c.input ++ bytes) ∷ []),
              o.untold,
            );
          }),
        )
        | inr eof ↦ (
          (
            closed (record c { input = input }),
            es ++ updated_channel ∷ called_connection ∷ called_close ∷ [],
          ),
          rw (r, eof) refl,
          inr (
              closed-Closed es {c = record c { input = input }}
                (record {
                  output_sound = o.valid.output_sound;
                  input_sound = v;
                  drained = o.valid.drained;
                })
                o.untold),
        )
      ]
]
