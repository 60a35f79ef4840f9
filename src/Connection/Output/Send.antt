-- ===== src/Connection/Output/Send.antt =====
-- cobra/tcp_connection.cpp sendInLoop: nothing of a message is lost, repeated or overtaken.
use cobra.Base.{
  ℕ, ◌+◌, ◌-◌, ◌≤◌, ◌≡◌, refl, ap, ap₂, sym, ◌∙◌, List, [], ◌∷◌, ◌++◌, some, length, take, drop,
  arith, ◌⊎◌, inl, inr, Bool, true, false, if◌then◌else◌, ◌&&◌, ◌==◌, not, ltb, leb, length-drop,
  Bool-cases, append-nil, append_assoc, drop_all, take-append-drop,
}
use cobra.Channel.{Channel, is_writing, with_writing}
use cobra.Buffer.{readable_bytes, max_size, add_size}
use cobra.Buffer.Content.{contents}
use cobra.Buffer.Append.{append_lem}
use cobra.Connection.{
  WriteResult, Effect, wrote, queued_write_complete, queued_high_water, updated_channel, shut_write,
  removed_channel, called_connection, called_message, called_close, logged_error, Connection,
  Attempt, when, write_directly, keep_rest, send_in_loop, is_disconnected,
}
use cobra.Connection.Output.{
  sent, shuts, IsWrite, IsValid, readable-contents, nil_of_length, write_cases,
}

-- What the direct write does: it writes the first `nwrote` bytes, none unless the output is empty.
record Tried (bytes : List ℕ) (c : Connection) (a : Attempt) : Type 0 where
  within : a.nwrote ≤ length bytes
  first : sent a.effects ≡ take a.nwrote bytes
  quiet : shuts a.effects ≡ false
  order : (a.nwrote ≡ 0) ⊎ (contents c.output ≡ [])

when_quiet :
    (b : Bool)
    → (sent (when b queued_write_complete) ≡ []) × (shuts (when b queued_write_complete) ≡ false)
when_quiet true = (refl, refl)
when_quiet false = (refl, refl)

write_directly-Tried :
    (write : List ℕ → WriteResult) (bytes : List ℕ) (c : Connection)
    → IsWrite write
    → IsValid c
    → Tried bytes c (write_directly write bytes c)
unfolding write_directly
write_directly-Tried write bytes c ok v =
    elim (Bool-cases (not (is_writing c.channel) && (readable_bytes c.output == 0))) [
      | inl idle ↦ elim (write_cases (write bytes)) [
        | inl (n, e) ↦
            let q = when_quiet ((length bytes - n == 0) && c.has_write_complete) in
            rw (idle, e, write_directly)
              (record {
                within = ok bytes n e;
                first = ap (◌++◌ (take n bytes)) q.0 ∙ append-nil (take n bytes);
                quiet = q.1;
                order = inr (
                    nil_of_length (contents c.output)
                      (ground (arith, readable-contents v.output_sound)));
              })
        | inr (x, e) ↦
            rw (idle, e, write_directly)
              (record { within = omega arith; first = refl; quiet = refl; order = inl refl })
      ]
      | inr busy ↦
          rw busy (record { within = omega arith; first = refl; quiet = refl; order = inl refl })
    ]

when_high :
    (b : Bool) (n : ℕ) (c : Bool)
    → (sent (when b (queued_high_water n) ++ when c updated_channel) ≡ [])
      × (shuts (when b (queued_high_water n) ++ when c updated_channel) ≡ false)
when_high true n true = (refl, refl)
when_high true n false = (refl, refl)
when_high false n true = (refl, refl)
when_high false n false = (refl, refl)

writing-kept : (x : Channel) → is_writing (if is_writing x then x else with_writing x) ≡ true
writing-kept x = elim (Bool-cases (is_writing x)) [ inl on ↦ rw on | inr off ↦ rw off ]

keep_rest_lem :
    (rest : List ℕ) {c : Connection}
    → IsValid c
    → c.output.writer_index + length rest ≤ max_size
    → (c' : Connection) × (es : List Effect) × (keep_rest rest c ≡ some (c', es))
      × IsValid c'
      × (contents c'.output ≡ contents c.output ++ rest)
      × (sent es ≡ [])
      × (shuts es ≡ false)
      × (c'.state ≡ c.state)
      × (c'.output.writer_index ≤ c.output.writer_index + length rest)
unfolding keep_rest
keep_rest_lem rest {c} v fits =
    let (output, e, sound, held, w) = append_lem rest v.output_sound fits in
    let q = when_high high total (not (is_writing c.channel)) in
    (
      record c {
        output = output;
        channel = if is_writing c.channel then c.channel else with_writing c.channel;
      },
      when high (queued_high_water total) ++ when (not (is_writing c.channel)) updated_channel,
      rw e,
      record {
        output_sound = sound;
        input_sound = v.input_sound;
        drained = λ up off. absurd (true_ne (sym (writing-kept c.channel) ∙ off));
      },
      held,
      q.0,
      q.1,
      refl,
      w,
    )
  where
    total : ℕ
    total = add_size (readable_bytes c.output) (length rest)

    high : Bool
    high =
        leb c.high_water_mark total
        && (ltb (readable_bytes c.output) c.high_water_mark && c.has_high_water)

    true_ne : true ≡ false → ⊥
    true_ne e = cc

sent-append : (es fs : List Effect) → sent (es ++ fs) ≡ sent es ++ sent fs
sent-append [] fs = refl
sent-append (wrote bytes ∷ es) fs =
    ap (◌++◌ bytes) (sent-append es fs) ∙ sym (append_assoc bytes (sent es) (sent fs))
sent-append (queued_write_complete ∷ es) fs = sent-append es fs
sent-append (queued_high_water n ∷ es) fs = sent-append es fs
sent-append (updated_channel ∷ es) fs = sent-append es fs
sent-append (removed_channel ∷ es) fs = sent-append es fs
sent-append (shut_write ∷ es) fs = sent-append es fs
sent-append (called_connection ∷ es) fs = sent-append es fs
sent-append (called_message xs ∷ es) fs = sent-append es fs
sent-append (called_close ∷ es) fs = sent-append es fs
sent-append (logged_error ∷ es) fs = sent-append es fs

shuts-append : (es fs : List Effect) → shuts es ≡ false → shuts (es ++ fs) ≡ shuts fs
shuts-append [] fs h = refl
shuts-append (wrote bytes ∷ es) fs h = shuts-append es fs h
shuts-append (queued_write_complete ∷ es) fs h = shuts-append es fs h
shuts-append (queued_high_water n ∷ es) fs h = shuts-append es fs h
shuts-append (updated_channel ∷ es) fs h = shuts-append es fs h
shuts-append (removed_channel ∷ es) fs h = shuts-append es fs h
shuts-append (shut_write ∷ es) fs h = cc
shuts-append (called_connection ∷ es) fs h = shuts-append es fs h
shuts-append (called_message xs ∷ es) fs h = shuts-append es fs h
shuts-append (called_close ∷ es) fs h = shuts-append es fs h
shuts-append (logged_error ∷ es) fs h = shuts-append es fs h

-- Bytes of which the first `n` are written and the others kept come out in order.
in_order :
    (n : ℕ) (held bytes : List ℕ)
    → (n ≡ 0) ⊎ (held ≡ [])
    → take n bytes ++ (held ++ drop n bytes) ≡ held ++ bytes
in_order n held bytes (inl none_written) = rw none_written refl
in_order n held bytes (inr none_held) = rw none_held (take-append-drop n bytes)

-- What sendInLoop has done when it returns.
pub record Sent (bytes : List ℕ) (c c' : Connection) (es : List Effect) : Type 0 where
  pub valid : IsValid c'
  pub stream : sent es ++ contents c'.output ≡ contents c.output ++ bytes
  pub same_state : c'.state ≡ c.state
  pub no_shut : shuts es ≡ false
  pub bounded : c'.output.writer_index ≤ c.output.writer_index + length bytes

pub send_in_loop_lem :
    (write : List ℕ → WriteResult) (bytes : List ℕ) {c : Connection}
    → IsWrite write
    → IsValid c
    → is_disconnected c.state ≡ false
    → c.output.writer_index + length bytes ≤ max_size
    → (write_directly write bytes c).fault ≡ false
    → (c' : Connection) × (es : List Effect) × (send_in_loop write bytes c ≡ some (c', es))
      × Sent bytes c c' es
unfolding send_in_loop
send_in_loop_lem write bytes {c} ok v up fits fine =
    elim (Bool-cases (ltb 0 (length bytes - a.nwrote))) [
      | inl more ↦
          let (c', es, e, v', held, quiet, calm, same, w) =
            keep_rest_lem (drop a.nwrote bytes) v (omega (arith, length-drop a.nwrote bytes)) in
          (
            c',
            a.effects ++ es,
            rw (up, fine, more, e),
            record {
              valid = v';
              stream =
                  ap₂ ◌++◌ (sent-append a.effects es ∙ ap₂ ◌++◌ t.first quiet ∙ append-nil _) held
                  ∙ in_order a.nwrote (contents c.output) bytes t.order;
              same_state = same;
              no_shut = shuts-append a.effects es t.quiet ∙ calm;
              bounded = omega (arith, w, length-drop a.nwrote bytes);
            },
          )
      | inr done ↦ (
        c,
        a.effects,
        rw (up, fine, done),
        record {
          valid = v;
          stream =
              ap (λ xs. xs ++ contents c.output) t.first
              ∙ ap (◌++◌ (take a.nwrote bytes)) (sym (append-nil (contents c.output)))
              ∙ ap (λ xs. take a.nwrote bytes ++ (contents c.output ++ xs))
                  (sym (drop_all a.nwrote bytes (ground arith)))
              ∙ in_order a.nwrote (contents c.output) bytes t.order;
          same_state = refl;
          no_shut = t.quiet;
          bounded = omega arith;
        },
      )
    ]
  where
    a : Attempt
    a = write_directly write bytes c

    t : Tried bytes c a
    t = write_directly-Tried write bytes c ok v
