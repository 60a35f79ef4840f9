-- ===== src/Connection/Output/Flush.antt =====
-- cobra/tcp_connection.cpp handleWrite: what it flushes and when it shuts the write side.
use cobra.Base.{
  ℕ, ◌≤◌, ◌≡◌, refl, ap, ap₂, sym, ◌∙◌, List, [], ◌∷◌, ◌++◌, some, length, take, drop, arith, inl,
  inr, Bool, true, false, if◌then◌else◌, ◌==◌, not, ltb, Bool-cases, append-nil, take-append-drop,
  max,
}
use cobra.Channel.{is_writing, without_writing}
use cobra.Buffer.{readable_bytes, cheap_prepend}
use cobra.Buffer.Content.{contents}
use cobra.Buffer.Retrieve.{retrieve_lem}
use cobra.Connection.{
  WriteResult, Effect, wrote, queued_write_complete, updated_channel, shut_write, Connection, when,
  is_disconnecting, after_write, handle_write, write_out, Outcome, shutdown_in_loop,
}
use cobra.Connection.Output.{
  sent, shuts, calls, IsWrite, IsValid, readable-contents, nil_of_length, write_cases,
}

-- What a call that only flushes has done: the bytes written and those left are those held before, and
-- the write side is shut only when none is left.
pub record Flushed (c c' : Connection) (es : List Effect) : Type 0 where
  pub valid : IsValid c'
  pub stream : sent es ++ contents c'.output ≡ contents c.output
  pub same_state : c'.state ≡ c.state
  pub last : shuts es ≡ true → (contents c'.output ≡ []) × (is_disconnecting c.state ≡ true)
  pub untold : calls es ≡ 0
  pub muted : is_writing c.channel ≡ false → is_writing c'.channel ≡ false
  pub bounded : c'.output.writer_index ≤ max c.output.writer_index cheap_prepend

untouched :
    {c : Connection} (es : List Effect)
    → sent es ≡ []
    → shuts es ≡ false
    → calls es ≡ 0
    → IsValid c
    → Flushed c c es
untouched es quiet calm untold v = record {
  untold = untold;
  muted = λ off. off;
  valid = v;
  stream = rw quiet;
  same_state = refl;
  last = λ s. cc;
  bounded = omega arith;
}

-- The effects behind a write that emptied the output: no bytes, and the write side is shut only if
-- the connection is disconnecting.
ends : Connection → Connection → List Effect
ends c quiet =
    updated_channel ∷ when c.has_write_complete queued_write_complete
    ++ (if is_disconnecting c.state then shutdown_in_loop quiet else [])

ends_quiet :
    (c quiet : Connection)
    → (sent (ends c quiet) ≡ [])
      × (shuts (ends c quiet) ≡ true → is_disconnecting c.state ≡ true)
      × (calls (ends c quiet) ≡ 0)
unfolding ends shutdown_in_loop
ends_quiet c quiet =
    go c.has_write_complete (is_disconnecting c.state) (not (is_writing quiet.channel))
  where
    go :
        (b d w : Bool)
        → (sent (
              updated_channel ∷ when b queued_write_complete
              ++ (if d then when w shut_write else []))
            ≡ [])
          × (shuts (
                  updated_channel ∷ when b queued_write_complete
                  ++ (if d then when w shut_write else []))
                ≡ true
              → d ≡ true)
          × (calls (
                updated_channel ∷ when b queued_write_complete
                ++ (if d then when w shut_write else []))
              ≡ 0)
    go true true true = (refl, λ s. refl, refl)
    go true true false = (refl, λ s. refl, refl)
    go true false w = (refl, λ s. s, refl)
    go false true true = (refl, λ s. refl, refl)
    go false true false = (refl, λ s. refl, refl)
    go false false w = (refl, λ s. s, refl)

split_stream :
    (n : ℕ) (held left : List ℕ) (es : List Effect)
    → sent es ≡ []
    → left ≡ drop n held
    → sent (wrote (take n held) ∷ es) ++ left ≡ held
split_stream n held left es quiet rest =
    ap₂ (λ a b. (take n held ++ a) ++ b) quiet rest
    ∙ ap (λ a. a ++ drop n held) (append-nil (take n held))
    ∙ take-append-drop n held

after_write_lem :
    (n : ℕ) {c : Connection}
    → IsValid c
    → is_writing c.channel ≡ true
    → n ≤ length (contents c.output)
    → (c' : Connection) × (es : List Effect) × (after_write n c ≡ some (c', es))
      × Flushed c c' (wrote (take n (contents c.output)) ∷ es)
unfolding after_write
after_write_lem n {c} v on bound =
    let (output, e, sound, held, _, w) =
      retrieve_lem n v.output_sound (omega (arith, readable-contents v.output_sound, bound)) in
    let left : Connection = record c { output = output } in
    let quiet : Connection = record left { channel = without_writing c.channel } in
    elim (Bool-cases (readable_bytes output == 0)) [
      | inl empty ↦
          let none_left : contents output ≡ [] =
            nil_of_length (contents output) (ground (arith, readable-contents sound)) in
          let q = ends_quiet c quiet in
          (
            quiet,
            ends c quiet,
            unfold ends in rw (e, empty) refl,
            record {
              valid = record {
                output_sound = sound;
                input_sound = v.input_sound;
                drained = λ up off. none_left;
              };
              stream = split_stream n (contents c.output) (contents output) (ends c quiet) q.0 held;
              same_state = refl;
              last = λ s. (none_left, q.1 s);
              untold = q.2;
              muted = λ off. refl;
              bounded = w;
            },
          )
      | inr more ↦ (
        left,
        [],
        rw (e, more) refl,
        record {
          valid = record {
            output_sound = sound;
            input_sound = v.input_sound;
            drained = λ up off. absurd (true_ne (sym on ∙ off));
          };
          stream = split_stream n (contents c.output) (contents output) [] refl held;
          same_state = refl;
          last = λ s. cc;
          untold = refl;
          muted = λ off. off;
          bounded = w;
        },
      )
    ]
  where
    true_ne : true ≡ false → ⊥
    true_ne e = cc

write_out_lem :
    (write : List ℕ → WriteResult) {c : Connection}
    → IsWrite write
    → IsValid c
    → is_writing c.channel ≡ true
    → (c' : Connection) × (es : List Effect) × (write_out write c ≡ some (c', es)) × Flushed c c' es
unfolding write_out
write_out_lem write {c} ok v on = elim (write_cases (write (contents c.output))) [
  | inl (n, e) ↦ elim (Bool-cases (ltb 0 n)) [
    | inl some_taken ↦
        let (c', es, r, f) = after_write_lem n v on (ok (contents c.output) n e) in
        (c', wrote (take n (contents c.output)) ∷ es, rw (e, write_out, some_taken, r), f)
    | inr none_taken ↦ (
      c,
      wrote (take n (contents c.output)) ∷ [],
      rw (e, write_out, none_taken),
      untouched (wrote (take n (contents c.output)) ∷ [])
          (append-nil _ ∙ ap (λ k. take k (contents c.output)) (zero_of none_taken)) refl refl v,
    )
  ]
  | inr (x, e) ↦ (c, [], rw (e, write_out), untouched [] refl refl refl v)
]
  where
    zero_of : {n : ℕ} → ltb 0 n ≡ false → n ≡ 0
    zero_of e = ground arith

-- handleWrite returns, whatever write(2) reports. The bytes that it writes and those that it leaves
-- are those that the output held, in order; and it shuts the write side only where the connection is
-- disconnecting and no byte is left.
pub handle_write_lem :
    (write : List ℕ → WriteResult) {c : Connection}
    → IsWrite write
    → IsValid c
    → (c' : Connection) × (es : List Effect) × (handle_write write c ≡ some (c', es))
      × Flushed c c' es
unfolding handle_write
handle_write_lem write {c} ok v = elim (Bool-cases (is_writing c.channel)) [
  | inl on ↦
      let (c', es, r, f) = write_out_lem write ok v on in
      (c', es, when_true on (write_out write c) (some (c, [])) ∙ r, f)
  | inr off ↦
      (c, [], when_false off (write_out write c) (some (c, [])), untouched [] refl refl refl v)
]
  where
    when_true : {b : Bool} → b ≡ true → (x y : Outcome) → (if b then x else y) ≡ x
    when_true e x y = rw e

    when_false : {b : Bool} → b ≡ false → (x y : Outcome) → (if b then x else y) ≡ y
    when_false e x y = rw e
