-- ===== src/Connection/Stream.antt =====
-- A connection's life between its start and its end, as the event loop drives it: sends and shutdowns
-- of its owner and write events of the poller, in any order (cobra/tcp_connection.cpp).
use cobra.Base.{
  ℕ, ◌+◌, ◌≤◌, ◌≡◌, refl, ap, sym, ◌∙◌, List, [], ◌∷◌, ◌++◌, Option, some, length, length-append,
  arith, ◌⊎◌, inl, inr, Bool, true, false, if◌then◌else◌, ◌&&◌, ◌||◌, ◌==◌, not, Bool-cases, ◌>>=◌,
  append-nil, append_assoc,
}
use cobra.Channel.{is_writing}
use cobra.Buffer.{max_size, cheap_prepend, readable_bytes}
use cobra.Buffer.Content.{contents}
use cobra.Connection.{
  State, disconnected, connecting, connected, disconnecting, Errno, WriteResult, refused, Effect,
  shut_write, Connection, write_directly, send, is_connected, is_disconnected, is_disconnecting,
  is_fault, handle_write, shutdown_in_loop, shutdown, when,
}
use cobra.Connection.Output.{sent, shuts, IsWrite, IsValid, write_cases}
use cobra.Connection.Output.Send.{send_in_loop_lem}
use cobra.Connection.Output.Flush.{handle_write_lem}

-- A write(2) that keeps to its manual and does not find the peer gone.
pub record IsHealthy (write : List ℕ → WriteResult) : Type 0 where
  pub within : IsWrite write
  pub alive : (bytes : List ℕ) (e : Errno) → write bytes ≡ refused e → is_fault e ≡ false

pub data Event : Type 0 where
  sends : (List ℕ → WriteResult) → List ℕ → Event
  writable : (List ℕ → WriteResult) → Event
  shuts_down : Event

-- A connection with what has happened: the messages that send() accepted, the bytes on the wire, and
-- whether the write side of the socket is shut.
pub record Trace : Type 0 where
  pub conn : Connection
  pub accepted : List ℕ
  pub wire : List ℕ
  pub fin : Bool

abbrev pub logged : Trace → List ℕ → Connection × List Effect → Trace
logged t bytes (c, es) = record {
  conn = c;
  accepted = t.accepted ++ bytes;
  wire = t.wire ++ sent es;
  fin = t.fin || shuts es;
}

abbrev pub step : Event → Trace → Option Trace
step (sends write bytes) t = do
  out ← send write bytes t.conn
  some (logged t (if is_connected t.conn.state then bytes else []) out)
step (writable write) t = do out ← handle_write write t.conn; some (logged t [] out)
step shuts_down t = some (logged t [] (shutdown t.conn))

abbrev pub run : List Event → Trace → Option Trace
run [] t = some t
run (e ∷ es) t = step e t >>= run es

abbrev pub size_of : List Event → ℕ
size_of [] = 0
size_of (sends write bytes ∷ es) = length bytes + size_of es
size_of (_ ∷ es) = size_of es

abbrev pub AllHealthy : List Event → Type 0
AllHealthy [] = Unit {0}
AllHealthy (sends write bytes ∷ es) = IsHealthy write × AllHealthy es
AllHealthy (writable write ∷ es) = IsHealthy write × AllHealthy es
AllHealthy (shuts_down ∷ es) = AllHealthy es

-- What holds between any two events.
pub record Inv (t : Trace) : Type 0 where
  pub valid : IsValid t.conn
  pub up : is_disconnected t.conn.state ≡ false
  pub order : t.wire ++ contents t.conn.output ≡ t.accepted
  pub closed : t.fin ≡ true → (contents t.conn.output ≡ []) × (is_connected t.conn.state ≡ false)
  pub room : t.conn.output.writer_index ≤ cheap_prepend + length t.accepted

connected_up : (s : State) → is_connected s ≡ true → is_disconnected s ≡ false
connected_up connected e = refl
connected_up disconnected e = cc
connected_up connecting e = cc
connected_up disconnecting e = cc

disconnecting_down : (s : State) → is_disconnecting s ≡ true → is_connected s ≡ false
disconnecting_down disconnecting e = refl
disconnecting_down disconnected e = cc
disconnecting_down connecting e = cc
disconnecting_down connected e = cc

or_cases : (a b : Bool) → (a || b) ≡ true → (a ≡ true) ⊎ (b ≡ true)
or_cases true b e = inl refl
or_cases false b e = inr e

false-true : {b : Bool} → b ≡ true → b ≡ false → ⊥
false-true e f = cc

nil_of_append : (xs ys : List ℕ) → xs ++ ys ≡ [] → ys ≡ []
nil_of_append [] ys e = e
nil_of_append (x ∷ xs) ys e = cc

healthy-fault :
    (write : List ℕ → WriteResult) (bytes : List ℕ) (c : Connection)
    → IsHealthy write
    → (write_directly write bytes c).fault ≡ false
unfolding write_directly
healthy-fault write bytes c h =
    elim (Bool-cases (not (is_writing c.channel) && (readable_bytes c.output == 0))) [
      | inl idle ↦ elim (write_cases (write bytes)) [
        | inl (n, e) ↦ rw (idle, e, write_directly)
        | inr (x, e) ↦ rw (idle, e, write_directly) (h.alive bytes x e)
      ]
      | inr busy ↦ rw busy
    ]

-- A step that leaves the order of the bytes alone.
Inv-next :
    (t : Trace) (bytes : List ℕ) (c : Connection) (es : List Effect)
    → Inv t
    → IsValid c
    → is_disconnected c.state ≡ false
    → sent es ++ contents c.output ≡ contents t.conn.output ++ bytes
    → ((t.fin || shuts es) ≡ true → (contents c.output ≡ []) × (is_connected c.state ≡ false))
    → c.output.writer_index ≤ cheap_prepend + length (t.accepted ++ bytes)
    → Inv (logged t bytes (c, es))
Inv-next t bytes c es i v up stream closed room = record {
  valid = v;
  up = up;
  order =
      append_assoc t.wire (sent es) (contents c.output)
      ∙ ap (◌++◌ t.wire) stream
      ∙ sym (append_assoc t.wire (contents t.conn.output) bytes)
      ∙ ap (λ xs. xs ++ bytes) i.order;
  closed = closed;
  room = room;
}

-- An event at which the connection stays as it is.
quiet-Inv : (t : Trace) → Inv t → Inv (logged t [] (t.conn, []))
quiet-Inv t i =
    Inv-next t [] t.conn [] i i.valid i.up (sym (append-nil (contents t.conn.output)))
      (λ f. elim (or_cases t.fin false f) [ inl g ↦ i.closed g | inr g ↦ cc ])
      (omega (arith, i.room, length-append t.accepted []))

send-Inv :
    (t : Trace) (write : List ℕ → WriteResult) (bytes : List ℕ)
    → Inv t
    → IsHealthy write
    → cheap_prepend + length t.accepted + length bytes ≤ max_size
    → (t' : Trace) × (step (sends write bytes) t ≡ some t')
      × Inv t'
      × (length t'.accepted ≤ length t.accepted + length bytes)
unfolding send
send-Inv t write bytes i h fits = elim (Bool-cases (is_connected t.conn.state)) [
  | inl up ↦
      let (c, es, e, s) =
        send_in_loop_lem write bytes h.within i.valid (connected_up _ up) (omega (arith, i.room))
          (healthy-fault write bytes t.conn h) in
      (
        logged t bytes (c, es),
        rw (up, e),
        Inv-next t bytes c es i s.valid (ap is_disconnected s.same_state ∙ connected_up _ up)
            s.stream
            (λ f. elim (or_cases t.fin (shuts es) f) [
              | inl g ↦ absurd (false-true up (i.closed g).1)
              | inr g ↦ absurd (false-true g s.no_shut)
            ])
            (omega (arith, i.room, s.bounded, length-append t.accepted bytes)),
        omega (arith, length-append t.accepted bytes),
      )
  | inr down ↦
      (logged t [] (t.conn, []), rw down, quiet-Inv t i, omega (arith, length-append t.accepted []))
]

write-Inv :
    (t : Trace) (write : List ℕ → WriteResult)
    → Inv t
    → IsHealthy write
    → (t' : Trace) × (step (writable write) t ≡ some t')
      × Inv t'
      × (length t'.accepted ≤ length t.accepted)
write-Inv t write i h =
    let (c, es, e, f) = handle_write_lem write h.within i.valid in
    (
      logged t [] (c, es),
      rw e,
      Inv-next t [] c es i f.valid (ap is_disconnected f.same_state ∙ i.up)
          (f.stream ∙ sym (append-nil (contents t.conn.output)))
          (λ g. elim (or_cases t.fin (shuts es) g) [
            | inl before ↦ (
              nil_of_append (sent es) (contents c.output) (f.stream ∙ (i.closed before).0),
              ap is_connected f.same_state ∙ (i.closed before).1,
            )
            | inr now ↦
                let (none_left, d) = f.last now in
                (none_left, ap is_connected f.same_state ∙ disconnecting_down _ d)
          ])
          (omega (arith, i.room, f.bounded, length-append t.accepted [])),
      omega (arith, length-append t.accepted []),
    )

shutdown-Inv : (t : Trace) → Inv t → Inv (logged t [] (shutdown t.conn))
unfolding shutdown shutdown_in_loop
shutdown-Inv t i = elim (Bool-cases (is_connected t.conn.state)) [
  | inr down ↦ rw down (quiet-Inv t i)
  | inl up ↦ rw up (
      Inv-next t [] half (when (not (is_writing t.conn.channel)) shut_write) i
        (record {
          output_sound = i.valid.output_sound;
          input_sound = i.valid.input_sound;
          drained = λ u off. i.valid.drained (connected_up _ up) off;
        })
        refl
        (ap (λ xs. xs ++ contents t.conn.output) (when_sent (not (is_writing t.conn.channel)))
          ∙ sym (append-nil (contents t.conn.output)))
        (λ f. (drained up f, refl)) (omega (arith, i.room, length-append t.accepted [])))
]
  where
    half : Connection
    half = record t.conn { state = disconnecting }

    when_sent : (b : Bool) → sent (when b shut_write) ≡ []
    when_sent true = refl
    when_sent false = refl

    when_shuts : (b : Bool) → shuts (when (not b) shut_write) ≡ true → b ≡ false
    when_shuts true e = cc
    when_shuts false e = refl

    drained :
        is_connected t.conn.state ≡ true
        → (t.fin || shuts (when (not (is_writing t.conn.channel)) shut_write)) ≡ true
        → contents t.conn.output ≡ []
    drained up f = elim (or_cases t.fin _ f) [
      | inl before ↦ (i.closed before).0
      | inr now ↦ i.valid.drained (connected_up _ up) (when_shuts _ now)
    ]

-- Whatever the order of sends, write events and shutdowns, and however little each write(2) takes, as
-- long as it keeps to its manual and meets no EPIPE or ECONNRESET and the bytes fit a vector: every
-- event is handled without an abort; the bytes on the wire followed by those in the output buffer are
-- the accepted messages in order; and once the write side is shut, all of them are on the wire.
pub run-Inv :
    (es : List Event) (t : Trace)
    → Inv t
    → AllHealthy es
    → cheap_prepend + length t.accepted + size_of es ≤ max_size
    → (t' : Trace) × (run es t ≡ some t')
      × (t'.wire ++ contents t'.conn.output ≡ t'.accepted)
      × (t'.fin ≡ true → t'.wire ≡ t'.accepted)
run-Inv [] t i h fits = (
  t,
  refl,
  i.order,
  λ f. sym (append-nil t.wire) ∙ ap (◌++◌ t.wire) (sym (i.closed f).0) ∙ i.order,
)
run-Inv (sends write bytes ∷ es) t i h fits =
    let (t1, e, i1, n) = send-Inv t write bytes i h.0 (omega arith) in
    let (t2, e2, o, f) = run-Inv es t1 i1 h.1 (omega (arith, n)) in
    (t2, ap (λ o. o >>= run es) e ∙ e2, o, f)
run-Inv (writable write ∷ es) t i h fits =
    let (t1, e, i1, n) = write-Inv t write i h.0 in
    let (t2, e2, o, f) = run-Inv es t1 i1 h.1 (omega (arith, n)) in
    (t2, ap (λ o. o >>= run es) e ∙ e2, o, f)
run-Inv (shuts_down ∷ es) t i h fits =
    run-Inv es (logged t [] (shutdown t.conn)) (shutdown-Inv t i) h
      (omega (arith, length-append t.accepted []))
