-- ===== src/Connection/Events/Safe.antt =====
-- cobra/channel.cpp handleEvent at a connection of cobra/tcp_connection.cpp runs without an abort.
use cobra.Base.{
  ◌+◌, ◌≤◌, ◌≡◌, refl, ◌∙◌, List, [], ◌∷◌, ◌++◌, Option, some, length, arith, Bool, true, false,
  not, if◌then◌else◌, ◌||◌, ◌&&◌, inl, inr, ◌⊎◌,
}
use cobra.Channel.{
  Channel, Mask, Callback, close_cb, error_cb, read_cb, write_cb, run_when, handle_event,
  handle_event_with_guard,
}
use cobra.Buffer.{max_size}
use cobra.Buffer.ReadFd.{extra_size}
use cobra.Connection.{
  disconnected, Effect, updated_channel, called_connection, called_close, logged_error, Connection,
  handle_error,
}
use cobra.Connection.Output.{IsValid, calls}
use cobra.Connection.Reads.{closed, is_open, handle_close_open}
use cobra.Connection.Events.{Io, on_event, marked, IsIo}
use cobra.Connection.Events.Phases.{
  Open, Closed, calls-append, closed-Closed, write-Open, write-Closed, read-Open,
}

-- A callback that runs or does not.
ran :
    {S : Type 0} (call : Callback → S → Option S) (b : Bool) (k : Callback) (s : S) (Q : S → Type 0)
    → (b ≡ true → (s' : S) × (call k s ≡ some s') × Q s')
    → (b ≡ false → Q s)
    → (s' : S) × (run_when call b k s ≡ some s') × Q s'
unfolding run_when
ran call true k s Q yes_case no_case = yes_case refl
ran call false k s Q yes_case no_case = (s, refl, no_case refl)

marked-Open : (b : Bool) (s : Connection × List Effect) → Open s → Open (marked b s)
marked-Open b (c, es) o = record {
  valid = record {
    output_sound = o.valid.output_sound;
    input_sound = o.valid.input_sound;
    drained = o.valid.drained;
  };
  up = o.up;
  untold = o.untold;
}

marked-Closed : (b : Bool) (s : Connection × List Effect) → Closed s → Closed (marked b s)
marked-Closed b (c, es) o = record {
  valid = record {
    output_sound = o.valid.output_sound;
    input_sound = o.valid.input_sound;
    drained = o.valid.drained;
  };
  down = o.down;
  muted = o.muted;
  told = o.told;
}

-- Between the close callback and the read callback: closed if `alone`, or open with room to read.
abbrev Early : Bool → Connection × List Effect → Type 0
Early alone s =
    ((alone ≡ true) × Closed s) ⊎ (Open s × (length s.0.input.store + extra_size ≤ max_size))

close-Early :
    (io : Io) (alone : Bool) (s : Connection × List Effect)
    → alone ≡ true
    → Open s
    → (s' : Connection × List Effect) × (on_event io close_cb s ≡ some s') × Early alone s'
close-Early io alone (c, es) e o = (
  (closed c, es ++ updated_channel ∷ called_connection ∷ called_close ∷ []),
  rw (handle_close_open c o.up) refl,
  inl (e, closed-Closed es o.valid o.untold),
)

error-Early :
    (io : Io) (alone : Bool) (s : Connection × List Effect)
    → Early alone s
    → (s' : Connection × List Effect) × (on_event io error_cb s ≡ some s') × Early alone s'
unfolding handle_error
error-Early io alone (c, es) (inl (e, o)) = (
  (c, es ++ logged_error ∷ []),
  refl,
  inl (
    e,
    record {
      valid = o.valid;
      down = o.down;
      muted = o.muted;
      told = omega (arith, calls-append es (logged_error ∷ []), o.told);
    },
  ),
)
error-Early io alone (c, es) (inr (o, room)) = (
  (c, es ++ logged_error ∷ []),
  refl,
  inr (
    record {
      valid = o.valid;
      up = o.up;
      untold = omega (arith, calls-append es (logged_error ∷ []), o.untold);
    },
    room,
  ),
)

late : {alone : Bool} {s : Connection × List Effect} → Early alone s → Open s ⊎ Closed s
late (inl (_, o)) = inr o
late (inr (o, _)) = inl o

write-late :
    {io : Io} (s : Connection × List Effect)
    → IsIo io
    → Open s ⊎ Closed s
    → (s' : Connection × List Effect) × (on_event io write_cb s ≡ some s') × (Open s' ⊎ Closed s')
write-late s ok (inl o) = let (s', e, q) = write-Open s ok o in (s', e, inl q)
write-late s ok (inr o) = let (s', e, q) = write-Closed s ok o in (s', e, inr q)

read-late :
    {io : Io} (alone : Bool) (s : Connection × List Effect)
    → IsIo io
    → (alone ≡ true → ⊥)
    → Early alone s
    → (s' : Connection × List Effect) × (on_event io read_cb s ≡ some s') × (Open s' ⊎ Closed s')
read-late alone s ok never (inl (e, _)) = absurd (never e)
read-late alone s ok never (inr (o, room)) = read-Open s ok room o

marked-late :
    (b : Bool) (s : Connection × List Effect)
    → Open s ⊎ Closed s
    → Open (marked b s) ⊎ Closed (marked b s)
marked-late b s (inl o) = inl (marked-Open b s o)
marked-late b s (inr o) = inr (marked-Closed b s o)

and_left : (a b : Bool) → (a && b) ≡ true → a ≡ true
and_left true b e = refl
and_left false b e = e

-- POLLHUP alone asks for no read.
no_read_alone :
    (hup in' pri_rdhup has : Bool)
    → ((hup && not in') ≡ true → pri_rdhup ≡ false)
    → ((in' || pri_rdhup) && has) ≡ true
    → (hup && not in') ≡ true
    → ⊥
no_read_alone true false true has quiet e alone = true_ne (quiet alone)
  where
    true_ne : true ≡ false → ⊥
    true_ne e = cc
no_read_alone true false false has quiet e alone = cc
no_read_alone true true p has quiet e alone = cc
no_read_alone false i p has quiet e alone = cc

guard_lem :
    (io : Io) (ch : Channel) (s : Connection × List Effect)
    → IsIo io
    → Open s
    → length s.0.input.store + extra_size ≤ max_size
    → ((ch.revents.pollhup && not ch.revents.pollin) ≡ true
        → (ch.revents.pollpri || ch.revents.pollrdhup) ≡ false)
    → (s' : Connection × List Effect) × (handle_event_with_guard (on_event io) marked ch s
        ≡ some s')
      × (Open s' ⊎ Closed s')
unfolding handle_event_with_guard
guard_lem io ch s ok o room quiet =
    let (s1, e1, q1) =
      ran (on_event io) (alone && ch.has_close) close_cb (marked true s) (Early alone)
        (λ b.
          close-Early io alone (marked true s) (and_left alone ch.has_close b)
            (marked-Open true s o))
        (λ b. inr (marked-Open true s o, room)) in
    let (s2, e2, q2) =
      ran (on_event io) ((m.pollerr || m.pollnval) && ch.has_error) error_cb s1 (Early alone)
        (λ b. error-Early io alone s1 q1) (λ b. q1) in
    let (s3, e3, q3) =
      ran (on_event io) ((m.pollin || (m.pollpri || m.pollrdhup)) && ch.has_read) read_cb s2
        (λ x. Open x ⊎ Closed x)
        (λ b.
          read-late alone s2 ok
            (no_read_alone m.pollhup m.pollin (m.pollpri || m.pollrdhup) ch.has_read quiet b) q2)
        (λ b. late q2) in
    let (s4, e4, q4) =
      ran (on_event io) (m.pollout && ch.has_write) write_cb s3 (λ x. Open x ⊎ Closed x)
        (λ b. write-late s3 ok q3) (λ b. q3) in
    (marked false s4, rw (e1, e2, e3, e4) refl, marked-late false s4 q4)
  where
    m : Mask
    m = ch.revents

    alone : Bool
    alone = m.pollhup && not m.pollin

handle_event_cases :
    {S : Type 0} (call : Callback → S → Option S) (mark : Bool → S → S) (alive : Bool)
    (ch : Channel) (s : S)
    → (handle_event call mark alive ch s ≡ handle_event_with_guard call mark ch s)
      ⊎ (handle_event call mark alive ch s ≡ some s)
unfolding handle_event
handle_event_cases {S = S} call mark alive ch s = go ch.tied alive
  where
    go :
        (t a : Bool) {x y : Option S}
        → ((if t then (if a then x else y) else x) ≡ x)
          ⊎ ((if t then (if a then x else y) else x) ≡ y)
    go false a = inl refl
    go true true = inl refl
    go true false = inr refl

-- handleEvent of a connection that is open: the four callbacks run without an abort and leave it
-- valid; it is either still open and the user has not been told, or closed and the user told exactly
-- once. The system calls keep to their manual; the input buffer may grow by the array of readFd; and
-- POLLHUP without POLLIN comes without POLLPRI and POLLRDHUP, since handleRead would close again.
pub handle_event_lem :
    (io : Io) (alive : Bool) (c : Connection)
    → IsIo io
    → IsValid c
    → is_open c ≡ true
    → length c.input.store + extra_size ≤ max_size
    → ((c.channel.revents.pollhup && not c.channel.revents.pollin) ≡ true
        → (c.channel.revents.pollpri || c.channel.revents.pollrdhup) ≡ false)
    → (c' : Connection) × (es : List Effect) × (handle_event
          (on_event io)
          marked
          alive
          c.channel
          (c, [])
        ≡ some (c', es))
      × IsValid c'
      × (((is_open c' ≡ true) × (calls es ≡ 0)) ⊎ ((c'.state ≡ disconnected) × (calls es ≡ 1)))
handle_event_lem io alive c ok v up room quiet =
    let o : Open (c, []) = record { valid = v; up = up; untold = refl } in
    elim (handle_event_cases (on_event io) marked alive c.channel (c, [])) [
      | inr gone ↦ (c, [], gone, v, inl (up, refl))
      | inl here ↦
          let (s', e, q) = guard_lem io c.channel (c, []) ok o room quiet in
          let (w, told) = told_once s' q in (s'.0, s'.1, here ∙ e, w, told)
    ]
  where
    told_once :
        (s : Connection × List Effect)
        → Open s ⊎ Closed s
        → IsValid s.0
          × (((is_open s.0 ≡ true) × (calls s.1 ≡ 0))
              ⊎ ((s.0.state ≡ disconnected) × (calls s.1 ≡ 1)))
    told_once s (inl o) = (o.valid, inl (o.up, o.untold))
    told_once s (inr o) = (o.valid, inr (o.down, o.told))
