-- ===== src/AsyncLogging/Turns.antt =====
-- A turn of the writing thread of base/AsyncLogging.cc.
use cobra.Base.{
  ℕ, ◌≡◌, refl, ap, ap₂, sym, ◌∙◌, Bool, true, false, ◌||◌, List, [], ◌∷◌, ◌++◌, append-nil, Option,
  none, some, if◌then◌else◌, length, take, ltb, ◌==◌, arith,
}
use cobra.LogStream.{FixedBuffer, avail, as_string}
use cobra.LogStream
use cobra.AsyncLogging.{
  AsyncLogging, Writer, or_else, spare, contents, pop_back, kept, refill, turn,
}
use cobra.AsyncLogging.Invariant.{
  writes, System, step, IsEmpty, IsNext, Inv, contents_all, as_string_empty,
}
use cobra.AsyncLogging.Spares.{reset-IsEmpty, spares}

spare_lem :
    (size : ℕ) (o : Option FixedBuffer) (b : FixedBuffer)
    → o ≡ some b
    → IsEmpty size b
    → spare o ≡ some b
unfolding spare
spare_lem size o b e (v, z) = rw (e, test) refl
  where
    test : (b.cur == 0) ≡ true
    test = ground arith

-- The two sides after a turn.
abbrev front_after : AsyncLogging → FixedBuffer → FixedBuffer → AsyncLogging
front_after a new1 new2 = record {
  current_buffer = new1;
  next_buffer = some (or_else new2 a.next_buffer);
  buffers = [];
}

abbrev back_after : List ℕ → AsyncLogging → Writer → FixedBuffer → FixedBuffer → Writer
back_after message a w b c = record {
  new_buffer1 = some (LogStream.reset b);
  new_buffer2 = some c;
  output =
      w.output
      ++ ((if ltb 25 (length (a.buffers ++ a.current_buffer ∷ [])) then message else [])
          ++ contents (kept (a.buffers ++ a.current_buffer ∷ [])));
  dropped = w.dropped || ltb 25 (length (a.buffers ++ a.current_buffer ∷ []));
}

turn_run :
    (message : List ℕ) (a : AsyncLogging) (w : Writer) (new1 new2 b c : FixedBuffer)
    (rest : List FixedBuffer)
    → spare w.new_buffer1 ≡ some new1
    → spare w.new_buffer2 ≡ some new2
    → pop_back (take 2 (kept (a.buffers ++ a.current_buffer ∷ []))) ≡ some (b, rest)
    → refill a.next_buffer new2 rest ≡ some c
    → turn message a w ≡ some (front_after a new1 new2, back_after message a w b c)
unfolding turn
turn_run message a w new1 new2 b c rest e f g h = rw (turn, e, f, g, h) refl

next_after :
    (size : ℕ) (o : Option FixedBuffer) (bs : List FixedBuffer) (n : FixedBuffer)
    → IsNext size o bs
    → IsEmpty size n
    → IsEmpty size (or_else n o)
next_after size none bs n h e = e
next_after size (some b) bs n h e = h

-- What is written when nothing is dropped.
all_written :
    (message : List ℕ) (bs : List FixedBuffer)
    → ltb 25 (length bs) ≡ false
    → (if ltb 25 (length bs) then message else []) ++ contents (kept bs) ≡ contents bs
all_written message bs e =
    ap (λ t. (if t then message else []) ++ contents (if t then take 2 bs else bs)) e

neither : (a b : Bool) → (a || b) ≡ false → (a ≡ false) × (b ≡ false)
neither true b h = absurd (clash h)
  where
    clash : true ≡ false → ⊥
    clash h = cc
neither false b h = (refl, h)

pub writes-Inv :
    (size : ℕ) (message : List ℕ) (s : System)
    → Inv size s
    → (t : System) × (step size message writes s ≡ some t)
      × (t.accepted ≡ s.accepted ++ [])
      × Inv size t
writes-Inv size message s i =
    let (new1, e1, v1) = i.spare1 in
    let (new2, e2, v2) = i.spare2 in
    let p =
      spares size s.front.next_buffer new2 s.front.buffers s.front.current_buffer v2 i.next
        i.buffers i.current in
    (
      record s {
        front = front_after s.front new1 new2;
        back = back_after message s.front s.back p.last p.second;
      },
      rw
          (turn_run message s.front s.back new1 new2 p.last p.second p.rest
            (spare_lem size s.back.new_buffer1 new1 e1 v1)
            (spare_lem size s.back.new_buffer2 new2 e2 v2) p.popped p.refilled)
          refl,
      sym (append-nil s.accepted),
      record {
        current = v1.0;
        next = next_after size s.front.next_buffer s.front.buffers new2 i.next v2;
        buffers = tt;
        spare1 = (LogStream.reset p.last, refl, reset-IsEmpty size p.last p.last_valid);
        spare2 = (p.second, refl, p.second_empty);
        delivered = λ d.
            let (d1, d2) = neither s.back.dropped (ltb 25 (length all)) d in
            ap₂ ◌++◌
              (ap (λ x. s.back.output ++ x)
                  (all_written message all d2 ∙ contents_all s.front.buffers s.front.current_buffer)
                ∙ i.delivered d1)
              (as_string_empty size new1 v1)
            ∙ append-nil s.accepted;
      },
    )
  where
    all : List FixedBuffer
    all = s.front.buffers ++ s.front.current_buffer ∷ []
