-- ===== src/AsyncLogging/Lines.antt =====
-- A line that is appended: AsyncLogging::append of base/AsyncLogging.cc.
use cobra.Base.{
  ℕ, ◌-◌, ◌<◌, ◌≡◌, refl, ap, ap₂, sym, ◌∙◌, true, false, List, [], ◌∷◌, ◌++◌, append_assoc, none,
  some, if◌then◌else◌, length, ltb, arith, Bool-cases, inl, inr,
}
use cobra.LogStream.{FixedBuffer, avail, as_string}
use cobra.LogStream
use cobra.LogStream.Room.{Valid, append-Shows}
use cobra.AsyncLogging.{AsyncLogging, new_buffer, or_else, append, contents}
use cobra.AsyncLogging.Invariant.{
  line, System, accept, step, Inv, contents_all, as_string_empty, shift, AllValid-append,
  or_else-IsEmpty, after_full,
}

append_here :
    (size : ℕ) (l : List ℕ) (a : AsyncLogging) (b : FixedBuffer)
    → ltb (length l) (avail a.current_buffer) ≡ true
    → LogStream.append l a.current_buffer ≡ some b
    → append size l a ≡ some (record a { current_buffer = b })
unfolding append
append_here size l a b e f = rw (append, e, f) refl

append_next :
    (size : ℕ) (l : List ℕ) (a : AsyncLogging) (b : FixedBuffer)
    → ltb (length l) (avail a.current_buffer) ≡ false
    → LogStream.append l (or_else (new_buffer size) a.next_buffer) ≡ some b
    → append size l a
      ≡ some (record {
        current_buffer = b;
        next_buffer = none;
        buffers = a.buffers ++ a.current_buffer ∷ [];
      })
unfolding append
append_next size l a b e f = rw (append, e, f) refl

-- What Shows says of a buffer, with the text that a test decides.
shown :
    (size : ℕ) (l : List ℕ) (b : FixedBuffer) (n : ℕ) (t : List ℕ)
    → (if ltb (length l) n then l else []) ≡ t
    → n ≡ size - b.cur
    → Valid size b
    → (c : FixedBuffer) × (LogStream.append l b ≡ some c)
      × Valid size c
      × (as_string c ≡ as_string b ++ t)
shown size l b n t e f v =
    let (c, g, w, s, _) = append-Shows size b l v in
    (
      c,
      g,
      w,
      s
          ∙ ap (λ m. as_string b ++ (if ltb (length l) m then l else [])) (sym f)
          ∙ ap (λ x. as_string b ++ x) e,
    )

pub line-Inv :
    (size : ℕ) (message l : List ℕ) (s : System)
    → 0 < size
    → Inv size s
    → (t : System) × (step size message (line l) s ≡ some t)
      × (t.accepted ≡ s.accepted ++ accept size l)
      × Inv size t
line-Inv size message l s pos i =
    elim (Bool-cases (ltb (length l) (avail s.front.current_buffer))) [
      | inl e ↦
          let (c, g, w, t) =
            shown size l s.front.current_buffer (avail s.front.current_buffer) l
              (ap (λ b. if b then l else []) e)
              (ap (λ n. n - s.front.current_buffer.cur) i.current.size_of) i.current in
          (
            record s {
              front = record s.front { current_buffer = c };
              accepted = s.accepted ++ accept size l;
            },
            rw (append_here size l s.front c e g) refl,
            refl,
            record {
              current = w;
              next = i.next;
              buffers = i.buffers;
              spare1 = i.spare1;
              spare2 = i.spare2;
              delivered = λ d.
                  ap (λ x. s.back.output ++ (contents s.front.buffers ++ x)) t
                  ∙ shift s.back.output (contents s.front.buffers)
                      (as_string s.front.current_buffer) l
                  ∙ ap₂ ◌++◌ (i.delivered d) (sym (ap (λ b. if b then l else []) (fits e)));
            },
          )
      | inr e ↦
          let n = or_else-IsEmpty size s.front.next_buffer s.front.buffers pos i.next in
          let (c, g, w, t) =
            shown size l (or_else (new_buffer size) s.front.next_buffer) size (accept size l) refl
              (whole _ n.1) n.0 in
          (
            record s {
              front = record {
                current_buffer = c;
                next_buffer = none;
                buffers = s.front.buffers ++ s.front.current_buffer ∷ [];
              };
              accepted = s.accepted ++ accept size l;
            },
            rw (append_next size l s.front c e g) refl,
            refl,
            record {
              current = w;
              next = after_full size s.front.buffers s.front.current_buffer;
              buffers =
                  AllValid-append size s.front.buffers s.front.current_buffer i.buffers i.current;
              spare1 = i.spare1;
              spare2 = i.spare2;
              delivered = λ d.
                  ap₂ (λ x y. s.back.output ++ (x ++ y))
                    (contents_all s.front.buffers s.front.current_buffer)
                    (t
                      ∙ ap (λ x. x ++ accept size l)
                          (as_string_empty size (or_else (new_buffer size) s.front.next_buffer) n))
                  ∙ sym (
                      append_assoc s.back.output
                        (contents s.front.buffers ++ as_string s.front.current_buffer)
                        (accept size l))
                  ∙ ap (λ x. x ++ accept size l) (i.delivered d);
            },
          )
    ]
  where
    fits : ltb (length l) (avail s.front.current_buffer) ≡ true → ltb (length l) size ≡ true
    fits e = ground (arith, i.current.size_of)

    whole : (k : ℕ) → k ≡ 0 → size ≡ size - k
    whole k e = omega arith
