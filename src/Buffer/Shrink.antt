-- ===== src/Buffer/Shrink.antt =====
-- cobra/buffer.h Buffer::shrink: the content moves to a vector that is no longer than needed.
use cobra.Base.{
  ℕ, ◌+◌, ◌-◌, ◌^◌, ◌≤◌, ◌<◌, ◌≡◌, refl, ap, ◌∙◌, [], ◌++◌, length, replicate, length-append,
  length-replicate, arith, some, max, ltb, le→leb, lt→ltb, ltb→lt, Bool-cases, inl, inr, true,
}
use cobra.Buffer.{
  Buffer, cheap_prepend, initial_size, max_size, new, resize, make_space, ensure_writable_bytes,
  shrink, to_string_piece, readable_bytes, writable_bytes, add_size,
}
use cobra.Buffer.Space.{IsValid, length-copy_to, new-IsValid}
use cobra.Buffer.Content.{contents, length-contents}
use cobra.Buffer.Append.{
  Made, grown-Made, resize-grow, written, written-IsValid, contents-written, append_in_place,
}

contents-new : contents new ≡ []
unfolding new
contents-new = refl

-- A new buffer made roomy: its indices stay, and it grows only past its first size.
ensure-new :
    (len : ℕ)
    → cheap_prepend + len ≤ max_size
    → (b' : Buffer) × (ensure_writable_bytes len new ≡ some b')
      × Made len new b'
      × (b'.reader_index ≡ cheap_prepend)
      × (b'.writer_index ≡ cheap_prepend)
      × (length b'.store ≡ max (cheap_prepend + initial_size) (cheap_prepend + len))
unfolding ensure_writable_bytes make_space new
ensure-new len fits = elim (Bool-cases (ltb initial_size len)) [
  | inl more ↦
      let m : Made len new (grown len) =
        grown-Made len {b = new} new-IsValid (ltb→lt initial_size len more) fits in
      (
        grown len,
        rw (more, short more, wide, grow more, le→leb len (writable_bytes (grown len)) m.room),
        m,
        refl,
        refl,
        size more,
      )
  | inr enough ↦ (
    new,
    rw (enough, le→leb len initial_size (ground arith)),
    record { valid = new-IsValid; same = refl; room = ground arith; front = omega arith },
    refl,
    refl,
    ground arith,
  )
]
  where
    grown : ℕ → Buffer
    grown n = record new {
      store = new.store ++ replicate (new.writer_index + n - length new.store) 0;
    }

    wide : add_size cheap_prepend len ≡ cheap_prepend + len
    wide = omega arith

    short :
        ltb initial_size len ≡ true
        → ltb (add_size initial_size cheap_prepend) (add_size len cheap_prepend) ≡ true
    short e = ground arith

    grow :
        ltb initial_size len ≡ true
        → resize (cheap_prepend + len) new.store ≡ some (grown len).store
    grow e = resize-grow (cheap_prepend + len) new.store (ground arith) fits

    size :
        ltb initial_size len ≡ true
        → length (grown len).store ≡ max (cheap_prepend + initial_size) (cheap_prepend + len)
    size e = ground (
      arith,
      length-append new.store (replicate (new.writer_index + len - length new.store) 0),
      length-replicate {A = ℕ} (new.writer_index + len - length new.store) 0,
    )

-- shrink(reserve), where the content fits an int, and content and reserve fit a vector behind the
-- cheap-prepend bytes: the content stays, the reader index is at the cheap-prepend bytes, the vector
-- has its first size or exactly what content and reserve need, whichever is more, and at least
-- `reserve` bytes are writable.
shrink_lem :
    (reserve : ℕ) {b : Buffer}
    → IsValid b
    → readable_bytes b < 2 ^ 31
    → cheap_prepend + readable_bytes b + reserve ≤ max_size
    → (b' : Buffer) × (shrink reserve b ≡ some b')
      × IsValid b'
      × (contents b' ≡ contents b)
      × (b'.reader_index ≡ cheap_prepend)
      × (length b'.store
          ≡ max (cheap_prepend + initial_size) (cheap_prepend + readable_bytes b + reserve))
      × (reserve ≤ writable_bytes b')
unfolding shrink to_string_piece written
shrink_lem reserve {b} v int fits =
    let (other, e, m, r, w, size) =
      ensure-new (add_size (readable_bytes b) reserve) (omega arith) in
    let room : length (contents b) ≤ writable_bytes other =
      omega (arith, length-contents v, m.room) in
    (
      written (contents b) other,
      rw (e, lt→ltb (readable_bytes b) (2 ^ 31) int) (append_in_place (contents b) m.valid room),
      written-IsValid (contents b) m.valid room,
      contents-written (contents b) m.valid room
          ∙ ap (λ xs. xs ++ contents b) (m.same ∙ contents-new),
      r,
      length-copy_to other.store other.writer_index (contents b) ∙ size ∙ omega arith,
      omega (arith, length-copy_to other.store other.writer_index (contents b), length-contents v),
    )
