-- ===== src/Buffer/Append.antt =====
-- Writing into a Buffer: cobra/buffer.h makeSpace, ensureWritableBytes, append, shrink.
use cobra.Base.{
  ℕ, ◌+◌, ◌-◌, ◌≤◌, ◌<◌, ◌≡◌, refl, ap, sym, ◌∙◌, List, ◌++◌, length, take, drop, replicate,
  length-append, length-take, length-replicate, take-append, append_assoc, arith, none, some, ltb,
  ◌==◌, le→leb, ltb→lt, Bool-cases, inl, inr, take_all, true, false,
}
use cobra.Buffer.{
  Buffer, cheap_prepend, max_size, copy_to, resize, make_space, ensure_writable_bytes, append,
  has_written, readable_bytes, writable_bytes, add_size,
}
use cobra.Buffer.Space.{IsValid, length-copy_to}
use cobra.Buffer.Content.{
  contents, Holds, length-contents, valid-Holds, contents_of_Holds, copy_to-eq,
}

-- What making room for `len` bytes gives: a valid buffer with the same content and that room.
pub record Made (len : ℕ) (b b' : Buffer) : Type 0 where
  pub valid : IsValid b'
  pub same : contents b' ≡ contents b
  pub room : len ≤ writable_bytes b'
  pub front : b'.reader_index ≤ b.reader_index

pub resize-grow :
    (n : ℕ) (xs : List ℕ)
    → length xs ≤ n
    → n ≤ max_size
    → resize n xs ≡ some (xs ++ replicate (n - length xs) 0)
unfolding resize
resize-grow n xs h m =
    rw (le→leb-not) (ap (λ ys. some (ys ++ replicate (n - length xs) 0)) (take_all n xs h))
  where
    le→leb-not : ltb max_size n ≡ false
    le→leb-not = ground arith

pub grown-Made :
    (len : ℕ) {b : Buffer}
    → IsValid b
    → writable_bytes b < len
    → b.writer_index + len ≤ max_size
    → Made len b
        (record b { store = b.store ++ replicate (b.writer_index + len - length b.store) 0 })
grown-Made len {b} v h fits = record {
  valid = valid;
  same = contents_of_Holds held valid.bounded;
  room = omega (arith, size);
  front = omega arith;
}
  where
    zeros : List ℕ
    zeros = replicate (b.writer_index + len - length b.store) 0

    b' : Buffer
    b' = record b { store = b.store ++ zeros }

    size : length b'.store ≡ b.writer_index + len
    size = omega (
      arith,
      length-append b.store zeros,
      length-replicate {A = ℕ} (b.writer_index + len - length b.store) 0,
    )

    valid : IsValid b'
    valid = omega (arith, size)

    held :
        Holds b' (take b.reader_index b.store) (contents b) (drop b.writer_index b.store ++ zeros)
    held = record {
      whole =
          ap (λ xs. xs ++ zeros) (valid-Holds v).whole
          ∙ append_assoc (take b.reader_index b.store) (contents b ++ drop b.writer_index b.store)
              zeros
          ∙ ap (◌++◌ (take b.reader_index b.store))
              (append_assoc (contents b) (drop b.writer_index b.store) zeros);
      before = (valid-Holds v).before;
      upto = (valid-Holds v).upto;
    }

moved : Buffer → Buffer
moved b = record {
  store = copy_to b.store cheap_prepend (contents b);
  reader_index = cheap_prepend;
  writer_index = add_size cheap_prepend (readable_bytes b);
}

moved-Made :
    (len : ℕ) {b : Buffer}
    → IsValid b
    → len + cheap_prepend ≤ b.reader_index + writable_bytes b
    → cheap_prepend < b.reader_index
    → Made len b (moved b)
unfolding moved
moved-Made len {b} v h front = record {
  valid = valid;
  same = contents_of_Holds held valid.bounded;
  room = omega (arith, length-copy_to b.store cheap_prepend (contents b));
  front = omega arith;
}
  where
    valid : IsValid (moved b)
    valid = omega (arith, length-copy_to b.store cheap_prepend (contents b))

    held :
        Holds
          (moved b)
          (take cheap_prepend b.store)
          (contents b)
          (drop (cheap_prepend + length (contents b)) b.store)
    held = record {
      whole = copy_to-eq b.store cheap_prepend (contents b) (omega (arith, length-contents v));
      before = omega (arith, length-take cheap_prepend b.store);
      upto = omega (arith, length-take cheap_prepend b.store, length-contents v);
    }

make_space_lem :
    (len : ℕ) {b : Buffer}
    → IsValid b
    → writable_bytes b < len
    → b.writer_index + len ≤ max_size
    → (b' : Buffer) × (make_space len b ≡ some b') × Made len b b'
unfolding make_space moved
make_space_lem len {b} v h fits =
    elim (Bool-cases
      (ltb (add_size (writable_bytes b) b.reader_index) (add_size len cheap_prepend))) [
        | inl short ↦ (_, rw (short, wide, grow), grown-Made len v h fits)
        | inr enough ↦ (
          moved b,
          rw (enough, front enough, kept),
          moved-Made len v (ground arith) (ground arith),
        )
      ]
  where
    wide : add_size b.writer_index len ≡ b.writer_index + len
    wide = omega arith

    grow :
        resize (b.writer_index + len) b.store
        ≡ some (b.store ++ replicate (b.writer_index + len - length b.store) 0)
    grow = resize-grow (b.writer_index + len) b.store (omega arith) fits

    front :
        ltb (add_size (writable_bytes b) b.reader_index) (add_size len cheap_prepend) ≡ false
        → ltb cheap_prepend b.reader_index ≡ true
    front e = ground arith

    kept : (readable_bytes b == readable_bytes (moved b)) ≡ true
    kept = ground arith

-- ensureWritableBytes(len) succeeds where the writer index and `len` fit in a vector: the assertions
-- of makeSpace hold, the content stays, and at least `len` bytes are writable.
pub ensure_writable_bytes_lem :
    (len : ℕ) {b : Buffer}
    → IsValid b
    → b.writer_index + len ≤ max_size
    → (b' : Buffer) × (ensure_writable_bytes len b ≡ some b') × Made len b b'
unfolding ensure_writable_bytes
ensure_writable_bytes_lem len {b} v fits = elim (Bool-cases (ltb (writable_bytes b) len)) [
  | inl short ↦
      let (b', e, m) = make_space_lem len v (ltb→lt _ _ short) fits in
      (b', rw (short, e, le→leb len (writable_bytes b') m.room), m)
  | inr roomy ↦ (
    b,
    rw (roomy, le→leb len (writable_bytes b) (ground arith)),
    record { valid = v; same = refl; room = ground arith; front = omega arith },
  )
]

-- The buffer with `bytes` put behind its content, in place.
unfoldable pub written : List ℕ → Buffer → Buffer
written bytes b =
    has_written (length bytes) (record b { store = copy_to b.store b.writer_index bytes })

pub written-IsValid :
    (bytes : List ℕ) {b : Buffer}
    → IsValid b
    → length bytes ≤ writable_bytes b
    → IsValid (written bytes b)
unfolding written
written-IsValid bytes {b} v h = omega (arith, length-copy_to b.store b.writer_index bytes)

take-writer :
    {b : Buffer}
    → IsValid b
    → take b.writer_index b.store ≡ take b.reader_index b.store ++ contents b
take-writer {b} v =
    ap (take b.writer_index) (
      (valid-Holds v).whole
      ∙ sym (append_assoc (take b.reader_index b.store) (contents b) (drop b.writer_index b.store)))
    ∙ take-append b.writer_index (take b.reader_index b.store ++ contents b)
        (drop b.writer_index b.store)
        (length-append (take b.reader_index b.store) (contents b) ∙ (valid-Holds v).upto)

pub contents-written :
    (bytes : List ℕ) {b : Buffer}
    → IsValid b
    → length bytes ≤ writable_bytes b
    → contents (written bytes b) ≡ contents b ++ bytes
unfolding written
contents-written bytes {b} v h =
    contents_of_Holds held (omega (arith, length-copy_to b.store b.writer_index bytes))
  where
    held :
        Holds
          (written bytes b)
          (take b.reader_index b.store)
          (contents b ++ bytes)
          (drop (b.writer_index + length bytes) b.store)
    held = record {
      whole =
          copy_to-eq b.store b.writer_index bytes (omega arith)
          ∙ ap (λ xs. xs ++ (bytes ++ drop (b.writer_index + length bytes) b.store)) (take-writer v)
          ∙ append_assoc (take b.reader_index b.store) (contents b) _
          ∙ ap (◌++◌ (take b.reader_index b.store)) (sym (append_assoc (contents b) bytes _));
      before = (valid-Holds v).before;
      upto = omega (
        arith,
        length-take b.reader_index b.store,
        length-append (contents b) bytes,
        length-contents v,
      );
    }

-- append succeeds where the writer index and the bytes fit in a vector. It adds the bytes at the end
-- of the content, whether it grows the vector, moves the content to the front or does neither, keeps
-- the buffer valid, and moves the writer index no further than the bytes.
pub append_lem :
    (bytes : List ℕ) {b : Buffer}
    → IsValid b
    → b.writer_index + length bytes ≤ max_size
    → (b' : Buffer) × (append bytes b ≡ some b')
      × IsValid b'
      × (contents b' ≡ contents b ++ bytes)
      × (b'.writer_index ≤ b.writer_index + length bytes)
unfolding append written
append_lem bytes {b} v fits =
    let (roomy, e, m) = ensure_writable_bytes_lem (length bytes) v fits in
    (
      written bytes roomy,
      rw e,
      written-IsValid bytes m.valid m.room,
      contents-written bytes m.valid m.room ∙ ap (λ xs. xs ++ bytes) m.same,
      omega (arith, m.front, ap length m.same, length-contents v, length-contents m.valid),
    )

-- Where neither the vector's free bytes nor a vector of greatest size can take the bytes, append
-- throws from resize.
pub append_too_long :
    (bytes : List ℕ) {b : Buffer}
    → IsValid b
    → length bytes ≤ max_size
    → max_size < b.writer_index + length bytes
    → writable_bytes b + b.reader_index < length bytes + cheap_prepend
    → append bytes b ≡ none
unfolding append ensure_writable_bytes make_space resize
append_too_long bytes {b} v small long crowded = rw (short, cramped, over)
  where
    short : ltb (writable_bytes b) (length bytes) ≡ true
    short = ground arith

    cramped :
        ltb (add_size (writable_bytes b) b.reader_index) (add_size (length bytes) cheap_prepend)
        ≡ true
    cramped = ground arith

    over : ltb max_size (add_size b.writer_index (length bytes)) ≡ true
    over = ground arith

-- With room for the bytes append works in place.
pub append_in_place :
    (bytes : List ℕ) {b : Buffer}
    → IsValid b
    → length bytes ≤ writable_bytes b
    → append bytes b ≡ some (written bytes b)
unfolding append ensure_writable_bytes written
append_in_place bytes {b} v h = rw (enough, le→leb (length bytes) (writable_bytes b) h)
  where
    enough : ltb (writable_bytes b) (length bytes) ≡ false
    enough = ground arith
