-- ===== src/Buffer/Retrieve.antt =====
-- Reading out of a Buffer: cobra/buffer.h retrieve, retrieveAsString, prepend.
use cobra.Base.{
  ℕ, ◌+◌, ◌-◌, ◌≤◌, ◌<◌, ◌≡◌, refl, ap, ap₂, sym, ◌∙◌, List, ◌++◌, length, take, drop,
  length-append, length-take, drop-append, drop-drop, append_assoc, arith, none, some, ltb, le→leb,
  Bool-cases, inl, inr, drop_all, drop-take, take-take, max,
}
use cobra.Buffer.{
  Buffer, cheap_prepend, copy_to, retrieve_all, retrieve, retrieve_as_string, prepend,
  readable_bytes, prependable_bytes, bytes_at, add_size, sub_size,
}
use cobra.Buffer.Space.{IsValid, length-copy_to}
use cobra.Buffer.Content.{
  contents, Holds, length-contents, valid-Holds, contents_of_Holds, copy_to-eq,
}

-- From the reader index on a valid vector is the content and the writable bytes.
rest-contents :
    {b : Buffer}
    → IsValid b
    → drop b.reader_index b.store ≡ contents b ++ drop b.writer_index b.store
rest-contents {b} v =
    ap (drop b.reader_index) (valid-Holds v).whole
    ∙ drop-append b.reader_index (take b.reader_index b.store)
        (contents b ++ drop b.writer_index b.store) (valid-Holds v).before

-- Advancing the reader index drops the bytes passed.
advance-contents :
    (len : ℕ) {b : Buffer}
    → IsValid b
    → len ≤ readable_bytes b
    → contents (record b { reader_index = add_size b.reader_index len }) ≡ drop len (contents b)
advance-contents len {b} v h = sym (
    drop-take len (readable_bytes b) (drop b.reader_index b.store)
    ∙ ap (take (readable_bytes b - len)) (drop-drop b.reader_index len b.store)
    ∙ ap₂ (bytes_at b.store) (omega arith) (omega arith))

-- retrieve(len) with at most the readable bytes succeeds, drops exactly the first `len` bytes of the
-- content, keeps the buffer valid, does not touch its vector, and moves the writer
-- index no further than the cheap-prepend bytes.
pub retrieve_lem :
    (len : ℕ) {b : Buffer}
    → IsValid b
    → len ≤ readable_bytes b
    → (b' : Buffer) × (retrieve len b ≡ some b')
      × IsValid b'
      × (contents b' ≡ drop len (contents b))
      × (b'.store ≡ b.store)
      × (b'.writer_index ≤ max b.writer_index cheap_prepend)
unfolding retrieve retrieve_all
retrieve_lem len {b} v h = elim (Bool-cases (ltb len (readable_bytes b))) [
  | inl more ↦ (
    record b { reader_index = add_size b.reader_index len },
    rw (le→leb len (readable_bytes b) h, more),
    ground arith,
    advance-contents len v h,
    refl,
    omega arith,
  )
  | inr done ↦ (
    retrieve_all b,
    rw (le→leb len (readable_bytes b) h, done),
    omega arith,
    sym (drop_all len (contents b) (ground (arith, length-contents v))),
    refl,
    omega arith,
  )
]

-- Retrieving more than is readable fails the assertion.
pub retrieve_too_many : (len : ℕ) (b : Buffer) → readable_bytes b < len → retrieve len b ≡ none
unfolding retrieve
retrieve_too_many len b h = ground arith

-- retrieveAsString(len) with at most the readable bytes returns the first `len` bytes of the content,
-- in order, and leaves a valid buffer that holds the others.
retrieve_as_string_lem :
    (len : ℕ) {b : Buffer}
    → IsValid b
    → len ≤ readable_bytes b
    → (b' : Buffer) × (retrieve_as_string len b ≡ some (take len (contents b), b'))
      × IsValid b'
      × (contents b' ≡ drop len (contents b))
unfolding retrieve_as_string
retrieve_as_string_lem len {b} v h =
    let (b', e, v', c, _, _) = retrieve_lem len v h in
    (b', rw (le→leb len (readable_bytes b) h, e) (ap (λ xs. some (xs, b')) first), v', c)
  where
    first : bytes_at b.store b.reader_index len ≡ take len (contents b)
    first = sym (take-take len (readable_bytes b) (drop b.reader_index b.store) h)

-- prepend of at most the prependable bytes succeeds, puts the bytes before the content, and keeps
-- the buffer valid and its vector's length.
prepend_lem :
    (bytes : List ℕ) {b : Buffer}
    → IsValid b
    → length bytes ≤ prependable_bytes b
    → (b' : Buffer) × (prepend bytes b ≡ some b')
      × IsValid b'
      × (contents b' ≡ bytes ++ contents b)
      × (length b'.store ≡ length b.store)
unfolding prepend
prepend_lem bytes {b} v h = (
  b',
  rw (le→leb (length bytes) (prependable_bytes b) h),
  valid,
  contents_of_Holds held (omega (arith, valid.bounded)),
  length-copy_to b.store start bytes,
)
  where
    start : ℕ
    start = sub_size b.reader_index (length bytes)

    b' : Buffer
    b' = record b { store = copy_to b.store start bytes; reader_index = start }

    valid : IsValid b'
    valid = omega (arith, length-copy_to b.store start bytes)

    back : start + length bytes ≡ b.reader_index
    back = omega arith

    held : Holds b' (take start b.store) (bytes ++ contents b) (drop b.writer_index b.store)
    held = record {
      whole =
          copy_to-eq b.store start bytes (omega arith)
          ∙ ap (λ xs. take start b.store ++ (bytes ++ xs))
              (ap (λ k. drop k b.store) back ∙ rest-contents v)
          ∙ ap (◌++◌ (take start b.store)) (sym (append_assoc bytes (contents b) _));
      before = omega (arith, length-take start b.store);
      upto =
          omega
            (arith, length-take start b.store, length-append bytes (contents b), length-contents v);
    }
