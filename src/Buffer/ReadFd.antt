-- ===== src/Buffer/ReadFd.antt =====
-- cobra/buffer.cpp Buffer::readFd: one readv(2) into the free bytes and a 64 KB array on the stack.
-- The system call is a parameter: from the lengths of the pieces offered to its result.
use cobra.Base.{
  ℕ, ◌+◌, ◌≤◌, ◌≡◌, refl, ap, ◌∙◌, List, [], ◌∷◌, ◌++◌, length, take, drop, length-take,
  length-drop, take-append-drop, append_assoc, arith, Option, some, ◌>>=◌, ltb, leb, leb→le,
  Bool-cases, inl, inr, true, false, if◌then◌else◌, take_all,
}
use cobra.Buffer.{Buffer, max_size, copy_to, append, has_written, writable_bytes, add_size}
use cobra.Buffer.Space.{IsValid, length-copy_to}
use cobra.Buffer.Content.{contents}
use cobra.Buffer.Append.{written, written-IsValid, contents-written, append_lem}

-- What readv reports: an errno, or the bytes that it stored, in order, across the pieces.
pub data ReadvResult : Type 0 where
  failed : ℕ → ReadvResult
  stored : List ℕ → ReadvResult

-- What readFd returns beside the buffer: -1 with the saved errno, or the count.
pub data ReadCount : Type 0 where
  read_error : ℕ → ReadCount
  read_count : ℕ → ReadCount

abbrev pub extra_size : ℕ
extra_size = 65536

-- The lengths of the pieces: `iovcnt` is 2 where the free bytes are fewer than the array's.
abbrev pub offered : Buffer → List ℕ
offered b =
    if ltb (writable_bytes b) extra_size
    then writable_bytes b ∷ extra_size ∷ []
    else writable_bytes b ∷ []

unfoldable pub read_fd : (List ℕ → ReadvResult) → Buffer → Option (ReadCount × Buffer)
read_fd readv b = elim (readv (offered b)) [
  | failed errno ↦ some (read_error errno, b)
  | stored bytes ↦
      let n = length bytes in
      let writable = writable_bytes b in
      let filled : Buffer = record b {
        store = copy_to b.store b.writer_index (take writable bytes);
      } in
      let spilled =
        append (drop writable bytes) (record filled { writer_index = length filled.store }) in
      if leb n writable
      then some (read_count n, has_written n filled)
      else if leb n (add_size writable extra_size)
      then (do grown ← spilled; some (read_count n, grown))
      else some (read_count n, filled)
]

abbrev pub sum : List ℕ → ℕ
sum [] = 0
sum (n ∷ ns) = n + sum ns

-- A successful readFd returns the count of the bytes read, puts exactly these behind the content, in
-- order, whether they fit the free bytes or spill into the array on the stack, and keeps the buffer
-- valid: if readv stores no more than it is offered, and the vector may still grow by the array.
pub read_fd_lem :
    (readv : List ℕ → ReadvResult) (bytes : List ℕ) {b : Buffer}
    → IsValid b
    → length b.store + extra_size ≤ max_size
    → readv (offered b) ≡ stored bytes
    → length bytes ≤ sum (offered b)
    → (b' : Buffer) × (read_fd readv b ≡ some (read_count (length bytes), b'))
      × IsValid b'
      × (contents b' ≡ contents b ++ bytes)
unfolding read_fd
read_fd_lem readv bytes {b} v big e fits =
    elim (Bool-cases (leb (length bytes) (writable_bytes b))) [
      | inl short ↦ (
        written bytes b,
        rw (e, read_fd, short, whole short)
            (ap (λ x. some (read_count (length bytes), x)) in_place),
        written-IsValid bytes v (leb→le _ _ short),
        contents-written bytes v (leb→le _ _ short),
      )
      | inr long ↦
          let head_fits : length (take room bytes) ≤ room = omega (arith, length-take room bytes) in
          let v1 : IsValid (written (take room bytes) b) =
            written-IsValid (take room bytes) v head_fits in
          let (b', e', v', c', _) = append_lem (drop room bytes) v1 (tail_fits long) in
          (
            b',
            rw (e, read_fd, long, spills long, full long, e'),
            v',
            c'
                ∙ ap (λ xs. xs ++ drop room bytes) (contents-written (take room bytes) v head_fits)
                ∙ append_assoc (contents b) (take room bytes) (drop room bytes)
                ∙ ap (◌++◌ (contents b)) (take-append-drop room bytes),
          )
    ]
  where
    whole : leb (length bytes) (writable_bytes b) ≡ true → take (writable_bytes b) bytes ≡ bytes
    whole short = take_all (writable_bytes b) bytes (leb→le _ _ short)

    room : ℕ
    room = writable_bytes b

    filled : Buffer
    filled = record b { store = copy_to b.store b.writer_index (take room bytes) }

    full :
        leb (length bytes) room ≡ false
        → record filled { writer_index = length filled.store } ≡ written (take room bytes) b
    full long =
        unfold written in
        ap (λ w. record filled { writer_index = w })
          (ground (
            arith,
            length-copy_to b.store b.writer_index (take room bytes),
            length-take room bytes,
          ))

    tail_fits :
        leb (length bytes) room ≡ false
        → (written (take room bytes) b).writer_index + length (drop room bytes) ≤ max_size
    tail_fits long = ground (
      arith,
      ap (λ (x : Buffer). x.writer_index) (full long),
      length-copy_to b.store b.writer_index (take room bytes),
      length-drop room bytes,
    )

    spills : leb (length bytes) room ≡ false → leb (length bytes) (add_size room extra_size) ≡ true
    spills long = ground arith

    in_place :
        has_written (length bytes) (record b { store = copy_to b.store b.writer_index bytes })
        ≡ written bytes b
    in_place = unfold written in refl
