-- ===== src/Buffer/Network.antt =====
-- Integers in network order: cobra/endian.h and the Int8, Int16 and Int32 operations of cobra/buffer.h.
-- An int32_t is its bit pattern, below 2 ^ 32. The byte order of the machine and <endian.h> are a
-- parameter, with what the manual page of htobe32 and be32toh says as laws.
use cobra.Base.{
  ℕ, zero, suc, ◌+◌, ◌/◌, ◌%◌, ◌^◌, ◌≤◌, ◌<◌, ◌≡◌, refl, ap, sym, ◌∙◌, List, [], ◌∷◌, ◌++◌, length,
  take, drop, length-append, take-append, take-take, append_assoc, append-nil, arith, Option, none,
  some, ◌>>=◌, ◌>>◌, check, leb, le→leb,
}
use cobra.Buffer.{Buffer, max_size, append, prepend, retrieve, readable_bytes, bytes_at}
use cobra.Buffer.Space.{IsValid}
use cobra.Buffer.Content.{contents, length-contents}
use cobra.Buffer.Retrieve.{retrieve_lem}
use cobra.Buffer.Append.{append_lem}

-- The bytes of a number in network order, most significant first.
abbrev pub be_bytes16 : ℕ → List ℕ
be_bytes16 x = (x / 2 ^ 8 % 256) ∷ (x % 256) ∷ []

abbrev pub be_bytes32 : ℕ → List ℕ
be_bytes32 x = (x / 2 ^ 24 % 256) ∷ (x / 2 ^ 16 % 256) ∷ (x / 2 ^ 8 % 256) ∷ (x % 256) ∷ []

pub record Host : Type 0 where
  -- <endian.h>
  pub htobe16 : ℕ → ℕ
  pub htobe32 : ℕ → ℕ
  pub be16toh : ℕ → ℕ
  pub be32toh : ℕ → ℕ
  -- the bytes of a variable in memory, and the variable that holds given bytes
  pub object16 : ℕ → List ℕ
  pub object32 : ℕ → List ℕ
  pub value16 : List ℕ → ℕ
  pub value32 : List ℕ → ℕ
  pub object16-htobe16 : (x : ℕ) → x < 2 ^ 16 → object16 (htobe16 x) ≡ be_bytes16 x
  pub object32-htobe32 : (x : ℕ) → x < 2 ^ 32 → object32 (htobe32 x) ≡ be_bytes32 x
  pub be16toh-value16 : (x : ℕ) → x < 2 ^ 16 → be16toh (value16 (be_bytes16 x)) ≡ x
  pub be32toh-value32 : (x : ℕ) → x < 2 ^ 32 → be32toh (value32 (be_bytes32 x)) ≡ x

module _ (host : Host) where
  open host use {
    htobe16, htobe32, be16toh, be32toh, object16, object32, value16, value32, object16-htobe16,
    object32-htobe32, be16toh-value16, be32toh-value32,
  }

  unfoldable pub host_to_network32 : ℕ → ℕ
  host_to_network32 x = htobe32 x

  unfoldable pub host_to_network16 : ℕ → ℕ
  host_to_network16 x = htobe16 x

  unfoldable pub network_to_host32 : ℕ → ℕ
  network_to_host32 x = be32toh x

  unfoldable pub network_to_host16 : ℕ → ℕ
  network_to_host16 x = be16toh x

  unfoldable pub append_int32 : ℕ → Buffer → Option Buffer
  append_int32 x b = append (object32 (host_to_network32 x)) b

  unfoldable pub append_int16 : ℕ → Buffer → Option Buffer
  append_int16 x b = append (object16 (host_to_network16 x)) b

  unfoldable pub prepend_int32 : ℕ → Buffer → Option Buffer
  prepend_int32 x b = prepend (object32 (host_to_network32 x)) b

  unfoldable pub prepend_int16 : ℕ → Buffer → Option Buffer
  prepend_int16 x b = prepend (object16 (host_to_network16 x)) b

  unfoldable pub peek_int32 : Buffer → Option ℕ
  peek_int32 b = do
    check (leb 4 (readable_bytes b))
    some (network_to_host32 (value32 (bytes_at b.store b.reader_index 4)))

  unfoldable pub peek_int16 : Buffer → Option ℕ
  peek_int16 b = do
    check (leb 2 (readable_bytes b))
    some (network_to_host16 (value16 (bytes_at b.store b.reader_index 2)))

  unfoldable pub read_int32 : Buffer → Option (ℕ × Buffer)
  read_int32 b = do result ← peek_int32 b; rest ← retrieve 4 b; some (result, rest)

  unfoldable pub read_int16 : Buffer → Option (ℕ × Buffer)
  read_int16 b = do result ← peek_int16 b; rest ← retrieve 2 b; some (result, rest)

-- The Int8 operations.
unfoldable pub append_int8 : ℕ → Buffer → Option Buffer
append_int8 x b = append (x ∷ []) b

unfoldable pub prepend_int8 : ℕ → Buffer → Option Buffer
prepend_int8 x b = prepend (x ∷ []) b

unfoldable pub peek_int8 : Buffer → Option ℕ
peek_int8 b = do
  check (leb 1 (readable_bytes b))
  elim (bytes_at b.store b.reader_index 1) [ [] ↦ none | x ∷ _ ↦ some x ]

unfoldable pub read_int8 : Buffer → Option (ℕ × Buffer)
read_int8 b = do result ← peek_int8 b; rest ← retrieve 1 b; some (result, rest)

-- The front of the content lies at the reader index.
front :
    {b : Buffer} (bytes rest : List ℕ)
    → IsValid b
    → contents b ≡ bytes ++ rest
    → (length bytes ≤ readable_bytes b) × (bytes_at b.store b.reader_index (length bytes) ≡ bytes)
front {b} bytes rest v e = (
  size,
  sym (take-take (length bytes) (readable_bytes b) (drop b.reader_index b.store) size)
      ∙ ap (take (length bytes)) e
      ∙ take-append (length bytes) bytes rest refl,
)
  where
    size : length bytes ≤ readable_bytes b
    size = omega (arith, length-contents v, ap length e, length-append bytes rest)

module _ (host : Host) where
  -- readInt32 of a buffer whose content starts with the network order of `x` returns `x` and leaves
  -- what follows.
  read_int32-front :
      {b : Buffer} (x : ℕ) (rest : List ℕ)
      → IsValid b
      → x < 2 ^ 32
      → contents b ≡ be_bytes32 x ++ rest
      → (b' : Buffer) × (read_int32 host b ≡ some (x, b')) × IsValid b' × (contents b' ≡ rest)
  unfolding read_int32 peek_int32 network_to_host32
  read_int32-front {b} x rest v small e =
      let (size, same) = front (be_bytes32 x) rest v e in
      let (b', r, v', c, _, _) = retrieve_lem 4 v size in
      (
        b',
        rw (le→leb 4 (readable_bytes b) size, same, host.be32toh-value32 x small, r),
        v',
        c ∙ ap (drop 4) e,
      )

  append_int32-back :
      {b : Buffer} (x : ℕ)
      → IsValid b
      → x < 2 ^ 32
      → b.writer_index + 4 ≤ max_size
      → (b' : Buffer) × (append_int32 host x b ≡ some b')
        × IsValid b'
        × (contents b' ≡ contents b ++ be_bytes32 x)
        × (b'.writer_index ≤ b.writer_index + 4)
  unfolding append_int32 host_to_network32
  append_int32-back {b} x v small fits =
      let (b', e, v', c', w) = append_lem (be_bytes32 x) v fits in
      (b', rw (host.object32-htobe32 x small) e, v', c', w)

  -- A sender's and a receiver's calls, in order.
  abbrev pub append_all : List ℕ → Buffer → Option Buffer
  append_all [] b = some b
  append_all (x ∷ xs) b = append_int32 host x b >>= append_all xs

  abbrev pub read_all : ℕ → Buffer → Option (List ℕ × Buffer)
  read_all zero b = some ([], b)
  read_all (suc n) b = do (x, b') ← read_int32 host b; (xs, b'') ← read_all n b'; some (x ∷ xs, b'')

  abbrev pub size_of : List ℕ → ℕ
  size_of [] = 0
  size_of (x ∷ xs) = 4 + size_of xs

  abbrev encode : List ℕ → List ℕ
  encode [] = []
  encode (x ∷ xs) = be_bytes32 x ++ encode xs

  abbrev pub AllSmall : List ℕ → Type 0
  AllSmall [] = Unit {0}
  AllSmall (x ∷ xs) = (x < 2 ^ 32) × AllSmall xs

  append_all-contents :
      (xs : List ℕ) {b : Buffer}
      → IsValid b
      → AllSmall xs
      → b.writer_index + size_of xs ≤ max_size
      → (b' : Buffer) × (append_all xs b ≡ some b')
        × IsValid b'
        × (contents b' ≡ contents b ++ encode xs)
  append_all-contents [] {b} v small fits = (b, refl, v, sym (append-nil (contents b)))
  append_all-contents (x ∷ xs) {b} v small fits =
      let (b1, e1, v1, c1, w1) = append_int32-back x v small.0 (omega arith) in
      let (b2, e2, v2, c2) = append_all-contents xs v1 small.1 (omega (arith, w1)) in
      (
        b2,
        rw e1 e2,
        v2,
        c2 ∙ ap (λ ys. ys ++ encode xs) c1 ∙ append_assoc (contents b) (be_bytes32 x) (encode xs),
      )

  read_all-contents :
      (xs : List ℕ) (rest : List ℕ) {b : Buffer}
      → IsValid b
      → AllSmall xs
      → contents b ≡ encode xs ++ rest
      → (b' : Buffer) × (read_all (length xs) b ≡ some (xs, b')) × IsValid b' × (contents b' ≡ rest)
  read_all-contents [] rest {b} v small e = (b, refl, v, e)
  read_all-contents (x ∷ xs) rest {b} v small e =
      let (b1, e1, v1, c1) =
        read_int32-front x (encode xs ++ rest) v small.0
          (e ∙ append_assoc (be_bytes32 x) (encode xs) rest) in
      let (b2, e2, v2, c2) = read_all-contents xs rest v1 small.1 c1 in (b2, rw (e1, e2), v2, c2)

  -- Numbers that appendInt32 puts one after another into an empty buffer, readInt32 gives back in
  -- the same order, each as it was, and the buffer is empty again: for 32-bit patterns that fit the
  -- vector, on any machine whose <endian.h> keeps to its manual.
  pub read_all-append_all :
      (xs : List ℕ) {b : Buffer}
      → IsValid b
      → contents b ≡ []
      → AllSmall xs
      → b.writer_index + size_of xs ≤ max_size
      → (b' : Buffer) × (b'' : Buffer) × (append_all xs b ≡ some b')
        × (read_all (length xs) b' ≡ some (xs, b''))
        × IsValid b''
        × (contents b'' ≡ [])
  read_all-append_all xs {b} v empty small fits =
      let (b1, e1, v1, c1) = append_all-contents xs v small fits in
      let (b2, e2, v2, c2) =
        read_all-contents xs [] v1 small
          (c1 ∙ ap (λ ys. ys ++ encode xs) empty ∙ sym (append-nil (encode xs))) in
      (b1, b2, e1, e2, v2, c2)
