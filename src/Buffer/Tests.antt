-- ===== src/Buffer/Tests.antt =====
-- The Buffer theorems at concrete buffers, and runs of cobra/buffer.h by evaluation.
use cobra.Base.{ℕ, ◌+◌, ◌*◌, ◌/◌, ◌%◌, ◌≤◌, ◌<◌, ◌^◌, ◌≡◌, refl, List, [], ◌∷◌, take, some, arith}
use cobra.Buffer.{
  Buffer, append, retrieve, retrieve_until, make_space, ensure_writable_bytes, resize,
}
use cobra.Buffer.Space.{IsValid}
use cobra.Buffer.Content.{contents}
use cobra.Buffer.Retrieve.{retrieve_lem}
use cobra.Buffer.Append.{append_lem}
use cobra.Buffer.ReadFd.{ReadvResult, stored, read_count, read_fd, read_fd_lem}
use cobra.Buffer.Lines.{find_crlf, find_crlf-retrieve_until, search_crlf, NoCrlf}
use cobra.Buffer.Network.{Host, be_bytes16, be_bytes32, append_all, read_all, read_all-append_all}

-- "ab\r\nc" behind ten bytes, with a stale "\n" two bytes past it.
abbrev sample : Buffer
sample = record {
  store = 0 ∷ 0 ∷ 0 ∷ 0 ∷ 0 ∷ 0 ∷ 0 ∷ 0 ∷ 0 ∷ 0 ∷ 97 ∷ 98 ∷ 13 ∷ 10 ∷ 99 ∷ 0 ∷ 10 ∷ [];
  reader_index = 10;
  writer_index = 15;
}

sample-IsValid : IsValid sample
sample-IsValid = omega arith

-- Appending three bytes to a buffer with two free moves its content to the front.
append-moves :
    append (1 ∷ 2 ∷ 3 ∷ []) sample
    ≡ some (record {
      store = 0 ∷ 0 ∷ 0 ∷ 0 ∷ 0 ∷ 0 ∷ 0 ∷ 0 ∷ 97 ∷ 98 ∷ 13 ∷ 10 ∷ 99 ∷ 1 ∷ 2 ∷ 3 ∷ 10 ∷ [];
      reader_index = 8;
      writer_index = 16;
    })
unfolding append ensure_writable_bytes make_space resize
append-moves = refl

find_crlf-sample : find_crlf sample ≡ some 12
unfolding find_crlf search_crlf
find_crlf-sample = refl

retrieve_lem_example :
    (b' : Buffer) × (retrieve 2 sample ≡ some b')
    × IsValid b'
    × (contents b' ≡ 13 ∷ 10 ∷ 99 ∷ [])
    × (b'.store ≡ sample.store)
    × (b'.writer_index ≤ 15)
retrieve_lem_example = retrieve_lem 2 sample-IsValid (omega arith)

append_lem_example :
    (b' : Buffer) × (append (1 ∷ 2 ∷ 3 ∷ []) sample ≡ some b')
    × IsValid b'
    × (contents b' ≡ 97 ∷ 98 ∷ 13 ∷ 10 ∷ 99 ∷ 1 ∷ 2 ∷ 3 ∷ [])
    × (b'.writer_index ≤ 15 + 3)
append_lem_example = append_lem (1 ∷ 2 ∷ 3 ∷ []) sample-IsValid (omega arith)

-- A read of four bytes: two fit the vector, two arrive in the array on the stack.
abbrev four : List ℕ → ReadvResult
four lengths = stored (1 ∷ 2 ∷ 3 ∷ 4 ∷ [])

read_fd_lem_example :
    (b' : Buffer) × (read_fd four sample ≡ some (read_count 4, b'))
    × IsValid b'
    × (contents b' ≡ 97 ∷ 98 ∷ 13 ∷ 10 ∷ 99 ∷ 1 ∷ 2 ∷ 3 ∷ 4 ∷ [])
read_fd_lem_example =
    read_fd_lem four (1 ∷ 2 ∷ 3 ∷ 4 ∷ []) sample-IsValid (omega arith) refl (omega arith)

find_crlf-retrieve_until_example :
    (b' : Buffer) × (post : List ℕ) × (retrieve_until 12 sample ≡ some b')
    × IsValid b'
    × (contents b' ≡ 13 ∷ 10 ∷ post)
    × NoCrlf (take 3 (contents sample))
unfolding find_crlf search_crlf
find_crlf-retrieve_until_example = find_crlf-retrieve_until sample-IsValid refl

-- A machine with the least significant byte first.
abbrev swap16 : ℕ → ℕ
swap16 x = x % 256 * 256 + x / 256 % 256

abbrev swap32 : ℕ → ℕ
swap32 x = x % 256 * 16777216 + x / 256 % 256 * 65536 + x / 65536 % 256 * 256 + x / 16777216 % 256

abbrev le16 : ℕ → List ℕ
le16 x = (x % 256) ∷ (x / 256 % 256) ∷ []

abbrev le32 : ℕ → List ℕ
le32 x = (x % 256) ∷ (x / 256 % 256) ∷ (x / 65536 % 256) ∷ (x / 16777216 % 256) ∷ []

abbrev of_le16 : List ℕ → ℕ
of_le16 (a ∷ b ∷ []) = a + b * 256
of_le16 _ = 0

abbrev of_le32 : List ℕ → ℕ
of_le32 (a ∷ b ∷ c ∷ d ∷ []) = a + b * 256 + c * 65536 + d * 16777216
of_le32 _ = 0

le16-swap16 : (x : ℕ) → x < 2 ^ 16 → le16 (swap16 x) ≡ be_bytes16 x
le16-swap16 x h = ground arith

le32-swap32 : (x : ℕ) → x < 2 ^ 32 → le32 (swap32 x) ≡ be_bytes32 x
le32-swap32 x h = ground arith

swap16-of_le16 : (x : ℕ) → x < 2 ^ 16 → swap16 (of_le16 (be_bytes16 x)) ≡ x
swap16-of_le16 x h = omega arith

swap32-of_le32 : (x : ℕ) → x < 2 ^ 32 → swap32 (of_le32 (be_bytes32 x)) ≡ x
swap32-of_le32 x h = omega arith

abbrev little_endian : Host
little_endian = record {
  htobe16 = swap16;
  htobe32 = swap32;
  be16toh = swap16;
  be32toh = swap32;
  object16 = le16;
  object32 = le32;
  value16 = of_le16;
  value32 = of_le32;
  object16-htobe16 = le16-swap16;
  object32-htobe32 = le32-swap32;
  be16toh-value16 = swap16-of_le16;
  be32toh-value32 = swap32-of_le32;
}

abbrev hollow : Buffer
hollow = record sample { reader_index = 8; writer_index = 8 }

read_all-append_all_example :
    (b' : Buffer) × (b'' : Buffer) × (append_all little_endian (7 ∷ 4294967295 ∷ []) hollow
      ≡ some b')
    × (read_all little_endian 2 b' ≡ some (7 ∷ 4294967295 ∷ [], b''))
    × IsValid b''
    × (contents b'' ≡ [])
read_all-append_all_example =
    read_all-append_all little_endian (7 ∷ 4294967295 ∷ []) {b = hollow} (omega arith) refl
      (omega arith) (omega arith)
