-- ===== src/Buffer.antt =====
-- cobra/buffer.h and cobra/buffer.cpp: the byte buffer of a connection.
-- `buffer_` is a list of bytes, and a pointer into it is its index. An operation whose assertion
-- fails, or whose `resize` throws, is `none`. size_t arithmetic wraps at 2 ^ 64.
pub mod Space
pub mod Content
pub mod Retrieve
pub mod Append
pub mod Shrink
pub mod ReadFd
pub mod Lines
pub mod Network
mod Tests
use cobra.Base.{
  ℕ, zero, suc, ◌+◌, ◌-◌, ◌%◌, ◌^◌, ◌≡◌, Bool, true, false, ◌&&◌, Option, none, some, List, [], ◌∷◌,
  ◌++◌, length, take, drop, replicate, ltb, leb, ◌==◌, if◌then◌else◌, ◌>>=◌, ◌>>◌, check,
}

pub record Buffer : Type 0 where
  pub store : List ℕ
  pub reader_index : ℕ
  pub writer_index : ℕ

abbrev pub cheap_prepend : ℕ
cheap_prepend = 8

abbrev pub initial_size : ℕ
initial_size = 1024

-- The longest std::vector<char>: lengths above it make `resize` throw.
abbrev pub max_size : ℕ
max_size = 2 ^ 63 - 1

abbrev pub add_size : ℕ → ℕ → ℕ
add_size a b = (a + b) % 2 ^ 64

abbrev pub sub_size : ℕ → ℕ → ℕ
sub_size a b = (a + 2 ^ 64 - b) % 2 ^ 64

-- std::copy of `src` to the positions from `i` on. What would go past the end is dropped here; every
-- use stays within the vector where the buffer is valid.
abbrev pub copy_to {ℓ} : {A : Type ℓ} → List A → ℕ → List A → List A
copy_to [] i src = []
copy_to (x ∷ xs) (suc i) src = x ∷ copy_to xs i src
copy_to (x ∷ xs) zero [] = x ∷ xs
copy_to (x ∷ xs) zero (d ∷ src) = d ∷ copy_to xs zero src

-- vector<char>::resize, with the new bytes zero.
pub resize : ℕ → List ℕ → Option (List ℕ)
resize n xs = if ltb max_size n then none else some (take n xs ++ replicate (n - length xs) 0)

-- Buffer::Buffer
unfoldable pub new : Buffer
new = record {
  store = replicate (cheap_prepend + initial_size) 0;
  reader_index = cheap_prepend;
  writer_index = cheap_prepend;
}

abbrev pub readable_bytes : Buffer → ℕ
readable_bytes b = sub_size b.writer_index b.reader_index

abbrev pub writable_bytes : Buffer → ℕ
writable_bytes b = sub_size (length b.store) b.writer_index

abbrev pub prependable_bytes : Buffer → ℕ
prependable_bytes b = b.reader_index

-- The `n` bytes from the pointer `i` on.
abbrev pub bytes_at {ℓ} : {A : Type ℓ} → List A → ℕ → ℕ → List A
bytes_at xs i n = take n (drop i xs)

-- Buffer::retrieveAll
unfoldable pub retrieve_all : Buffer → Buffer
retrieve_all b = record b { reader_index = cheap_prepend; writer_index = cheap_prepend }

-- Buffer::retrieve
unfoldable pub retrieve : ℕ → Buffer → Option Buffer
retrieve len b = do
  check (leb len (readable_bytes b))
  some (
      if ltb len (readable_bytes b)
      then record b { reader_index = add_size b.reader_index len }
      else retrieve_all b)

-- Buffer::retrieveUntil; `end` is an index into the vector.
pub retrieve_until : ℕ → Buffer → Option Buffer
retrieve_until end b = do
  check (leb b.reader_index end)
  check (leb end b.writer_index)
  retrieve (end - b.reader_index) b

-- Buffer::retrieveAsString
unfoldable pub retrieve_as_string : ℕ → Buffer → Option (List ℕ × Buffer)
retrieve_as_string len b = do
  check (leb len (readable_bytes b))
  let result = bytes_at b.store b.reader_index len
  rest ← retrieve len b
  some (result, rest)

-- Buffer::retrieveAllAsString
unfoldable pub retrieve_all_as_string : Buffer → Option (List ℕ × Buffer)
retrieve_all_as_string b = retrieve_as_string (readable_bytes b) b

-- Buffer::makeSpace
pub make_space : ℕ → Buffer → Option Buffer
make_space len b =
    if ltb (add_size (writable_bytes b) (prependable_bytes b)) (add_size len cheap_prepend)
    then (do
      grown ← resize (add_size b.writer_index len) b.store
      some (record b { store = grown }))
    else (do
      check (ltb cheap_prepend b.reader_index)
      let readable = readable_bytes b
      let moved : Buffer = record {
        store = copy_to b.store cheap_prepend (bytes_at b.store b.reader_index readable);
        reader_index = cheap_prepend;
        writer_index = add_size cheap_prepend readable;
      }
      check (readable == readable_bytes moved)
      some moved)

-- Buffer::ensureWritableBytes
pub ensure_writable_bytes : ℕ → Buffer → Option Buffer
ensure_writable_bytes len b = do
  roomy ← if ltb (writable_bytes b) len then make_space len b else some b
  check (leb len (writable_bytes roomy))
  some roomy

-- Buffer::hasWritten
abbrev pub has_written : ℕ → Buffer → Buffer
has_written len b = record b { writer_index = add_size b.writer_index len }

-- Buffer::append of the `len` bytes that `data` points to.
unfoldable pub append : List ℕ → Buffer → Option Buffer
append bytes b = do
  roomy ← ensure_writable_bytes (length bytes) b
  some (
      has_written (length bytes)
        (record roomy { store = copy_to roomy.store roomy.writer_index bytes }))

-- Buffer::prepend
unfoldable pub prepend : List ℕ → Buffer → Option Buffer
prepend bytes b = do
  check (leb (length bytes) (prependable_bytes b))
  let start = sub_size b.reader_index (length bytes)
  some (record b { store = copy_to b.store start bytes; reader_index = start })

-- Buffer::toStringPiece. Its length is an `int`: `none` where the readable bytes are too many for one.
pub to_string_piece : Buffer → Option (List ℕ)
to_string_piece b =
    if ltb (readable_bytes b) (2 ^ 31)
    then some (bytes_at b.store b.reader_index (readable_bytes b))
    else none

-- Buffer::shrink
pub shrink : ℕ → Buffer → Option Buffer
shrink reserve b = do
  other ← ensure_writable_bytes (add_size (readable_bytes b) reserve) new
  piece ← to_string_piece b
  append piece other
