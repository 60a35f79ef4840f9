-- ===== src/AsyncLogging.antt =====
-- base/AsyncLogging.h and base/AsyncLogging.cc: log lines that any thread appends and one thread writes. A
-- failed assertion is `none`. The buffers' size is a parameter, kLargeBuffer in the code, as is the message
-- about what was dropped. The log file is the bytes written to it.
pub mod Invariant
pub mod Lines
pub mod Spares
pub mod Turns
pub mod Delivery
mod Tests
use cobra.Base.{
  ℕ, List, [], ◌∷◌, ◌++◌, Bool, true, false, ◌||◌, Option, none, some, if◌then◌else◌, check, ◌>>=◌,
  ◌>>◌, length, take, replicate, ltb, ◌==◌,
}
use cobra.LogStream.{FixedBuffer, avail, as_string}
use cobra.LogStream

-- What the mutex guards.
pub record AsyncLogging : Type 0 where
  pub current_buffer : FixedBuffer
  pub next_buffer : Option FixedBuffer
  pub buffers : List FixedBuffer

-- The variables of threadFunc, with what it has written.
pub record Writer : Type 0 where
  pub new_buffer1 : Option FixedBuffer
  pub new_buffer2 : Option FixedBuffer
  pub output : List ℕ
  -- Whether lines have been dropped.
  pub dropped : Bool

-- new Buffer, then bzero.
abbrev pub new_buffer : ℕ → FixedBuffer
new_buffer size = record { data_ = replicate size 0; cur = 0 }

-- AsyncLogging::AsyncLogging
abbrev pub new : ℕ → AsyncLogging
new size = record {
  current_buffer = new_buffer size;
  next_buffer = some (new_buffer size);
  buffers = [];
}

-- The beginning of threadFunc.
abbrev pub begin_thread : ℕ → Writer
begin_thread size = record {
  new_buffer1 = some (new_buffer size);
  new_buffer2 = some (new_buffer size);
  output = [];
  dropped = false;
}

abbrev pub or_else : FixedBuffer → Option FixedBuffer → FixedBuffer
or_else b none = b
or_else b (some c) = c

-- AsyncLogging::append
unfoldable pub append : ℕ → List ℕ → AsyncLogging → Option AsyncLogging
append size logline a = elim (ltb (length logline) (avail a.current_buffer)) [
  | true ↦ (do
    b ← LogStream.append logline a.current_buffer
    some (record a { current_buffer = b }))
  | false ↦ (do
    b ← LogStream.append logline (or_else (new_buffer size) a.next_buffer)
    some (record {
      current_buffer = b;
      next_buffer = none;
      buffers = a.buffers ++ a.current_buffer ∷ [];
    }))
]

-- A spare buffer is there and empty.
unfoldable pub spare : Option FixedBuffer → Option FixedBuffer
spare o = do b ← o; check (b.cur == 0); some b

-- The bytes of a list of buffers, in order.
abbrev pub contents : List FixedBuffer → List ℕ
contents [] = []
contents (b ∷ bs) = as_string b ++ contents bs

-- ptr_vector::pop_back
abbrev pub pop_back : List FixedBuffer → Option (FixedBuffer × List FixedBuffer)
pop_back [] = none
pop_back (b ∷ []) = some (b, [])
pop_back (b ∷ c ∷ bs) = do (d, ds) ← pop_back (c ∷ bs); some (d, b ∷ ds)

-- The buffers that are written: the first two when there are more than 25.
abbrev pub kept : List FixedBuffer → List FixedBuffer
kept bs = if ltb 25 (length bs) then take 2 bs else bs

-- The second spare buffer for the next turn, when the first has come from the end of the buffers written.
unfoldable pub refill : Option FixedBuffer → FixedBuffer → List FixedBuffer → Option FixedBuffer
refill none new_buffer2 rest = do (b, rest) ← pop_back rest; some (LogStream.reset b)
refill (some b) new_buffer2 rest = some new_buffer2

-- A turn of the loop of threadFunc.
unfoldable pub turn : List ℕ → AsyncLogging → Writer → Option (AsyncLogging × Writer)
turn message a w = do
  new1 ← spare w.new_buffer1
  new2 ← spare w.new_buffer2
  let to_write : List FixedBuffer = a.buffers ++ a.current_buffer ∷ []
  (b, rest) ← pop_back (take 2 (kept to_write))
  c ← refill a.next_buffer new2 rest
  some (
    record { current_buffer = new1; next_buffer = some (or_else new2 a.next_buffer); buffers = [] },
    record {
      new_buffer1 = some (LogStream.reset b);
      new_buffer2 = some c;
      output =
          w.output
          ++ ((if ltb 25 (length to_write) then message else []) ++ contents (kept to_write));
      dropped = w.dropped || ltb 25 (length to_write);
    },
  )
