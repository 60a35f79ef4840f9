-- ===== src/LogStream.antt =====
-- base/LogStream.h and base/LogStream.cc: the text of numbers, the buffer of fixed size behind a log
-- line, and the stream operators. A character is its code. A buffer is its array of bytes and the offset
-- of `cur_`; a write past the array is `none`. The format of a double is a parameter.
pub mod Texts
pub mod Digits
pub mod Convert
pub mod Room
pub mod Lines
mod Tests
use cobra.Base.{
  ℕ, zero, suc, ◌+◌, ◌-◌, ◌/◌, ◌%◌, ◌^◌, Bool, true, false, List, [], ◌∷◌, ◌++◌, Option, none, some,
  if◌then◌else◌, ◌>>=◌, length, get_elem?, take, ltb, leb, ◌==◌, ℤ, pos, negsuc, negated,
}

-- "9876543210123456789"
abbrev pub digits : List ℕ
digits =
    57 ∷ 56 ∷ 55 ∷ 54 ∷ 53 ∷ 52 ∷ 51 ∷ 50 ∷ 49 ∷ 48 ∷ 49 ∷ 50 ∷ 51 ∷ 52 ∷ 53 ∷ 54 ∷ 55 ∷ 56 ∷ 57
    ∷ []

-- "0123456789ABCDEF"
abbrev pub digits_hex : List ℕ
digits_hex = 48 ∷ 49 ∷ 50 ∷ 51 ∷ 52 ∷ 53 ∷ 54 ∷ 55 ∷ 56 ∷ 57 ∷ 65 ∷ 66 ∷ 67 ∷ 68 ∷ 69 ∷ 70 ∷ []

-- The index in `digits` of zero[i % 10]: the remainder of C has the sign of `i`.
abbrev pub digit_index : ℤ → ℕ
digit_index (pos n) = 9 + n % 10
digit_index (negsuc n) = 9 - suc n % 10

-- i /= 10, which rounds towards zero.
abbrev pub tenth : ℤ → ℤ
tenth (pos n) = pos (n / 10)
tenth (negsuc n) = negated (suc n / 10)

abbrev pub is_zero : ℤ → Bool
is_zero (pos n) = n == 0
is_zero (negsuc n) = false

abbrev pub is_negative : ℤ → Bool
is_negative (pos n) = false
is_negative (negsuc n) = true

-- std::reverse
abbrev pub reverse_onto : List ℕ → List ℕ → List ℕ
reverse_onto [] ys = ys
reverse_onto (x ∷ xs) ys = reverse_onto xs (x ∷ ys)

-- The loop of convert, on fuel.
unfoldable pub convert_loop : ℕ → ℤ → Option (List ℕ)
convert_loop zero i = none
convert_loop (suc fuel) i = do
  c ← get_elem? digits (digit_index i)
  elim (is_zero (tenth i)) [
    | true ↦ some (c ∷ [])
    | false ↦ (do rest ← convert_loop fuel (tenth i); some (c ∷ rest))
  ]

-- convert, without the '\0' after the text. Twenty turns are enough for 64 bits.
unfoldable pub convert : ℤ → Option (List ℕ)
convert value = do
  text ← convert_loop 20 value
  some (reverse_onto (if is_negative value then text ++ 45 ∷ [] else text) [])

unfoldable pub convert_hex_loop : ℕ → ℕ → Option (List ℕ)
convert_hex_loop zero i = none
convert_hex_loop (suc fuel) i = do
  c ← get_elem? digits_hex (i % 16)
  elim (i / 16 == 0) [
    | true ↦ some (c ∷ [])
    | false ↦ (do rest ← convert_hex_loop fuel (i / 16); some (c ∷ rest))
  ]

-- convertHex, of the 64 bits of a uintptr_t.
unfoldable pub convert_hex : ℕ → Option (List ℕ)
convert_hex value = do text ← convert_hex_loop 16 value; some (reverse_onto text [])

pub record FixedBuffer : Type 0 where
  pub data_ : List ℕ
  pub cur : ℕ

-- FixedBuffer::avail
abbrev pub avail : FixedBuffer → ℕ
avail b = length b.data_ - b.cur

-- FixedBuffer::asString
abbrev pub as_string : FixedBuffer → List ℕ
as_string b = take b.cur b.data_

-- The bytes of an array with `bytes` stored from `offset` on.
abbrev pub store : ℕ → List ℕ → List ℕ → Option (List ℕ)
store zero [] ys = some ys
store zero (b ∷ bytes) [] = none
store zero (b ∷ bytes) (y ∷ ys) = do zs ← store zero bytes ys; some (b ∷ zs)
store (suc offset) bytes [] = none
store (suc offset) bytes (y ∷ ys) = do zs ← store offset bytes ys; some (y ∷ zs)

-- FixedBuffer::append
unfoldable pub append : List ℕ → FixedBuffer → Option FixedBuffer
append bytes b = elim (ltb (length bytes) (avail b)) [
  | true ↦ (do
    ys ← store b.cur bytes b.data_
    some (record { data_ = ys; cur = b.cur + length bytes }))
  | false ↦ some b
]

-- FixedBuffer::reset
unfoldable pub reset : FixedBuffer → FixedBuffer
reset b = record b { cur = 0 }

-- LogStream::kMaxNumericSize
abbrev pub max_numeric_size : ℕ
max_numeric_size = 32

-- A text with its '\0' written at `cur_`, of which add() counts the text.
unfoldable pub add_text : List ℕ → FixedBuffer → Option FixedBuffer
add_text text b = do
  ys ← store b.cur (text ++ 0 ∷ []) b.data_
  some (record { data_ = ys; cur = b.cur + length text })

-- LogStream::formatInteger
unfoldable pub format_integer : ℤ → FixedBuffer → Option FixedBuffer
format_integer v b = elim (leb max_numeric_size (avail b)) [
  | true ↦ (do text ← convert v; add_text text b)
  | false ↦ some b
]

-- LogStream::operator<<(const void*)
unfoldable pub format_pointer : ℕ → FixedBuffer → Option FixedBuffer
format_pointer p b = elim (leb max_numeric_size (avail b)) [
  | true ↦ (do text ← convert_hex p; add_text (48 ∷ 120 ∷ text) b)
  | false ↦ some b
]

-- LogStream::operator<<(double), of what snprintf makes of the number.
unfoldable pub format_double : List ℕ → FixedBuffer → Option FixedBuffer
format_double text b = elim (leb max_numeric_size (avail b)) [
  | true ↦ add_text text b
  | false ↦ some b
]

-- What is put into a stream: the integers of every width, a pointer, the text that snprintf makes of a
-- double, a bool, a char, and a string of any of the four types.
pub data Item : Type 0 where
  integer : ℤ → Item
  pointer : ℕ → Item
  real : List ℕ → Item
  boolean : Bool → Item
  character : ℕ → Item
  string : List ℕ → Item

-- LogStream::operator<<
unfoldable pub output : Item → FixedBuffer → Option FixedBuffer
output (integer v) b = format_integer v b
output (pointer p) b = format_pointer p b
output (real text) b = format_double text b
output (boolean v) b = append (if v then 49 ∷ [] else 48 ∷ []) b
output (character c) b = append (c ∷ []) b
output (string s) b = append s b

-- A chain of operators.
unfoldable pub output_all : List Item → FixedBuffer → Option FixedBuffer
output_all [] b = some b
output_all (x ∷ xs) b = output x b >>= output_all xs
