-- ===== src/LogStream/Tests.antt =====
-- The log stream of base/LogStream.cc on small lines.
use cobra.Base.{
  ℕ, ◌^◌, ◌≤◌, ◌≡◌, refl, List, [], ◌∷◌, ◌++◌, some, pos, negsuc, length, replicate, arith, ◌-◌,
}
use cobra.LogStream.{
  FixedBuffer, as_string, convert, convert_loop, convert_hex, convert_hex_loop, Item, integer,
  pointer, character, string, output_all,
}
use cobra.LogStream.Texts.{number_in, parse}
use cobra.LogStream.Convert.{convert-parse, convert_hex-number_in}
use cobra.LogStream.Room.{Valid}
use cobra.LogStream.Lines.{written_all, output_all-written_all}

-- -305
convert_test : convert (negsuc 304) ≡ some (45 ∷ 51 ∷ 48 ∷ 53 ∷ [])
unfolding convert convert_loop
convert_test = refl

-- 0x2F
convert_hex_test : convert_hex 47 ≡ some (50 ∷ 70 ∷ [])
unfolding convert_hex convert_hex_loop
convert_hex_test = refl

-- The smallest number of 64 bits.
convert-parse_example :
    (text : List ℕ) × (convert (negsuc (2 ^ 63 - 1)) ≡ some text)
    × (parse text ≡ some (negsuc (2 ^ 63 - 1)))
    × (length text ≤ 21)
convert-parse_example = convert-parse (negsuc (2 ^ 63 - 1)) (omega arith)

convert_hex-number_in_example :
    (text : List ℕ) × (convert_hex 48879 ≡ some text)
    × (number_in 16 0 text ≡ some 48879)
    × (length text ≤ 16)
convert_hex-number_in_example = convert_hex-number_in 48879 (omega arith)

-- A buffer with 35 bytes of room in 40.
abbrev short_buffer : FixedBuffer
short_buffer = record { data_ = replicate 40 65; cur = 5 }

short_buffer-Valid : Valid 40 short_buffer
short_buffer-Valid = record { size_of = refl; room = omega arith }

-- "x", 12, then -7, for which 32 bytes are not left, and '!'.
abbrev items : List Item
items = string (120 ∷ []) ∷ integer (pos 12) ∷ pointer 255 ∷ integer (negsuc 6) ∷ character 33 ∷ []

written_all_test : written_all items 35 ≡ 120 ∷ 49 ∷ 50 ∷ 48 ∷ 120 ∷ 70 ∷ 70 ∷ 33 ∷ []
unfolding convert convert_loop convert_hex convert_hex_loop
written_all_test = refl

output_all-written_all_example :
    (b : FixedBuffer) × (output_all items short_buffer ≡ some b)
    × Valid 40 b
    × (as_string b ≡ as_string short_buffer ++ written_all items (40 - 5))
output_all-written_all_example =
    output_all-written_all 40 items short_buffer short_buffer-Valid
      (tt, (omega arith, (omega arith, (omega arith, (tt, tt)))))
