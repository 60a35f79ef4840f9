-- ===== src/LogStream/Convert.antt =====
-- convert and convertHex of base/LogStream.cc: the text of a 64-bit number and its way back.
use cobra.Base.{
  ℕ, suc, ◌+◌, ◌^◌, ◌≤◌, ◌<◌, ◌≡◌, refl, ap, ◌∙◌, Bool, true, false, List, [], ◌∷◌, ◌++◌, none,
  some, ℤ, pos, negsuc, length, length-append, arith, if◌then◌else◌,
}
use cobra.LogStream.{reverse_onto, is_negative, convert, convert_hex}
use cobra.LogStream.Texts.{
  number_in, parse, minus_number, Reads, number_in-reverse_onto, reverse_onto-append,
}
use cobra.LogStream.Digits.{abs, convert_loop-Reads, convert_hex_loop-Reads}

pub length-reverse_onto : (xs ys : List ℕ) → length (reverse_onto xs ys) ≡ length xs + length ys
length-reverse_onto [] ys = omega arith
length-reverse_onto (x ∷ xs) ys = omega (arith, length-reverse_onto xs (x ∷ ys))

-- The text of `ds` with the sign of a number.
abbrev signed : Bool → List ℕ → List ℕ
signed b ds = reverse_onto (if b then ds ++ 45 ∷ [] else ds) []

length-signed : (b : Bool) (ds : List ℕ) (n : ℕ) → length ds ≤ n → length (signed b ds) ≤ suc n
length-signed true ds n h =
    omega (arith, length-reverse_onto (ds ++ 45 ∷ []) [], length-append ds (45 ∷ []))
length-signed false ds n h = omega (arith, length-reverse_onto ds [])

parse-signed :
    (v : ℤ) (ds : List ℕ) → Reads 10 ds (abs v) → parse (signed (is_negative v) ds) ≡ some v
parse-signed (pos n) ds r =
    ap (λ o. elim o [ some m ↦ some (pos m) | none ↦ minus_number (reverse_onto ds []) ])
      (number_in-reverse_onto 10 n ds [] r)
parse-signed (negsuc n) ds r =
    ap parse (reverse_onto-append ds [] 45) ∙ rw (number_in-reverse_onto 10 (suc n) ds [] r) refl

-- The text that convert writes for a number of 64 bits, signed or not, the smallest one included, is
-- complete after twenty turns of the loop, has at most 21 characters, and is read back as the number.
pub convert-parse :
    (v : ℤ)
    → abs v < 2 ^ 64
    → (text : List ℕ) × (convert v ≡ some text) × (parse text ≡ some v) × (length text ≤ 21)
unfolding convert
convert-parse v h =
    let (ds, e, r, l) = convert_loop-Reads 19 v (omega arith) in
    (
      signed (is_negative v) ds,
      rw e refl,
      parse-signed v ds r,
      length-signed (is_negative v) ds 20 l,
    )

-- The text that convertHex writes for a pointer of 64 bits has at most 16 characters and is read back
-- as the address.
pub convert_hex-number_in :
    (p : ℕ)
    → p < 2 ^ 64
    → (text : List ℕ) × (convert_hex p ≡ some text)
      × (number_in 16 0 text ≡ some p)
      × (length text ≤ 16)
unfolding convert_hex
convert_hex-number_in p h =
    let (ds, e, r, l) = convert_hex_loop-Reads 15 p (omega arith) in
    (reverse_onto ds [], rw e refl, number_in-reverse_onto 16 p ds [] r, short ds l)
  where
    short : (ds : List ℕ) → length ds ≤ 16 → length (reverse_onto ds []) ≤ 16
    short ds l = omega (arith, length-reverse_onto ds [])
