-- ===== src/LogStream/Digits.antt =====
-- The loops of convert and convertHex of base/LogStream.cc: enough turns, and the digits that they yield.
use cobra.Base.{
  ℕ, zero, suc, ◌+◌, ◌-◌, ◌*◌, ◌/◌, ◌%◌, ◌≤◌, ◌<◌, ◌≡◌, refl, sym, subst, ◌∙◌, true, false, List,
  [], ◌∷◌, some, ltb, ◌==◌, negated, ℤ, pos, negsuc, length, get_elem?, arith, Bool-cases, inl, inr,
}
use cobra.LogStream.{
  digits, digits_hex, digit_index, tenth, is_zero, convert_loop, convert_hex_loop,
}
use cobra.LogStream.Texts.{digit_value, Reads}

abbrev pub abs : ℤ → ℕ
abs (pos n) = n
abs (negsuc n) = suc n

-- `base` to the power of the turns.
abbrev pub turns : ℕ → ℕ → ℕ
turns base zero = 1
turns base (suc n) = base * turns base n

up_digit :
    (d : ℕ) → d < 10 → (c : ℕ) × (get_elem? digits (9 + d) ≡ some c) × (digit_value c ≡ some d)
up_digit zero h = (48, refl, refl)
up_digit (suc (zero)) h = (49, refl, refl)
up_digit (suc (suc (zero))) h = (50, refl, refl)
up_digit (suc (suc (suc (zero)))) h = (51, refl, refl)
up_digit (suc (suc (suc (suc (zero))))) h = (52, refl, refl)
up_digit (suc (suc (suc (suc (suc (zero)))))) h = (53, refl, refl)
up_digit (suc (suc (suc (suc (suc (suc (zero))))))) h = (54, refl, refl)
up_digit (suc (suc (suc (suc (suc (suc (suc (zero)))))))) h = (55, refl, refl)
up_digit (suc (suc (suc (suc (suc (suc (suc (suc (zero))))))))) h = (56, refl, refl)
up_digit (suc (suc (suc (suc (suc (suc (suc (suc (suc (zero)))))))))) h = (57, refl, refl)
up_digit (suc (suc (suc (suc (suc (suc (suc (suc (suc (suc (d))))))))))) h = absurd (omega arith)

down_digit :
    (d : ℕ) → d < 10 → (c : ℕ) × (get_elem? digits (9 - d) ≡ some c) × (digit_value c ≡ some d)
down_digit zero h = (48, refl, refl)
down_digit (suc (zero)) h = (49, refl, refl)
down_digit (suc (suc (zero))) h = (50, refl, refl)
down_digit (suc (suc (suc (zero)))) h = (51, refl, refl)
down_digit (suc (suc (suc (suc (zero))))) h = (52, refl, refl)
down_digit (suc (suc (suc (suc (suc (zero)))))) h = (53, refl, refl)
down_digit (suc (suc (suc (suc (suc (suc (zero))))))) h = (54, refl, refl)
down_digit (suc (suc (suc (suc (suc (suc (suc (zero)))))))) h = (55, refl, refl)
down_digit (suc (suc (suc (suc (suc (suc (suc (suc (zero))))))))) h = (56, refl, refl)
down_digit (suc (suc (suc (suc (suc (suc (suc (suc (suc (zero)))))))))) h = (57, refl, refl)
down_digit (suc (suc (suc (suc (suc (suc (suc (suc (suc (suc (d))))))))))) h = absurd (omega arith)

-- The character of zero[i % 10] is the last digit of a number of either sign.
last_digit :
    (i : ℤ)
    → (c : ℕ) × (get_elem? digits (digit_index i) ≡ some c) × (digit_value c ≡ some (abs i % 10))
last_digit (pos n) = up_digit (n % 10) (omega arith)
last_digit (negsuc n) = down_digit (suc n % 10) (omega arith)

abs-negated : (n : ℕ) → abs (negated n) ≡ n
abs-negated zero = refl
abs-negated (suc n) = refl

abs-tenth : (i : ℤ) → abs (tenth i) ≡ abs i / 10
abs-tenth (pos n) = refl
abs-tenth (negsuc n) = abs-negated (suc n / 10)

zero_abs : (i : ℤ) → is_zero i ≡ true → abs i ≡ 0
zero_abs (pos n) e = ground arith
zero_abs (negsuc n) e = cc

nonzero_abs : (i : ℤ) → is_zero i ≡ false → 0 < abs i
nonzero_abs (pos n) e = ground arith
nonzero_abs (negsuc n) e = omega arith

split_ten : (a : ℕ) → a ≡ (a / 10) * 10 + a % 10
split_ten a = omega arith

ten_lt : (a : ℕ) → ltb (a % 10) 10 ≡ true
ten_lt a = ground arith

one_digit :
    (n : ℕ) (i : ℤ)
    → is_zero (tenth i) ≡ true
    → (ds : List ℕ) × (convert_loop (suc n) i ≡ some ds) × Reads 10 ds (abs i) × (length ds ≤ suc n)
unfolding convert_loop
one_digit n i z =
    let (c, e, v) = last_digit i in
    (
      c ∷ [],
      rw (e, z) refl,
      (
        abs i % 10,
        abs i / 10,
        v,
        ten_lt (abs i),
        split_ten (abs i),
        sym (abs-tenth i) ∙ zero_abs (tenth i) z,
      ),
      omega arith,
    )

more_digits :
    (n : ℕ) (i : ℤ)
    → is_zero (tenth i) ≡ false
    → ((ds : List ℕ) × (convert_loop n (tenth i) ≡ some ds)
        × Reads 10 ds (abs (tenth i))
        × (length ds ≤ n))
    → (ds : List ℕ) × (convert_loop (suc n) i ≡ some ds) × Reads 10 ds (abs i) × (length ds ≤ suc n)
unfolding convert_loop
more_digits n i z (ds, f, r, l) =
    let (c, e, v) = last_digit i in
    (
      c ∷ ds,
      rw (e, z, f) refl,
      (
        abs i % 10,
        abs i / 10,
        v,
        ten_lt (abs i),
        split_ten (abs i),
        subst (Reads 10 ds) (abs-tenth i) r,
      ),
      omega arith,
    )

-- A number of at most `n + 1` digits is done after as many turns.
pub convert_loop-Reads :
    (n : ℕ) (i : ℤ)
    → abs i < turns 10 (suc n)
    → (ds : List ℕ) × (convert_loop (suc n) i ≡ some ds) × Reads 10 ds (abs i) × (length ds ≤ suc n)
convert_loop-Reads zero i h = one_digit zero i (single (tenth i) (abs-tenth i))
  where
    single : (j : ℤ) → abs j ≡ abs i / 10 → is_zero j ≡ true
    single (pos m) e = ground arith
    single (negsuc m) e = absurd (omega arith)
convert_loop-Reads (suc n) i h = elim (Bool-cases (is_zero (tenth i))) [
  | inl z ↦ one_digit (suc n) i z
  | inr z ↦
      more_digits (suc n) i z
        (convert_loop-Reads n (tenth i) (smaller (abs (tenth i)) (abs-tenth i)))
]
  where
    smaller : (a : ℕ) → a ≡ abs i / 10 → a < turns 10 (suc n)
    smaller a e = omega arith

hex_digit :
    (d : ℕ) → d < 16 → (c : ℕ) × (get_elem? digits_hex d ≡ some c) × (digit_value c ≡ some d)
hex_digit zero h = (48, refl, refl)
hex_digit (suc (zero)) h = (49, refl, refl)
hex_digit (suc (suc (zero))) h = (50, refl, refl)
hex_digit (suc (suc (suc (zero)))) h = (51, refl, refl)
hex_digit (suc (suc (suc (suc (zero))))) h = (52, refl, refl)
hex_digit (suc (suc (suc (suc (suc (zero)))))) h = (53, refl, refl)
hex_digit (suc (suc (suc (suc (suc (suc (zero))))))) h = (54, refl, refl)
hex_digit (suc (suc (suc (suc (suc (suc (suc (zero)))))))) h = (55, refl, refl)
hex_digit (suc (suc (suc (suc (suc (suc (suc (suc (zero))))))))) h = (56, refl, refl)
hex_digit (suc (suc (suc (suc (suc (suc (suc (suc (suc (zero)))))))))) h = (57, refl, refl)
hex_digit (suc (suc (suc (suc (suc (suc (suc (suc (suc (suc (zero))))))))))) h = (65, refl, refl)
hex_digit (suc (suc (suc (suc (suc (suc (suc (suc (suc (suc (suc (zero)))))))))))) h =
    (66, refl, refl)
hex_digit (suc (suc (suc (suc (suc (suc (suc (suc (suc (suc (suc (suc (zero))))))))))))) h =
    (67, refl, refl)
hex_digit (suc (suc (suc (suc (suc (suc (suc (suc (suc (suc (suc (suc (suc (zero)))))))))))))) h =
    (68, refl, refl)
hex_digit (suc (suc (suc (suc (suc (suc (suc (suc (suc (suc (suc (suc (suc (suc (zero)))))))))))))))
      h =
    (69, refl, refl)
hex_digit
      (suc
        (suc (suc (suc (suc (suc (suc (suc (suc (suc (suc (suc (suc (suc (suc (zero))))))))))))))))
      h =
    (70, refl, refl)
hex_digit
      (suc (
        suc
          (suc (suc (suc (suc (suc (suc (suc (suc (suc (suc (suc (suc (suc (suc (d)))))))))))))))))
      h =
    absurd (omega arith)

sixteen_lt : (a : ℕ) → ltb (a % 16) 16 ≡ true
sixteen_lt a = ground arith

one_hex :
    (n i : ℕ)
    → (i / 16 == 0) ≡ true
    → (ds : List ℕ) × (convert_hex_loop (suc n) i ≡ some ds) × Reads 16 ds i × (length ds ≤ suc n)
unfolding convert_hex_loop
one_hex n i z =
    let (c, e, v) = hex_digit (i % 16) (omega arith) in
    (
      c ∷ [],
      rw (e, z) refl,
      (i % 16, i / 16, v, sixteen_lt i, omega arith, ground arith),
      omega arith,
    )

more_hex :
    (n i : ℕ)
    → (i / 16 == 0) ≡ false
    → ((ds : List ℕ) × (convert_hex_loop n (i / 16) ≡ some ds)
        × Reads 16 ds (i / 16)
        × (length ds ≤ n))
    → (ds : List ℕ) × (convert_hex_loop (suc n) i ≡ some ds) × Reads 16 ds i × (length ds ≤ suc n)
unfolding convert_hex_loop
more_hex n i z (ds, f, r, l) =
    let (c, e, v) = hex_digit (i % 16) (omega arith) in
    (c ∷ ds, rw (e, z, f) refl, (i % 16, i / 16, v, sixteen_lt i, omega arith, r), omega arith)

pub convert_hex_loop-Reads :
    (n i : ℕ)
    → i < turns 16 (suc n)
    → (ds : List ℕ) × (convert_hex_loop (suc n) i ≡ some ds) × Reads 16 ds i × (length ds ≤ suc n)
convert_hex_loop-Reads zero i h = one_hex zero i (ground arith)
convert_hex_loop-Reads (suc n) i h = elim (Bool-cases (i / 16 == 0)) [
  | inl z ↦ one_hex (suc n) i z
  | inr z ↦ more_hex (suc n) i z (convert_hex_loop-Reads n (i / 16) smaller)
]
  where
    smaller : i / 16 < turns 16 (suc n)
    smaller = omega arith
