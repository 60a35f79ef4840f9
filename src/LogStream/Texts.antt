-- ===== src/LogStream/Texts.antt =====
-- What a text of digits says, independently of base/LogStream.cc.
use cobra.Base.{
  ℕ, ◌+◌, ◌-◌, ◌*◌, ◌≡◌, refl, ap, sym, ◌∙◌, true, List, [], ◌∷◌, ◌++◌, Option, none, some,
  if◌then◌else◌, check, ◌>>=◌, ◌>>◌, ltb, leb, ◌&&◌, ◌==◌, negated, ℤ, pos,
}
use cobra.LogStream.{reverse_onto}

abbrev pub digit_value : ℕ → Option ℕ
digit_value c =
    if leb 48 c && leb c 57
    then some (c - 48)
    else if leb 65 c && leb c 70
    then some (c - 55)
    else none

-- The value of the digits behind those that were worth `n`.
abbrev pub number_in : ℕ → ℕ → List ℕ → Option ℕ
number_in base n [] = some n
number_in base n (c ∷ cs) = do
  d ← digit_value c
  check (ltb d base)
  number_in base (n * base + d) cs

abbrev pub minus_number : List ℕ → Option ℤ
minus_number [] = none
minus_number (c ∷ cs) = do check (c == 45); n ← number_in 10 0 cs; some (negated n)

-- A decimal number, with or without '-'.
abbrev pub parse : List ℕ → Option ℤ
parse s = elim (number_in 10 0 s) [ some n ↦ some (pos n) | none ↦ minus_number s ]

-- Digits with the lowest first that are worth `n`.
abbrev pub Reads : ℕ → List ℕ → ℕ → Type 0
Reads base [] n = n ≡ 0
Reads base (c ∷ cs) n =
    (d : ℕ) × (q : ℕ) × (digit_value c ≡ some d)
    × (ltb d base ≡ true)
    × (n ≡ q * base + d)
    × Reads base cs q

pub number_in-reverse_onto :
    (base n : ℕ) (ds cs : List ℕ)
    → Reads base ds n
    → number_in base 0 (reverse_onto ds cs) ≡ number_in base n cs
number_in-reverse_onto base n [] cs e = ap (λ m. number_in base m cs) (sym e)
number_in-reverse_onto base n (c ∷ ds) cs (d, q, e, l, s, r) =
    number_in-reverse_onto base q ds (c ∷ cs) r ∙ step
  where
    step : number_in base q (c ∷ cs) ≡ number_in base n cs
    step = rw (e, l) (ap (λ m. number_in base m cs) (sym s))

pub reverse_onto-append :
    (ds cs : List ℕ) (c : ℕ) → reverse_onto (ds ++ c ∷ []) cs ≡ c ∷ reverse_onto ds cs
reverse_onto-append [] cs c = refl
reverse_onto-append (d ∷ ds) cs c = reverse_onto-append ds (d ∷ cs) c
