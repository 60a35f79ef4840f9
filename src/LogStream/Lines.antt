-- ===== src/LogStream/Lines.antt =====
-- The operators of base/LogStream.h and base/LogStream.cc never write past their buffer, and what they
-- leave out is a whole item.
use cobra.Base.{
  ℕ, suc, ◌+◌, ◌-◌, ◌^◌, ◌≤◌, ◌<◌, ◌≡◌, refl, ap, sym, ◌∙◌, true, List, [], ◌∷◌, ◌++◌, append-nil,
  append_assoc, Option, none, some, length, arith, if◌then◌else◌, ltb, leb, ℤ,
}
use cobra.LogStream.{
  FixedBuffer, avail, as_string, convert, convert_hex, format_integer, format_pointer,
  format_double, Item, integer, pointer, real, boolean, character, string, output, output_all,
}
use cobra.LogStream.Digits.{abs}
use cobra.LogStream.Convert.{convert-parse, convert_hex-number_in}
use cobra.LogStream.Room.{Valid, Shows, add_text-Shows, gated-Shows, append-Shows}

-- Numbers and pointers have 64 bits, and snprintf has kept to its 32 characters.
abbrev pub InRange : Item → Type 0
InRange (integer v) = abs v < 2 ^ 64
InRange (pointer p) = p < 2 ^ 64
InRange (real text) = length text < 32
InRange (boolean v) = Unit {0}
InRange (character c) = Unit {0}
InRange (string s) = Unit {0}

abbrev or_nothing : Option (List ℕ) → List ℕ
or_nothing none = []
or_nothing (some s) = s

-- The texts of a number and of a string that `room` bytes can take: 32 are asked for a number, and one
-- more than its characters for a string.
abbrev pub numeric : ℕ → List ℕ → List ℕ
numeric room text = if leb 32 room then text else []

abbrev pub plain : ℕ → List ℕ → List ℕ
plain room text = if ltb (length text) room then text else []

abbrev pub written : Item → ℕ → List ℕ
written (integer v) room = numeric room (or_nothing (convert v))
written (pointer p) room = numeric room (48 ∷ 120 ∷ or_nothing (convert_hex p))
written (real text) room = numeric room text
written (boolean v) room = plain room (if v then 49 ∷ [] else 48 ∷ [])
written (character c) room = plain room (c ∷ [])
written (string s) room = plain room s

abbrev pub written_all : List Item → ℕ → List ℕ
written_all [] room = []
written_all (x ∷ xs) room = written x room ++ written_all xs (room - length (written x room))

abbrev pub AllInRange : List Item → Type 0
AllInRange [] = Unit {0}
AllInRange (x ∷ xs) = InRange x × AllInRange xs

format_integer-Shows :
    (size : ℕ) (b : FixedBuffer) (v : ℤ)
    → Valid size b
    → abs v < 2 ^ 64
    → Shows size b (format_integer v b) (numeric (size - b.cur) (or_nothing (convert v)))
unfolding format_integer
format_integer-Shows size b v w h =
    gated-Shows size b _ (or_nothing (convert v)) (leb 32 (avail b)) (leb 32 (size - b.cur)) w
      (ap (λ n. leb 32 (n - b.cur)) w.size_of)
      (λ e.
        let (text, f, _, l) = convert-parse v h in
        rw f (add_text-Shows size b text w (fits e text l)))
  where
    fits :
        leb 32 (size - b.cur) ≡ true
        → (text : List ℕ) → length text ≤ 21
        → b.cur + length text < size
    fits e text l = ground arith

format_pointer-Shows :
    (size : ℕ) (b : FixedBuffer) (p : ℕ)
    → Valid size b
    → p < 2 ^ 64
    → Shows size b
        (format_pointer p b)
        (numeric (size - b.cur) (48 ∷ 120 ∷ or_nothing (convert_hex p)))
unfolding format_pointer
format_pointer-Shows size b p w h =
    gated-Shows size b _ (48 ∷ 120 ∷ or_nothing (convert_hex p)) (leb 32 (avail b))
      (leb 32 (size - b.cur)) w (ap (λ n. leb 32 (n - b.cur)) w.size_of)
      (λ e.
        let (text, f, _, l) = convert_hex-number_in p h in
        rw f (add_text-Shows size b (48 ∷ 120 ∷ text) w (fits e text l)))
  where
    fits :
        leb 32 (size - b.cur) ≡ true
        → (text : List ℕ) → length text ≤ 16
        → b.cur + suc (suc (length text)) < size
    fits e text l = ground arith

format_double-Shows :
    (size : ℕ) (b : FixedBuffer) (text : List ℕ)
    → Valid size b
    → length text < 32
    → Shows size b (format_double text b) (numeric (size - b.cur) text)
unfolding format_double
format_double-Shows size b text w h =
    gated-Shows size b _ text (leb 32 (avail b)) (leb 32 (size - b.cur)) w
      (ap (λ n. leb 32 (n - b.cur)) w.size_of) (λ e. add_text-Shows size b text w (fits e))
  where
    fits : leb 32 (size - b.cur) ≡ true → b.cur + length text < size
    fits e = ground arith

output-Shows :
    (size : ℕ) (x : Item) (b : FixedBuffer)
    → Valid size b
    → InRange x
    → Shows size b (output x b) (written x (size - b.cur))
unfolding output
output-Shows size (integer v) b w h = format_integer-Shows size b v w h
output-Shows size (pointer p) b w h = format_pointer-Shows size b p w h
output-Shows size (real text) b w h = format_double-Shows size b text w h
output-Shows size (boolean v) b w h = append-Shows size b (if v then 49 ∷ [] else 48 ∷ []) w
output-Shows size (character c) b w h = append-Shows size b (c ∷ []) w
output-Shows size (string s) b w h = append-Shows size b s w

-- Any chain of items with numbers and pointers of 64 bits, and texts of snprintf shorter than 32
-- characters, in a buffer with room for a byte, stays within the buffer's `size` bytes and leaves
-- room for one more; the buffer then shows what it showed before and, in order, the texts of the items
-- that the room left was enough for, each in full: 32 bytes for a number, and for a string one more than
-- its characters.
pub output_all-written_all :
    (size : ℕ) (xs : List Item) (b : FixedBuffer)
    → Valid size b
    → AllInRange xs
    → (b' : FixedBuffer) × (output_all xs b ≡ some b')
      × Valid size b'
      × (as_string b' ≡ as_string b ++ written_all xs (size - b.cur))
unfolding output_all
output_all-written_all size [] b w h = (b, refl, w, sym (append-nil (as_string b)))
output_all-written_all size (x ∷ xs) b w h =
    let (b', e, v, s, c) = output-Shows size x b w h.0 in
    let (b'', f, u, t) = output_all-written_all size xs b' v h.1 in
    (
      b'',
      rw e f,
      u,
      t
          ∙ ap (◌++◌ (as_string b')) (ap (written_all xs) (left _ c))
          ∙ ap (λ l. l ++ rest) s
          ∙ append_assoc (as_string b) (written x (size - b.cur)) rest,
    )
  where
    rest : List ℕ
    rest = written_all xs (size - b.cur - length (written x (size - b.cur)))

    left : {c : ℕ} (n : ℕ) → c ≡ b.cur + n → size - c ≡ size - b.cur - n
    left n e = omega arith
