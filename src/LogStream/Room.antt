-- ===== src/LogStream/Room.antt =====
-- Writes into the fixed buffer of base/LogStream.h: where the bytes come to stand.
use cobra.Base.{
  ℕ, zero, suc, ◌+◌, ◌-◌, ◌≤◌, ◌<◌, ◌≡◌, refl, ap, ◌∙◌, Bool, true, false, List, [], ◌∷◌, ◌++◌,
  Option, some, length, length-append, arith, if◌then◌else◌, take, take-append, ltb,
}
use cobra.LogStream.{FixedBuffer, avail, as_string, store, append, add_text}

store_front :
    (n : ℕ) (bytes ys : List ℕ)
    → n ≤ length bytes
    → length bytes ≤ length ys
    → (zs : List ℕ) × (store 0 bytes ys ≡ some zs)
      × (length zs ≡ length ys)
      × (take n zs ≡ take n bytes)
store_front zero [] ys h l = (ys, refl, refl, refl)
store_front (suc n) [] ys h l = absurd (omega arith)
store_front n (b ∷ bytes) [] h l = absurd (omega arith)
store_front zero (b ∷ bytes) (y ∷ ys) h l =
    let (zs, e, s, t) = store_front zero bytes ys (omega arith) (omega arith) in
    (b ∷ zs, rw e refl, ap suc s, refl)
store_front (suc n) (b ∷ bytes) (y ∷ ys) h l =
    let (zs, e, s, t) = store_front n bytes ys (omega arith) (omega arith) in
    (b ∷ zs, rw e refl, ap suc s, ap (◌∷◌ b) t)

-- Bytes that fit are stored, and the first `n` of them stand behind what was before them.
store_lem :
    (m offset n : ℕ) (bytes ys : List ℕ)
    → m ≡ offset + n
    → n ≤ length bytes
    → offset + length bytes ≤ length ys
    → (zs : List ℕ) × (store offset bytes ys ≡ some zs)
      × (length zs ≡ length ys)
      × (take m zs ≡ take offset ys ++ take n bytes)
store_lem m zero n bytes ys e h l =
    let (zs, f, s, t) = store_front n bytes ys h (omega arith) in
    (zs, f, s, ap (λ k. take k zs) (same e) ∙ t)
  where
    same : m ≡ 0 + n → m ≡ n
    same e = omega arith
store_lem m (suc offset) n bytes [] e h l = absurd (omega arith)
store_lem zero (suc offset) n bytes (y ∷ ys) e h l = absurd (omega arith)
store_lem (suc m) (suc offset) n bytes (y ∷ ys) e h l =
    let (zs, f, s, t) = store_lem m offset n bytes ys (omega arith) h (omega arith) in
    (y ∷ zs, rw f refl, ap suc s, ap (◌∷◌ y) t)

-- A buffer of `size` bytes with room for at least one more.
pub record Valid (size : ℕ) (b : FixedBuffer) : Type 0 where
  pub size_of : length b.data_ ≡ size
  pub room : b.cur < size

-- A write that succeeds, keeps the buffer valid and shows `text` behind what was there.
abbrev pub Shows : ℕ → FixedBuffer → Option FixedBuffer → List ℕ → Type 0
Shows size b o text =
    (b' : FixedBuffer) × (o ≡ some b')
    × Valid size b'
    × (as_string b' ≡ as_string b ++ text)
    × (b'.cur ≡ b.cur + length text)

pub add_text-Shows :
    (size : ℕ) (b : FixedBuffer) (text : List ℕ)
    → Valid size b
    → b.cur + length text < size
    → Shows size b (add_text text b) text
unfolding add_text
add_text-Shows size b text v h =
    let (zs, e, s, t) =
      store_lem (b.cur + length text) b.cur (length text) (text ++ 0 ∷ []) b.data_ refl
        (omega (arith, length-append text (0 ∷ [])))
        (omega (arith, length-append text (0 ∷ []), v.size_of)) in
    (
      record { data_ = zs; cur = b.cur + length text },
      rw e refl,
      record { size_of = s ∙ v.size_of; room = h },
      t ∙ ap (◌++◌ (take b.cur b.data_)) (take-append (length text) text (0 ∷ []) refl),
      refl,
    )

pub nothing-Shows : (size : ℕ) (b : FixedBuffer) → Valid size b → Shows size b (some b) []
nothing-Shows size b v = (b, refl, v, append_nil (as_string b), omega arith)
  where
    append_nil : (xs : List ℕ) → xs ≡ xs ++ []
    append_nil [] = refl
    append_nil (x ∷ xs) = ap (◌∷◌ x) (append_nil xs)

-- A write behind a test for room, which the buffer's array and its size decide alike.
pub gated-Shows :
    (size : ℕ) (b : FixedBuffer) (o : Option FixedBuffer) (text : List ℕ) (c d : Bool)
    → Valid size b
    → c ≡ d
    → (d ≡ true → Shows size b o text)
    → Shows size b (elim c [ true ↦ o | false ↦ some b ]) (if d then text else [])
gated-Shows size b o text true true v e f = f refl
gated-Shows size b o text true false v e f = cc
gated-Shows size b o text false true v e f = cc
gated-Shows size b o text false false v e f = nothing-Shows size b v

pub append-Shows :
    (size : ℕ) (b : FixedBuffer) (text : List ℕ)
    → Valid size b
    → Shows size b (append text b) (if ltb (length text) (size - b.cur) then text else [])
unfolding append
append-Shows size b text v =
    gated-Shows size b _ text (ltb (length text) (avail b)) (ltb (length text) (size - b.cur)) v
      (ap (λ n. ltb (length text) (n - b.cur)) v.size_of)
      (λ e.
        let (zs, f, s, t) =
          store_lem (b.cur + length text) b.cur (length text) text b.data_ refl (omega arith)
            (omega (arith, fits e, v.size_of)) in
        (
          record { data_ = zs; cur = b.cur + length text },
          rw f refl,
          record { size_of = s ∙ v.size_of; room = fits e },
          t ∙ ap (◌++◌ (take b.cur b.data_)) (take_all text),
          refl,
        ))
  where
    fits : ltb (length text) (size - b.cur) ≡ true → b.cur + length text < size
    fits e = ground arith

    take_all : (xs : List ℕ) → take (length xs) xs ≡ xs
    take_all [] = refl
    take_all (x ∷ xs) = ap (◌∷◌ x) (take_all xs)
