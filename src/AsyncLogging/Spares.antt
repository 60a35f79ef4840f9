-- ===== src/AsyncLogging/Spares.antt =====
-- The two spare buffers that a turn of base/AsyncLogging.cc takes from what it has written.
use cobra.Base.{
  ℕ, ◌<◌, ◌≡◌, refl, ap, List, [], ◌∷◌, ◌++◌, Option, none, some, if◌then◌else◌, length, take, ltb,
  arith, Bool-cases, inl, inr,
}
use cobra.LogStream.{FixedBuffer, avail, as_string}
use cobra.LogStream
use cobra.LogStream.Room.{Valid}
use cobra.AsyncLogging.{pop_back, kept, refill}
use cobra.AsyncLogging.Invariant.{IsEmpty, AllValid, IsNext}

take-kept : (a b : FixedBuffer) (cs : List FixedBuffer) → take 2 (kept (a ∷ b ∷ cs)) ≡ a ∷ b ∷ []
take-kept a b cs = elim (Bool-cases (ltb 25 (length (a ∷ b ∷ cs)))) [
  | inl e ↦ ap (λ t. take 2 (if t then a ∷ b ∷ [] else a ∷ b ∷ cs)) e
  | inr e ↦ ap (λ t. take 2 (if t then a ∷ b ∷ [] else a ∷ b ∷ cs)) e
]

pub reset-IsEmpty : (size : ℕ) (b : FixedBuffer) → Valid size b → IsEmpty size (LogStream.reset b)
unfolding LogStream.reset
reset-IsEmpty size b v = (record { size_of = v.size_of; room = positive v.room }, refl)
  where
    positive : {k : ℕ} → k < size → 0 < size
    positive h = omega arith

-- The spare buffers of the next turn.
pub record Spares (size : ℕ) (o : Option FixedBuffer) (n : FixedBuffer) (ts : List FixedBuffer)
    : Type 0 where
  pub last : FixedBuffer
  pub rest : List FixedBuffer
  pub second : FixedBuffer
  pub popped : pop_back (take 2 (kept ts)) ≡ some (last, rest)
  pub refilled : refill o n rest ≡ some second
  pub last_valid : Valid size last
  pub second_empty : IsEmpty size second

two-Spares :
    (size : ℕ) (o : Option FixedBuffer) (n a b : FixedBuffer) (cs : List FixedBuffer)
    → IsEmpty size n
    → Valid size a
    → Valid size b
    → Spares size o n (a ∷ b ∷ cs)
unfolding refill
two-Spares size none n a b cs e v w = record {
  last = b;
  rest = a ∷ [];
  second = LogStream.reset a;
  popped = ap pop_back (take-kept a b cs);
  refilled = refl;
  last_valid = w;
  second_empty = reset-IsEmpty size a v;
}
two-Spares size (some m) n a b cs e v w = record {
  last = b;
  rest = a ∷ [];
  second = n;
  popped = ap pop_back (take-kept a b cs);
  refilled = refl;
  last_valid = w;
  second_empty = e;
}

pub spares :
    (size : ℕ) (o : Option FixedBuffer) (n : FixedBuffer) (bs : List FixedBuffer) (c : FixedBuffer)
    → IsEmpty size n
    → IsNext size o bs
    → AllValid size bs
    → Valid size c
    → Spares size o n (bs ++ c ∷ [])
unfolding refill
spares size none n [] c e h a v = absurd h
spares size (some m) n [] c e h a v = record {
  last = c;
  rest = [];
  second = n;
  popped = refl;
  refilled = refl;
  last_valid = v;
  second_empty = e;
}
spares size o n (a ∷ []) c e h l v = two-Spares size o n a c [] e l.0 v
spares size o n (a ∷ b ∷ bs) c e h l v = two-Spares size o n a b (bs ++ c ∷ []) e l.0 l.1.0
