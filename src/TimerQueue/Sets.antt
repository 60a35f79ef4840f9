-- ===== src/TimerQueue/Sets.antt =====
-- The sorted sets of pairs behind timers_ and activeTimers_: cobra/timer_queue.cpp.
use cobra.Base.{
  suc, ◌≤◌, ◌≡◌, refl, ap, ap₂, sym, subst, ◌∙◌, Bool, true, false, not, ◌&&◌, ◌||◌, List, [], ◌∷◌,
  ◌++◌, length, arith, Bool-cases, inl, inr,
}
use cobra.TimerQueue.{Entry, eqb, before, has, put, erase, below, from}

abbrev pub Each {κ} : (Entry → Type κ) → List Entry → Type κ
Each P [] = Unit
Each P (x ∷ xs) = P x × Each P xs

abbrev pub Sorted : List Entry → Type 0
Sorted [] = Unit {0}
Sorted (x ∷ xs) = Each (λ y. before x y ≡ true) xs × Sorted xs

pub eqb_self : (x : Entry) → eqb x x ≡ true
eqb_self (a, b) = ground arith

pub eqb_eq : (x y : Entry) → eqb x y ≡ true → x ≡ y
eqb_eq (a, b) (c, d) e = ground arith

eqb_sym : (x y : Entry) → eqb x y ≡ eqb y x
eqb_sym (a, b) (c, d) = ground arith

before_trans : (x y z : Entry) → before x y ≡ true → before y z ≡ true → before x z ≡ true
before_trans (a, b) (c, d) (e, f) p q = ground arith

pub before_time : (x y : Entry) → before x y ≡ true → x.0 ≤ y.0
before_time (a, b) (c, d) p = ground arith

before_eqb : (x y : Entry) → before x y ≡ true → eqb y x ≡ false
before_eqb (a, b) (c, d) p = ground arith

before_total : (x y : Entry) → before x y ≡ false → eqb x y ≡ false → before y x ≡ true
before_total (a, b) (c, d) p q = ground arith

pub Each-has {κ} :
    (P : Entry → Type κ) (xs : List Entry) (y : Entry) → Each P xs → has y xs ≡ true → P y
Each-has P [] y a e = cc
Each-has P (x ∷ xs) y a e = elim (Bool-cases (eqb y x)) [
  | inl same ↦ subst P (sym (eqb_eq y x same)) a.0
  | inr other ↦ Each-has P xs y a.1 (ap (λ b. b || has y xs) (sym other) ∙ e)
]

pub Each-map {κ λ'} :
    {P : Entry → Type κ} {Q : Entry → Type λ'} (xs : List Entry)
    → ((x : Entry) → P x → Q x)
    → Each P xs
    → Each Q xs
Each-map [] f a = tt
Each-map (x ∷ xs) f a = (f x a.0, Each-map xs f a.1)

pub has-put : (x y : Entry) (s : List Entry) → has y (put x s) ≡ (eqb y x || has y s)
has-put x y [] = refl
has-put x y (z ∷ s) = elim (Bool-cases (before x z)) [
  | inl e ↦ rw e refl
  | inr e ↦ rw (e, has-put x y s) (swap (eqb y z) (eqb y x) (has y s))
]
  where
    swap : (a b c : Bool) → (a || (b || c)) ≡ (b || (a || c))
    swap true true c = refl
    swap true false c = refl
    swap false b c = refl

pub length-put : (x : Entry) (s : List Entry) → length (put x s) ≡ suc (length s)
length-put x [] = refl
length-put x (z ∷ s) = elim (Bool-cases (before x z)) [
  | inl e ↦ rw e refl
  | inr e ↦ rw (e, length-put x s) refl
]

pub Each-put {κ} :
    (P : Entry → Type κ) (x : Entry) (s : List Entry) → P x → Each P s → Each P (put x s)
Each-put P x [] p a = (p, tt)
Each-put P x (z ∷ s) p a = elim (Bool-cases (before x z)) [
  | inl e ↦ rw e (p, a)
  | inr e ↦ rw e (a.0, Each-put P x s p a.1)
]

pub put-Sorted : (x : Entry) (s : List Entry) → has x s ≡ false → Sorted s → Sorted (put x s)
put-Sorted x [] h o = (tt, tt)
put-Sorted x (z ∷ s) h o = elim (Bool-cases (before x z)) [
  | inl e ↦ rw e ((e, Each-map s (λ y q. before_trans x z y e q) o.0), o)
  | inr e ↦ rw e (
    Each-put (λ y. before z y ≡ true) x s (before_total x z e (left_false _ _ h)) o.0,
    put-Sorted x s (right_false _ _ h) o.1,
  )
]
  where
    left_false : (a b : Bool) → (a || b) ≡ false → a ≡ false
    left_false true b e = e
    left_false false b e = refl

    right_false : (a b : Bool) → (a || b) ≡ false → b ≡ false
    right_false true b e = absurd (true_ne e)
      where
        true_ne : true ≡ false → ⊥
        true_ne e = cc
    right_false false b e = e

pub has-after : (x : Entry) (s : List Entry) → Each (λ y. before x y ≡ true) s → has x s ≡ false
has-after x [] a = refl
has-after x (y ∷ s) a = ap₂ ◌||◌ (eqb_sym x y ∙ before_eqb x y a.0) (has-after x s a.1)

and_true : (b : Bool) → (b && true) ≡ b
and_true true = refl
and_true false = refl

clash : (x y z : Entry) → eqb x z ≡ false → eqb y z ≡ true → eqb y x ≡ false
clash (a, b) (c, d) (e, f) p q = ground arith

pub has-erase :
    (x y : Entry) (s : List Entry) → Sorted s → has y (erase x s) ≡ (has y s && not (eqb y x))
has-erase x y [] o = refl
has-erase x y (z ∷ s) o = elim (Bool-cases (eqb x z)) [
  | inl e ↦ rw e (same z (eqb_eq x z e) o.0)
  | inr e ↦ rw (e, has-erase x y s o.1) (other (eqb y z) (eqb y x) (has y s) (clash x y z e))
]
  where
    same :
        (z : Entry)
        → x ≡ z
        → Each (λ u. before z u ≡ true) s
        → has y s ≡ ((eqb y z || has y s) && not (eqb y x))
    same z e a = elim (Bool-cases (eqb y z)) [
      | inl q ↦
          ap (λ u. has u s) (eqb_eq y z q)
          ∙ has-after z s a
          ∙ sym (ap₂ ◌&&◌ (ap (λ b. b || has y s) q) (ap not (ap (eqb y) e ∙ q)))
      | inr q ↦
          sym (ap₂ ◌&&◌ (ap (λ b. b || has y s) q) (ap not (ap (eqb y) e ∙ q)) ∙ and_true (has y s))
    ]

    other : (a b c : Bool) → (a ≡ true → b ≡ false) → (a || (c && not b)) ≡ ((a || c) && not b)
    other true b c h = sym (ap not (h refl))
    other false b c h = refl

pub Each-erase {κ} :
    (P : Entry → Type κ) (x : Entry) (s : List Entry) → Each P s → Each P (erase x s)
Each-erase P x [] a = tt
Each-erase P x (z ∷ s) a = elim (Bool-cases (eqb x z)) [
  | inl e ↦ rw e a.1
  | inr e ↦ rw e (a.0, Each-erase P x s a.1)
]

pub erase-Sorted : (x : Entry) (s : List Entry) → Sorted s → Sorted (erase x s)
erase-Sorted x [] o = tt
erase-Sorted x (z ∷ s) o = elim (Bool-cases (eqb x z)) [
  | inl e ↦ rw e o.1
  | inr e ↦ rw e (Each-erase (λ y. before z y ≡ true) x s o.0, erase-Sorted x s o.1)
]

pub length-erase :
    (x : Entry) (s : List Entry) → has x s ≡ true → suc (length (erase x s)) ≡ length s
length-erase x [] h = cc
length-erase x (z ∷ s) h = elim (Bool-cases (eqb x z)) [
  | inl e ↦ rw e refl
  | inr e ↦ rw e (ap suc (length-erase x s (ap (λ b. b || has x s) (sym e) ∙ h)))
]

pub has-append : (y : Entry) (xs ys : List Entry) → has y (xs ++ ys) ≡ (has y xs || has y ys)
has-append y [] ys = refl
has-append y (x ∷ xs) ys =
    ap (◌||◌ (eqb y x)) (has-append y xs ys) ∙ assoc (eqb y x) (has y xs) (has y ys)
  where
    assoc : (a b c : Bool) → (a || (b || c)) ≡ ((a || b) || c)
    assoc true b c = refl
    assoc false b c = refl

-- A sorted set falls apart at a sentry.
pub below-append-from : (x : Entry) (s : List Entry) → below x s ++ from x s ≡ s
below-append-from x [] = refl
below-append-from x (z ∷ s) = elim (Bool-cases (before z x)) [
  | inl e ↦ rw e (ap (◌∷◌ z) (below-append-from x s))
  | inr e ↦ rw e refl
]

pub Each-below : (x : Entry) (s : List Entry) → Each (λ y. before y x ≡ true) (below x s)
Each-below x [] = tt
Each-below x (z ∷ s) = elim (Bool-cases (before z x)) [
  | inl e ↦ rw e (e, Each-below x s)
  | inr e ↦ rw e tt
]

-- An element that follows one at or past the sentry is at or past it.
not_before : (x y z : Entry) → before y x ≡ false → before y z ≡ true → before z x ≡ false
not_before (a, b) (c, d) (e, f) p q = ground arith

pub Each-from : (x : Entry) (s : List Entry) → Sorted s → Each (λ y. before y x ≡ false) (from x s)
Each-from x [] o = tt
Each-from x (z ∷ s) o = elim (Bool-cases (before z x)) [
  | inl e ↦ rw e (Each-from x s o.1)
  | inr e ↦ rw e (e, Each-map s (λ y q. not_before x z y e q) o.0)
]

pub append-Sorted : (xs ys : List Entry) → Sorted (xs ++ ys) → Sorted xs × Sorted ys
append-Sorted [] ys o = (tt, o)
append-Sorted (x ∷ xs) ys o =
    let (a, b) = append-Sorted xs ys o.1 in ((Each-append xs ys o.0, a), b)
  where
    Each-append :
        (us vs : List Entry)
        → Each (λ y. before x y ≡ true) (us ++ vs)
        → Each (λ y. before x y ≡ true) us
    Each-append [] vs a = tt
    Each-append (u ∷ us) vs a = (a.0, Each-append us vs a.1)
