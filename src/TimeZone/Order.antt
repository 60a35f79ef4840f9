-- ===== src/TimeZone/Order.antt =====
-- The order of times, and the transitions of a zone in it: base/TimeZone.cc.
use cobra.Base.{
  ◌≡◌, refl, Bool, true, false, List, [], ◌∷◌, ℤ, pos, negsuc, ltb_ℤ, eqb_ℤ, arith, if◌then◌else◌,
}
use cobra.TimeZone.{Transition, key}

pub lt_asym : (a b : ℤ) → ltb_ℤ a b ≡ true → ltb_ℤ b a ≡ false
lt_asym (pos a) (pos b) h = ground arith
lt_asym (pos a) (negsuc b) h = cc
lt_asym (negsuc a) (pos b) h = refl
lt_asym (negsuc a) (negsuc b) h = ground arith

pub lt_trans : (a b c : ℤ) → ltb_ℤ a b ≡ true → ltb_ℤ b c ≡ true → ltb_ℤ a c ≡ true
lt_trans (pos a) (pos b) (pos c) h k = ground arith
lt_trans (pos a) (pos b) (negsuc c) h k = cc
lt_trans (pos a) (negsuc b) c h k = cc
lt_trans (negsuc a) (pos b) (pos c) h k = refl
lt_trans (negsuc a) (pos b) (negsuc c) h k = cc
lt_trans (negsuc a) (negsuc b) (pos c) h k = refl
lt_trans (negsuc a) (negsuc b) (negsuc c) h k = ground arith

-- A time that is neither before nor equal to another is after it.
pub lt_total : (a b : ℤ) → ltb_ℤ b a ≡ false → eqb_ℤ a b ≡ false → ltb_ℤ a b ≡ true
lt_total (pos a) (pos b) h k = ground arith
lt_total (pos a) (negsuc b) h k = cc
lt_total (negsuc a) (pos b) h k = refl
lt_total (negsuc a) (negsuc b) h k = ground arith

pub eq_not_lt : (a b : ℤ) → eqb_ℤ a b ≡ true → ltb_ℤ a b ≡ false
eq_not_lt (pos a) (pos b) h = ground arith
eq_not_lt (pos a) (negsuc b) h = refl
eq_not_lt (negsuc a) (pos b) h = cc
eq_not_lt (negsuc a) (negsuc b) h = ground arith

pub eq_trans_lt : (a b c : ℤ) → eqb_ℤ a b ≡ true → ltb_ℤ b c ≡ true → ltb_ℤ a c ≡ true
eq_trans_lt (pos a) (pos b) (pos c) h k = ground arith
eq_trans_lt (pos a) (pos b) (negsuc c) h k = cc
eq_trans_lt (pos a) (negsuc b) c h k = cc
eq_trans_lt (negsuc a) (pos b) c h k = cc
eq_trans_lt (negsuc a) (negsuc b) (pos c) h k = refl
eq_trans_lt (negsuc a) (negsuc b) (negsuc c) h k = ground arith

-- Neither before nor after is equal.
pub eq_both : (a b : ℤ) → ltb_ℤ a b ≡ false → ltb_ℤ b a ≡ false → eqb_ℤ a b ≡ true
eq_both (pos a) (pos b) h k = ground arith
eq_both (pos a) (negsuc b) h k = cc
eq_both (negsuc a) (pos b) h k = cc
eq_both (negsuc a) (negsuc b) h k = ground arith

-- Every one of the transitions is after a time.
abbrev pub After : Bool → ℤ → List Transition → Type 0
After gmt k [] = Unit {0}
After gmt k (t ∷ ts) = (ltb_ℤ k (key gmt t) ≡ true) × After gmt k ts

abbrev pub Ascending : Bool → List Transition → Type 0
Ascending gmt [] = Unit {0}
Ascending gmt (t ∷ ts) = After gmt (key gmt t) ts × Ascending gmt ts

-- The transitions that are no later than a time.
abbrev pub up_to : Bool → ℤ → List Transition → List Transition
up_to gmt k [] = []
up_to gmt k (t ∷ ts) = if ltb_ℤ k (key gmt t) then up_to gmt k ts else t ∷ up_to gmt k ts

pub up_to-After : (gmt : Bool) (k : ℤ) (ts : List Transition) → After gmt k ts → up_to gmt k ts ≡ []
up_to-After gmt k [] a = refl
up_to-After gmt k (t ∷ ts) a = rw a.0 (up_to-After gmt k ts a.1)

pub After-trans :
    (gmt : Bool) (j k : ℤ) (ts : List Transition)
    → ltb_ℤ j k ≡ true
    → After gmt k ts
    → After gmt j ts
After-trans gmt j k [] h a = tt
After-trans gmt j k (t ∷ ts) h a = (lt_trans j k (key gmt t) h a.0, After-trans gmt j k ts h a.1)

pub After-eq :
    (gmt : Bool) (j k : ℤ) (ts : List Transition)
    → eqb_ℤ j k ≡ true
    → After gmt k ts
    → After gmt j ts
After-eq gmt j k [] h a = tt
After-eq gmt j k (t ∷ ts) h a = (eq_trans_lt j k (key gmt t) h a.0, After-eq gmt j k ts h a.1)
