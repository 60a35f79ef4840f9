-- ===== src/TimeZone/Find.antt =====
-- findLocaltime of base/TimeZone.cc finds the offset that is in force.
use cobra.Base.{
  suc, ◌≡◌, refl, ap, sym, ◌∙◌, Bool, true, false, List, [], ◌∷◌, Option, none, some, ◌>>=◌,
  if◌then◌else◌, get_elem?, ℤ, ltb_ℤ, Bool-cases, inl, inr,
}
use cobra.TimeZone.{
  Transition, Localtime, Data, key, comp, equal, lower_bound, back, chosen_at, chosen,
  find_localtime,
}
use cobra.TimeZone.Order.{
  lt_asym, lt_total, eq_not_lt, eq_both, After, Ascending, up_to, up_to-After, After-trans,
  After-eq,
}

-- The offset of the last transition no later than a time, and the first one before them all.
abbrev pub in_force : Bool → ℤ → Data → Option Localtime
in_force gmt k zone = elim (back (up_to gmt k zone.transitions)) [
  | none ↦ get_elem? zone.localtimes 0
  | some t ↦ get_elem? zone.localtimes t.localtime_idx
]

lower_bound_past :
    (gmt : Bool) (s t : Transition) (ts : List Transition)
    → comp gmt t s ≡ true
    → lower_bound gmt s (t ∷ ts) ≡ suc (lower_bound gmt s ts)
lower_bound_past gmt s t ts h = rw h refl

lower_bound_here :
    (gmt : Bool) (s t : Transition) (ts : List Transition)
    → comp gmt t s ≡ false
    → lower_bound gmt s (t ∷ ts) ≡ 0
lower_bound_here gmt s t ts h = rw h refl

up_to_keep :
    (gmt : Bool) (k : ℤ) (t : Transition) (ts : List Transition)
    → ltb_ℤ k (key gmt t) ≡ false
    → up_to gmt k (t ∷ ts) ≡ t ∷ up_to gmt k ts
up_to_keep gmt k t ts h = rw h refl

up_to_one :
    (gmt : Bool) (k : ℤ) (t : Transition) (ts : List Transition)
    → ltb_ℤ k (key gmt t) ≡ false
    → After gmt k ts
    → up_to gmt k (t ∷ ts) ≡ t ∷ []
up_to_one gmt k t ts h a = up_to_keep gmt k t ts h ∙ ap (◌∷◌ t) (up_to-After gmt k ts a)

-- The search from a transition that is before the sentry.
chosen_lem :
    (gmt : Bool) (s t : Transition) (ts : List Transition)
    → Ascending gmt (t ∷ ts)
    → comp gmt t s ≡ true
    → chosen gmt s (t ∷ ts) ≡ back (up_to gmt (key gmt s) (t ∷ ts))
chosen_lem gmt s t [] a h =
    ap (chosen_at gmt s (t ∷ [])) (lower_bound_past gmt s t [] h)
    ∙ ap back (sym (up_to_keep gmt (key gmt s) t [] (lt_asym (key gmt t) (key gmt s) h)))
chosen_lem gmt s t (u ∷ ts) a h = elim (Bool-cases (comp gmt u s)) [
  | inl e ↦
      ap (chosen_at gmt s (t ∷ u ∷ ts))
        (lower_bound_past gmt s t (u ∷ ts) h ∙ ap suc (lower_bound_past gmt s u ts e))
      ∙ ap (chosen_at gmt s (u ∷ ts)) (sym (lower_bound_past gmt s u ts e))
      ∙ chosen_lem gmt s u ts a.1 e
      ∙ ap back (up_to_keep gmt (key gmt s) u ts (lt_asym (key gmt u) (key gmt s) e))
      ∙ ap (λ l. back (t ∷ l))
          (sym (up_to_keep gmt (key gmt s) u ts (lt_asym (key gmt u) (key gmt s) e)))
      ∙ ap back (sym (up_to_keep gmt (key gmt s) t (u ∷ ts) (lt_asym (key gmt t) (key gmt s) h)))
  | inr e ↦
      ap (chosen_at gmt s (t ∷ u ∷ ts))
        (lower_bound_past gmt s t (u ∷ ts) h ∙ ap suc (lower_bound_here gmt s u ts e))
      ∙ at_bound e
      ∙ ap back (sym (up_to_keep gmt (key gmt s) t (u ∷ ts) (lt_asym (key gmt t) (key gmt s) h)))
]
  where
    at_bound :
        comp gmt u s ≡ false
        → (if equal gmt s u then some u else some t) ≡ back (t ∷ up_to gmt (key gmt s) (u ∷ ts))
    at_bound e = elim (Bool-cases (equal gmt s u)) [
      | inl f ↦
          ap (λ b. if b then some u else some t) f
          ∙ ap (λ l. back (t ∷ l))
              (sym (
                up_to_one gmt (key gmt s) u ts (eq_not_lt (key gmt s) (key gmt u) f)
                  (After-eq gmt (key gmt s) (key gmt u) ts f a.1.0)))
      | inr f ↦
          ap (λ b. if b then some u else some t) f
          ∙ ap (λ l. back (t ∷ l))
              (sym (
                up_to-After gmt (key gmt s) (u ∷ ts) (
                  lt_total (key gmt s) (key gmt u) e f,
                  After-trans gmt (key gmt s) (key gmt u) ts (lt_total (key gmt s) (key gmt u) e f)
                      a.1.0,
                )))
    ]

-- The search when the first transition is no later than the sentry.
chosen_first :
    (gmt : Bool) (s t : Transition) (ts : List Transition)
    → Ascending gmt (t ∷ ts)
    → comp gmt s t ≡ false
    → chosen gmt s (t ∷ ts) ≡ back (up_to gmt (key gmt s) (t ∷ ts))
chosen_first gmt s t ts a h = elim (Bool-cases (comp gmt t s)) [
  | inl e ↦ chosen_lem gmt s t ts a e
  | inr e ↦ same e (eq_both (key gmt s) (key gmt t) h e)
]
  where
    same :
        comp gmt t s ≡ false
        → equal gmt s t ≡ true
        → chosen gmt s (t ∷ ts) ≡ back (up_to gmt (key gmt s) (t ∷ ts))
    same e f =
        ap (chosen_at gmt s (t ∷ ts)) (lower_bound_here gmt s t ts e)
        ∙ ap (λ b. if b then some t else none) f
        ∙ ap back
            (sym (up_to_one gmt (key gmt s) t ts h (After-eq gmt (key gmt s) (key gmt t) ts f a.0)))

-- findLocaltime by the time in UTC or by the local time, whichever its flag says and in whose order the
-- transitions stand, finds the offset of the last transition that is no later than the sentry, and the
-- zone's first one for a time before every transition.
pub find_localtime-in_force :
    (zone : Data) (sentry : Transition) (gmt : Bool)
    → Ascending gmt zone.transitions
    → find_localtime zone sentry gmt ≡ in_force gmt (key gmt sentry) zone
unfolding find_localtime
find_localtime-in_force zone sentry gmt a = go zone.transitions a
  where
    first : Option Localtime
    first = get_elem? zone.localtimes 0

    place : Transition → Option Localtime
    place t = get_elem? zone.localtimes t.localtime_idx

    back_some :
        (t : Transition) (ts : List Transition) → (u : Transition) × (back (t ∷ ts) ≡ some u)
    back_some t [] = (t, refl)
    back_some t (u ∷ ts) = back_some u ts

    found : Transition → List Transition → Option Localtime
    found t ts = chosen gmt sentry (t ∷ ts) >>= place

    or_first : Option Transition → Option Localtime
    or_first o = elim o [ none ↦ first | some t ↦ place t ]

    go :
        (ts : List Transition)
        → Ascending gmt ts
        → find_localtime (record zone { transitions = ts }) sentry gmt
          ≡ in_force gmt (key gmt sentry) (record zone { transitions = ts })
    go [] a = refl
    go (t ∷ ts) a = elim (Bool-cases (comp gmt sentry t)) [
      | inl h ↦
          ap (λ b. if b then first else found t ts) h
          ∙ ap (λ l. or_first (back l))
              (sym (
                up_to-After gmt (key gmt sentry) (t ∷ ts)
                  (h, After-trans gmt (key gmt sentry) (key gmt t) ts h a.0)))
      | inr h ↦
          let (u, e) = back_some t (up_to gmt (key gmt sentry) ts) in
          let whole = ap back (up_to_keep gmt (key gmt sentry) t ts h) ∙ e in
          ap (λ b. if b then first else found t ts) h
          ∙ ap (λ o. o >>= place) (chosen_first gmt sentry t ts a h ∙ whole)
          ∙ sym (ap or_first whole)
    ]
