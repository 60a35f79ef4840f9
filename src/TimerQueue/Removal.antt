-- ===== src/TimerQueue/Removal.antt =====
-- A timer that leaves the two sets, and one that is deleted (cobra/timer_queue.cpp).
use cobra.Base.{
  ℕ, suc, ◌≡◌, refl, ap, sym, ◌∙◌, Bool, true, false, not, ◌&&◌, List, none, some, arith,
  ℕ_discrete,
}
use cobra.Poll.{update}
use cobra.Poll.Invariant.{update_self, update_ne}
use cobra.TimerQueue.{Entry, eqb, has, erase, Timer, TimerQueue}
use cobra.TimerQueue.Sets.{Sorted, eqb_self, has-erase, length-erase, erase-Sorted}
use cobra.TimerQueue.Invariant.{
  Inv, Away, some_timer, none-some, true-false, not_true, eqb_first, eqb_second,
}

-- The state in which the entries of the timer at `p` are out of both sets.
abbrev pub dropped : ℕ → ℕ → ℕ → TimerQueue → TimerQueue
dropped t p s q = record q { timers = erase (t, p) q.timers; active = erase (p, s) q.active }

-- The state in which the object at `p` is deleted.
abbrev pub vacated : ℕ → TimerQueue → TimerQueue
vacated p q = record q { heap = update q.heap p none }

and_first : (a b : Bool) → (a && b) ≡ true → a ≡ true
and_first true b h = refl
and_first false b h = h

and_second : (a b : Bool) → (a && not b) ≡ true → b ≡ false
and_second true true h = sym h
and_second true false h = refl
and_second false b h = absurd (true-false h refl)

and_both : (a b : Bool) → a ≡ true → b ≡ false → (a && not b) ≡ true
and_both true b e f = ap not f
and_both false b e f = e

pub has-erase-keep :
    (x y : Entry) (s : List Entry)
    → Sorted s
    → has y s ≡ true
    → eqb y x ≡ false
    → has y (erase x s) ≡ true
has-erase-keep x y s o h n = has-erase x y s o ∙ and_both _ _ h n

pub has-erase-was :
    (x y : Entry) (s : List Entry) → Sorted s → has y (erase x s) ≡ true → has y s ≡ true
has-erase-was x y s o h = and_first _ _ (sym (has-erase x y s o) ∙ h)

has-erase-other :
    (x y : Entry) (s : List Entry) → Sorted s → has y (erase x s) ≡ true → eqb y x ≡ false
has-erase-other x y s o h = and_second _ _ (sym (has-erase x y s o) ∙ h)

pub dropped-Away :
    {q : TimerQueue} (t p : ℕ) (x : Timer)
    → Inv q
    → q.heap p ≡ some x
    → x.expiration ≡ t
    → Away p (dropped t p x.sequence q)
dropped-Away {q} t p x i e k = record {
  timers = λ u. not_true (λ h.
      let (y, f, l, _) = i.of_timers u p (has-erase-was (t, p) (u, p) q.timers i.sorted_timers h) in
      true-false
        (ap (λ v. eqb (v, p) (t, p))
            (sym l ∙ ap (λ (z : Timer). z.expiration) (some_timer (sym f ∙ e)) ∙ k)
          ∙ eqb_self (t, p))
        (has-erase-other (t, p) (u, p) q.timers i.sorted_timers h));
  active = λ s. not_true (λ h.
      let (y, f, l, _) =
        i.of_active p s (has-erase-was (p, x.sequence) (p, s) q.active i.sorted_active h) in
      true-false
        (ap (λ v. eqb (p, v) (p, x.sequence))
            (sym l ∙ ap (λ (z : Timer). z.sequence) (some_timer (sym f ∙ e)))
          ∙ eqb_self (p, x.sequence))
        (has-erase-other (p, x.sequence) (p, s) q.active i.sorted_active h));
}

pub dropped-Inv :
    {q : TimerQueue} (t p : ℕ) (x : Timer)
    → Inv q
    → q.heap p ≡ some x
    → x.expiration ≡ t
    → has (t, p) q.timers ≡ true
    → has (p, x.sequence) q.active ≡ true
    → Inv (dropped t p x.sequence q)
dropped-Inv {q} t p x i e k ht ha = record {
  sorted_timers = erase-Sorted (t, p) q.timers i.sorted_timers;
  sorted_active = erase-Sorted (p, x.sequence) q.active i.sorted_active;
  sizes =
      suc_cancel (
        length-erase (t, p) q.timers ht ∙ i.sizes ∙ sym (length-erase (p, x.sequence) q.active ha));
  of_timers = λ u n h. elim (ℕ_discrete n p) [
    | yes s ↦
        absurd
          (true-false (ap (λ m. has (u, m) (erase (t, p) q.timers)) (sym s) ∙ h) (away.timers u))
    | no ne ↦
        let (y, f, l, b) =
          i.of_timers u n (has-erase-was (t, p) (u, n) q.timers i.sorted_timers h) in
        (
          y,
          f,
          l,
          has-erase-keep (p, x.sequence) (n, y.sequence) q.active i.sorted_active b
              (eqb_first n y.sequence p x.sequence ne),
        )
  ];
  of_active = λ n s h. elim (ℕ_discrete n p) [
    | yes r ↦ absurd (
        true-false (ap (λ m. has (m, s) (erase (p, x.sequence) q.active)) (sym r) ∙ h)
          (away.active s))
    | no ne ↦
        let (y, f, l, b) =
          i.of_active n s (has-erase-was (p, x.sequence) (n, s) q.active i.sorted_active h) in
        (
          y,
          f,
          l,
          has-erase-keep (t, p) (y.expiration, n) q.timers i.sorted_timers b
              (eqb_second y.expiration n t p ne),
        )
  ];
  of_heap = i.of_heap;
}
  where
    away : Away p (dropped t p x.sequence q)
    away = dropped-Away t p x i e k

    suc_cancel : {a b : ℕ} → suc a ≡ suc b → a ≡ b
    suc_cancel e = omega arith

pub vacated-Inv : {q : TimerQueue} (p : ℕ) → Inv q → Away p q → Inv (vacated p q)
vacated-Inv {q} p i a = record {
  sorted_timers = i.sorted_timers;
  sorted_active = i.sorted_active;
  sizes = i.sizes;
  of_timers = λ t n h. elim (ℕ_discrete p n) [
    | yes s ↦ absurd (true-false (ap (λ m. has (t, m) q.timers) s ∙ h) (a.timers t))
    | no ne ↦ let (y, f, l, b) = i.of_timers t n h in (y, update_ne q.heap p n none ne ∙ f, l, b)
  ];
  of_active = λ n s h. elim (ℕ_discrete p n) [
    | yes r ↦ absurd (true-false (ap (λ m. has (m, s) q.active) r ∙ h) (a.active s))
    | no ne ↦ let (y, f, l, b) = i.of_active n s h in (y, update_ne q.heap p n none ne ∙ f, l, b)
  ];
  of_heap = λ n y e. elim (ℕ_discrete p n) [
    | yes s ↦ absurd (none-some (ap (update q.heap p none) (sym s) ∙ update_self q.heap p none) e)
    | no ne ↦ i.of_heap n y (sym (update_ne q.heap p n none ne) ∙ e)
  ];
}
