-- ===== src/TimerQueue/Invariant.antt =====
-- The invariant of a timer queue: timers_ and activeTimers_ hold the same live timers, each under its
-- own key (cobra/timer_queue.cpp).
use cobra.Base.{
  ℕ, suc, ◌<◌, ◌≡◌, ◌≢◌, refl, ap, sym, subst, ◌∙◌, Bool, true, false, ◌||◌, List, Option, none,
  some, length, arith, ℕ_discrete,
}
use cobra.Poll.{update}
use cobra.Poll.Invariant.{update_self, update_ne}
use cobra.TimerQueue.{Entry, eqb, has, put, Timer, TimerQueue, max_address, same_size}
use cobra.TimerQueue.Sets.{Sorted, eqb_self, eqb_eq, has-put, length-put, put-Sorted}

pub record Inv (q : TimerQueue) : Type 0 where
  pub sorted_timers : Sorted q.timers
  pub sorted_active : Sorted q.active
  pub sizes : length q.timers ≡ length q.active
  pub of_timers :
      (t p : ℕ)
      → has (t, p) q.timers ≡ true
      → (x : Timer) × (q.heap p ≡ some x)
        × (x.expiration ≡ t)
        × (has (p, x.sequence) q.active ≡ true)
  pub of_active :
      (p s : ℕ)
      → has (p, s) q.active ≡ true
      → (x : Timer) × (q.heap p ≡ some x)
        × (x.sequence ≡ s)
        × (has (x.expiration, p) q.timers ≡ true)
  pub of_heap : (p : ℕ) (x : Timer) → q.heap p ≡ some x → (0 < x.expiration) × (p < max_address)

-- No entry of the two sets is at address `p`.
pub record Away (p : ℕ) (q : TimerQueue) : Type 0 where
  pub timers : (t : ℕ) → has (t, p) q.timers ≡ false
  pub active : (s : ℕ) → has (p, s) q.active ≡ false

pub some_timer : {x y : Timer} → some x ≡ some y → x ≡ y
some_timer {x} e = ap (λ o. elim o [ none ↦ x | some z ↦ z ]) e

pub true-false : {b : Bool} → b ≡ true → b ≡ false → ⊥
true-false e f = cc

pub not_true : {b : Bool} → (b ≡ true → ⊥) → b ≡ false
not_true {b = true} h = absurd (h refl)
not_true {b = false} h = refl

pub none-some : {o : Option Timer} {x : Timer} → o ≡ none → o ≡ some x → ⊥
none-some e f = cc

pub same_size-true : (q : TimerQueue) → length q.timers ≡ length q.active → same_size q ≡ true
same_size-true q e = ground arith

-- A free address is away, and so is that of a live timer that is not in the sets.
pub free-Away : {q : TimerQueue} (p : ℕ) → Inv q → q.heap p ≡ none → Away p q
free-Away p i e = record {
  timers = λ t. not_true (λ h. let (x, f, _, _) = i.of_timers t p h in none-some e f);
  active = λ s. not_true (λ h. let (x, f, _, _) = i.of_active p s h in none-some e f);
}

pub inactive-Away :
    {q : TimerQueue} (p : ℕ) (x : Timer)
    → Inv q
    → q.heap p ≡ some x
    → has (p, x.sequence) q.active ≡ false
    → Away p q
inactive-Away {q} p x i e idle = record {
  timers = λ t. not_true (λ h.
      let (y, f, _, a) = i.of_timers t p h in
      true-false (ap (λ (z : Timer). has (p, z.sequence) q.active) (some_timer (sym e ∙ f)) ∙ a)
        idle);
  active = λ s. not_true (λ h.
      let (y, f, k, a) = i.of_active p s h in
      true-false
        (ap (λ n. has (p, n) q.active) (ap (λ (z : Timer). z.sequence) (some_timer (sym e ∙ f)) ∙ k)
          ∙ h)
        idle);
}

pub or_right : (a b : Bool) → a ≡ false → (a || b) ≡ true → b ≡ true
or_right true b e h = cc
or_right false b e h = h

pub or_both : {a b : Bool} → a ≡ false → b ≡ false → (a || b) ≡ false
or_both e f = cc

pub or_left : (a b : Bool) → a ≡ true → (a || b) ≡ true
or_left true b e = refl
or_left false b e = cc

pub or_keep : (a b : Bool) → b ≡ true → (a || b) ≡ true
or_keep true b e = refl
or_keep false b e = e

pub or_first : (a b : Bool) → b ≡ false → (a || b) ≡ true → a ≡ true
or_first true b e h = refl
or_first false b e h = absurd (true-false h e)

pub has-put_self : (y : Entry) (s : List Entry) → has y (put y s) ≡ true
has-put_self y s = has-put y y s ∙ or_left (eqb y y) (has y s) (eqb_self y)

pub eqb_first : (a b c d : ℕ) → a ≢ c → eqb (a, b) (c, d) ≡ false
eqb_first a b c d h = ground arith

pub eqb_second : (a b c d : ℕ) → b ≢ d → eqb (a, b) (c, d) ≡ false
eqb_second a b c d h = ground arith

-- The state in which a timer at `p` has been put into both sets.
abbrev pub with_timer : ℕ → Timer → TimerQueue → TimerQueue
with_timer p x q = record q {
  heap = update q.heap p (some x);
  timers = put (x.expiration, p) q.timers;
  active = put (p, x.sequence) q.active;
}

pub with_timer-Inv :
    {q : TimerQueue} (p : ℕ) (x : Timer)
    → Inv q
    → Away p q
    → 0 < x.expiration
    → p < max_address
    → Inv (with_timer p x q)
with_timer-Inv {q} p x i a later low = record {
  sorted_timers = put-Sorted (x.expiration, p) q.timers (a.timers x.expiration) i.sorted_timers;
  sorted_active = put-Sorted (p, x.sequence) q.active (a.active x.sequence) i.sorted_active;
  sizes =
      length-put (x.expiration, p) q.timers
      ∙ ap suc i.sizes
      ∙ sym (length-put (p, x.sequence) q.active);
  of_timers = of_timers;
  of_active = of_active;
  of_heap = of_heap;
}
  where
    key_timer : (t : ℕ) → has (t, p) (put (x.expiration, p) q.timers) ≡ true → x.expiration ≡ t
    key_timer t h =
        ap (λ (y : Entry). y.0)
          (sym (
            eqb_eq (t, p) (x.expiration, p)
              (or_first _ _ (a.timers t) (sym (has-put (x.expiration, p) (t, p) q.timers) ∙ h))))

    key_active : (s : ℕ) → has (p, s) (put (p, x.sequence) q.active) ≡ true → x.sequence ≡ s
    key_active s h =
        ap (λ (y : Entry). y.1)
          (sym (
            eqb_eq (p, s) (p, x.sequence)
              (or_first _ _ (a.active s) (sym (has-put (p, x.sequence) (p, s) q.active) ∙ h))))

    of_timers :
        (t n : ℕ)
        → has (t, n) (put (x.expiration, p) q.timers) ≡ true
        → (y : Timer) × (update q.heap p (some x) n ≡ some y)
          × (y.expiration ≡ t)
          × (has (n, y.sequence) (put (p, x.sequence) q.active) ≡ true)
    of_timers t n h = elim (ℕ_discrete p n) [
      | yes e ↦ (
        x,
        ap (update q.heap p (some x)) (sym e) ∙ update_self q.heap p (some x),
        key_timer t (ap (λ m. has (t, m) (put (x.expiration, p) q.timers)) e ∙ h),
        ap (λ m. has (m, x.sequence) (put (p, x.sequence) q.active)) (sym e)
            ∙ has-put_self (p, x.sequence) q.active,
      )
      | no ne ↦
          let (y, f, k, b) = i.of_timers t n (
            or_right _ _ (eqb_second t n x.expiration p (λ e. ne (sym e)))
              (sym (has-put (x.expiration, p) (t, n) q.timers) ∙ h)) in
          (
            y,
            update_ne q.heap p n (some x) ne ∙ f,
            k,
            has-put (p, x.sequence) (n, y.sequence) q.active ∙ or_keep _ _ b,
          )
    ]

    of_active :
        (n s : ℕ)
        → has (n, s) (put (p, x.sequence) q.active) ≡ true
        → (y : Timer) × (update q.heap p (some x) n ≡ some y)
          × (y.sequence ≡ s)
          × (has (y.expiration, n) (put (x.expiration, p) q.timers) ≡ true)
    of_active n s h = elim (ℕ_discrete p n) [
      | yes e ↦ (
        x,
        ap (update q.heap p (some x)) (sym e) ∙ update_self q.heap p (some x),
        key_active s (ap (λ m. has (m, s) (put (p, x.sequence) q.active)) e ∙ h),
        ap (λ m. has (x.expiration, m) (put (x.expiration, p) q.timers)) (sym e)
            ∙ has-put_self (x.expiration, p) q.timers,
      )
      | no ne ↦
          let (y, f, k, b) = i.of_active n s (
            or_right _ _ (eqb_first n s p x.sequence (λ e. ne (sym e)))
              (sym (has-put (p, x.sequence) (n, s) q.active) ∙ h)) in
          (
            y,
            update_ne q.heap p n (some x) ne ∙ f,
            k,
            has-put (x.expiration, p) (y.expiration, n) q.timers ∙ or_keep _ _ b,
          )
    ]

    of_heap :
        (n : ℕ) (y : Timer)
        → update q.heap p (some x) n ≡ some y
        → (0 < y.expiration) × (n < max_address)
    of_heap n y e = elim (ℕ_discrete p n) [
      | yes same ↦
          subst (λ (z : Timer). (0 < z.expiration) × (n < max_address))
            (some_timer
              (sym (ap (update q.heap p (some x)) (sym same) ∙ update_self q.heap p (some x)) ∙ e))
            (later, subst (λ m. m < max_address) same low)
      | no ne ↦ i.of_heap n y (sym (update_ne q.heap p n (some x) ne) ∙ e)
    ]
