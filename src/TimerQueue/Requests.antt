-- ===== src/TimerQueue/Requests.antt =====
-- What a callback or another thread asks of a timer queue: addTimer and cancel of
-- cobra/timer_queue.cpp.
use cobra.Base.{
  ℕ, suc, ◌+◌, max, ◌≤◌, ◌≡◌, ◌≢◌, refl, ap, sym, ◌∙◌, Bool, true, false, List, [], ◌∷◌, Option,
  some, length, arith, ◌⊎◌, inl, inr, ltb,
}
use cobra.TimerQueue.{Entry, put, Timer, TimerQueue, is_earliest, insert, how_much_time_from_now}
use cobra.TimerQueue.Sets.{Each, Sorted, Each-map, Each-put, has-put, length-put, before_time}
use cobra.TimerQueue.Invariant.{
  Inv, Away, true-false, not_true, same_size-true, eqb_first, eqb_second, or_both,
}
use cobra.TimerQueue.Removal.{dropped, has-erase-was}

-- The timerfd is set, to a time no later than any timer's or than 100 microseconds from now.
abbrev pub OnTime : TimerQueue → Type 0
OnTime q =
    (q.timers ≡ [])
    ⊎ (a : ℕ) × (q.armed ≡ some a) × Each (λ y. a ≤ max y.0 (q.clock + 100)) q.timers

-- A live timer that is in neither set.
abbrev pub Idle : ℕ → TimerQueue → Type 0
Idle p q = (x : Timer) × (q.heap p ≡ some x) × Away p q

-- The state in which the timer `x` at `p` is in both sets.
abbrev pub entered : ℕ → Timer → TimerQueue → TimerQueue
entered p x q = record q {
  timers = put (x.expiration, p) q.timers;
  active = put (p, x.sequence) q.active;
}

pub insert_lem :
    {q : TimerQueue} (p : ℕ) (x : Timer)
    → length q.timers ≡ length q.active
    → Away p q
    → q.heap p ≡ some x
    → insert p q ≡ some (is_earliest x.expiration q.timers, entered p x q)
unfolding insert
insert_lem {q} p x sizes a e =
    rw
      (
        e,
        same_size-true q sizes,
        a.timers x.expiration,
        a.active x.sequence,
        same_size-true (entered p x q) (
            length-put (x.expiration, p) q.timers
            ∙ ap suc sizes
            ∙ sym (length-put (p, x.sequence) q.active)),
      )
      refl

-- The fields that the sets do not depend on.
abbrev pub with_rest : Option ℕ → Bool → List Entry → ℕ → TimerQueue → TimerQueue
with_rest a c l n q = record q { armed = a; calling = c; canceling = l; created = n }

pub rest-Inv :
    {q : TimerQueue} (a : Option ℕ) (c : Bool) (l : List Entry) (n : ℕ)
    → Inv q
    → Inv (with_rest a c l n q)
rest-Inv a c l n i = record {
  sorted_timers = i.sorted_timers;
  sorted_active = i.sorted_active;
  sizes = i.sizes;
  of_timers = i.of_timers;
  of_active = i.of_active;
  of_heap = i.of_heap;
}

pub clock-Inv : {q : TimerQueue} (t : ℕ) → Inv q → Inv (record q { clock = t })
clock-Inv t i = record {
  sorted_timers = i.sorted_timers;
  sorted_active = i.sorted_active;
  sizes = i.sizes;
  of_timers = i.of_timers;
  of_active = i.of_active;
  of_heap = i.of_heap;
}

pub rest-Away :
    {q : TimerQueue} (a : Option ℕ) (c : Bool) (l : List Entry) (n p : ℕ)
    → Away p q
    → Away p (with_rest a c l n q)
rest-Away a c l n p w = record { timers = w.timers; active = w.active }

pub entered-Away :
    {q : TimerQueue} (p n : ℕ) (x : Timer) → p ≢ n → Away p q → Away p (entered n x q)
entered-Away {q} p n x ne w = record {
  timers = λ t.
      has-put (x.expiration, n) (t, p) q.timers
      ∙ or_both (eqb_second t p x.expiration n ne) (w.timers t);
  active = λ s.
      has-put (n, x.sequence) (p, s) q.active
      ∙ or_both (eqb_first p s n x.sequence ne) (w.active s);
}

pub dropped-Away-other :
    {q : TimerQueue} (t p s n : ℕ) → Inv q → Away n q → Away n (dropped t p s q)
dropped-Away-other {q} t p s n i w = record {
  timers = λ u.
      not_true
        (λ h. true-false (has-erase-was (t, p) (u, n) q.timers i.sorted_timers h) (w.timers u));
  active = λ u.
      not_true
        (λ h. true-false (has-erase-was (p, s) (n, u) q.active i.sorted_active h) (w.active u));
}

-- A timer earlier than the front of the set is earlier than them all.
pub Each-earliest :
    (when : ℕ) (ts : List Entry)
    → Sorted ts
    → is_earliest when ts ≡ true
    → Each (λ y. when ≤ y.0) ts
Each-earliest when [] o e = tt
Each-earliest when ((t, p) ∷ ts) o e =
    (lt t e, Each-map ts (λ y b. le_trans _ _ _ (lt t e) (before_time (t, p) y b)) o.0)
  where
    lt : (t : ℕ) → ltb when t ≡ true → when ≤ t
    lt t e = ground arith

    le_trans : (a b c : ℕ) → a ≤ b → b ≤ c → a ≤ c
    le_trans a b c p q = omega arith

-- A timerfd that is set for the earliest timer.
pub goes_off :
    (now when t : ℕ) → when ≤ t → now + how_much_time_from_now now when ≤ max t (now + 100)
goes_off now when t h = ground arith

pub Each-goes_off :
    (now when : ℕ) (ts : List Entry)
    → Each (λ y. when ≤ y.0) ts
    → Each (λ y. now + how_much_time_from_now now when ≤ max y.0 (now + 100)) ts
Each-goes_off now when ts e = Each-map ts (λ y h. goes_off now when y.0 h) e

-- The alarm of a queue after an insertion.
pub put-OnTime :
    (p : ℕ) (x : Timer) (q : TimerQueue)
    → Sorted q.timers
    → OnTime q
    → (is_earliest x.expiration q.timers ≡ false)
    → OnTime (entered p x q)
put-OnTime p x q o (inl e) f = absurd (true-false refl (sym (ap (is_earliest x.expiration) e) ∙ f))
put-OnTime p x q o (inr (a, e, l)) f = inr (
  a,
  e,
  Each-put (λ y. a ≤ max y.0 (q.clock + 100)) (x.expiration, p) q.timers (front q.timers l f) l,
)
  where
    front :
        (ts : List Entry)
        → Each (λ y. a ≤ max y.0 (q.clock + 100)) ts
        → is_earliest x.expiration ts ≡ false
        → a ≤ max x.expiration (q.clock + 100)
    front [] l f = absurd (true-false refl f)
    front ((t, p) ∷ ts) l f = le a t x.expiration (q.clock + 100) l.0 f
      where
        le : (b c d e : ℕ) → b ≤ max c e → ltb d c ≡ false → b ≤ max d e
        le b c d e g h = ground arith
