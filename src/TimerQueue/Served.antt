-- ===== src/TimerQueue/Served.antt =====
-- addTimer and cancel keep a timer queue valid: cobra/timer_queue.cpp.
use cobra.Base.{
  ℕ, suc, ◌+◌, max, ◌≤◌, ◌<◌, ◌≡◌, ◌≢◌, refl, ap, sym, ◌∙◌, Bool, true, false, List, Option, none,
  some, arith, if◌then◌else◌, Bool-cases, inl, inr,
}
use cobra.Poll.{update}
use cobra.Poll.Invariant.{update_self, update_ne}
use cobra.TimerQueue.{
  Entry, has, put, erase, Timer, TimerQueue, max_address, is_earliest, add_timer_in_loop, add_timer,
  how_much_time_from_now, reset_timerfd, remove_active, note_cancel, cancel_in_loop,
}
use cobra.TimerQueue.Sets.{Each-put, Each-erase}
use cobra.TimerQueue.Invariant.{
  Inv, Away, none-some, true-false, free-Away, with_timer-Inv, same_size-true, has-put_self,
}
use cobra.TimerQueue.Removal.{dropped, vacated, dropped-Inv, dropped-Away, vacated-Inv}
use cobra.TimerQueue.Requests.{
  OnTime, Idle, insert_lem, entered, rest-Inv, entered-Away, dropped-Away-other, Each-earliest,
  put-OnTime, Each-goes_off,
}

-- What a request leaves as it was.
pub record Kept (q r : TimerQueue) : Type 0 where
  pub inv : Inv r
  pub on_time : OnTime q → OnTime r
  pub idle : (p : ℕ) → Idle p q → Idle p r

abbrev new_timer : ℕ → ℕ → Bool → ℕ → Timer
new_timer when delta repeat n = record {
  expiration = when;
  delta = delta;
  repeat = repeat;
  sequence = n;
}

abbrev with_new : ℕ → Timer → TimerQueue → TimerQueue
with_new p x q = record q { heap = update q.heap p (some x); created = suc q.created }

-- The queue after addTimer, by whether the alarm is moved.
abbrev enlarged : ℕ → Timer → TimerQueue → Bool → TimerQueue
enlarged p x q b =
    if b
    then reset_timerfd x.expiration (entered p x (with_new p x q))
    else entered p x (with_new p x q)

free_ne : {q : TimerQueue} (p n : ℕ) → q.heap n ≡ none → Idle p q → n ≢ p
free_ne {q} p n e (x, f, w) s = none-some (sym (ap q.heap s) ∙ e) f

enlarged-Away :
    (p n : ℕ) (x : Timer) (q : TimerQueue) (b : Bool) → p ≢ n → Away p q → Away p (enlarged n x q b)
enlarged-Away p n x q true ne w =
    let v = entered-Away p n x ne w in record { timers = v.timers; active = v.active }
enlarged-Away p n x q false ne w =
    let v = entered-Away p n x ne w in record { timers = v.timers; active = v.active }

enlarged-Kept :
    {q : TimerQueue} (p : ℕ) (x : Timer) (b : Bool)
    → Inv q
    → q.heap p ≡ none
    → p < max_address
    → 0 < x.expiration
    → is_earliest x.expiration q.timers ≡ b
    → Kept q (enlarged p x q b)
enlarged-Kept {q} p x true i e low later f = record {
  inv = rest-Inv _ _ _ _ (with_timer-Inv p x i (free-Away p i e) later low);
  on_time = λ o. inr (
    q.clock + how_much_time_from_now q.clock x.expiration,
    refl,
    Each-goes_off q.clock x.expiration (put (x.expiration, p) q.timers) (
        Each-put (λ y. x.expiration ≤ y.0) (x.expiration, p) q.timers (le_self _)
          (Each-earliest x.expiration q.timers i.sorted_timers f)),
  );
  idle = λ n (y, g, w). (
    y,
    update_ne q.heap p n (some x) (free_ne n p e (y, g, w)) ∙ g,
    enlarged-Away n p x q true (λ s. free_ne n p e (y, g, w) (sym s)) w,
  );
}
  where
    le_self : (a : ℕ) → a ≤ a
    le_self a = omega arith
enlarged-Kept {q} p x false i e low later f = record {
  inv = rest-Inv _ _ _ _ (with_timer-Inv p x i (free-Away p i e) later low);
  on_time = λ o. put-OnTime p x q i.sorted_timers o f;
  idle = λ n (y, g, w). (
    y,
    update_ne q.heap p n (some x) (free_ne n p e (y, g, w)) ∙ g,
    enlarged-Away n p x q false (λ s. free_ne n p e (y, g, w) (sym s)) w,
  );
}

add_timer_run :
    {q : TimerQueue} (p : ℕ) (x : Timer)
    → Inv q
    → q.heap p ≡ none
    → add_timer_in_loop p (with_new p x q)
      ≡ some (enlarged p x q (is_earliest x.expiration q.timers))
unfolding add_timer_in_loop
add_timer_run {q} p x i e =
    rw
      (
        update_self q.heap p (some x),
        insert_lem {q = with_new p x q} p x i.sizes
            (record { timers = w.timers; active = w.active }) (update_self q.heap p (some x)),
      )
      refl
  where
    w : Away p q
    w = free-Away p i e

has-enlarged :
    (p : ℕ) (x : Timer) (q : TimerQueue) (b : Bool)
    → has (x.expiration, p) (enlarged p x q b).timers ≡ true
has-enlarged p x q true = has-put_self (x.expiration, p) q.timers
has-enlarged p x q false = has-put_self (x.expiration, p) q.timers

pub add_timer-Kept :
    {q : TimerQueue} (alloc : (ℕ → Option Timer) → ℕ) (when delta : ℕ) (repeat : Bool)
    → Inv q
    → q.heap (alloc q.heap) ≡ none
    → alloc q.heap < max_address
    → 0 < when
    → (r : TimerQueue) × (add_timer alloc when delta repeat q ≡ some r)
      × Kept q r
      × (has (when, alloc q.heap) r.timers ≡ true)
unfolding add_timer
add_timer-Kept {q} alloc when delta repeat i e low later = (
  enlarged p x q _,
  add_timer_run p x i e,
  enlarged-Kept p x _ i e low later refl,
  has-enlarged p x q _,
)
  where
    p : ℕ
    p = alloc q.heap

    x : Timer
    x = new_timer when delta repeat (suc q.created)

erase-OnTime : (t p : ℕ) (s : ℕ) (q : TimerQueue) → OnTime q → OnTime (vacated p (dropped t p s q))
erase-OnTime t p s q (inl e) = inl (ap (erase (t, p)) e)
erase-OnTime t p s q (inr (a, e, l)) =
    inr (a, e, Each-erase (λ y. a ≤ max y.0 (q.clock + 100)) (t, p) q.timers l)

remove_active-Kept :
    {q : TimerQueue} (p : ℕ) (x : Timer)
    → Inv q
    → q.heap p ≡ some x
    → has (x.expiration, p) q.timers ≡ true
    → has (p, x.sequence) q.active ≡ true
    → (r : TimerQueue) × (remove_active (p, x.sequence) q ≡ some r)
      × Kept q r
      × (has (p, x.sequence) r.active ≡ false)
unfolding remove_active
remove_active-Kept {q} p x i e ht ha = (
  vacated p (dropped x.expiration p x.sequence q),
  rw (e, ht, same_size-true (vacated p (dropped x.expiration p x.sequence q)) j.sizes) refl,
  record {
    inv = vacated-Inv p j a;
    on_time = erase-OnTime x.expiration p x.sequence q;
    idle = λ n (y, g, w).
        let ne : p ≢ n = λ s.
          true-false (ap (λ m. has (m, x.sequence) q.active) (sym s) ∙ ha) (w.active x.sequence) in
        let v = dropped-Away-other x.expiration p x.sequence n i w in
        (y, update_ne q.heap p n none ne ∙ g, record { timers = v.timers; active = v.active });
  },
  a.active x.sequence,
)
  where
    j : Inv (dropped x.expiration p x.sequence q)
    j = dropped-Inv x.expiration p x i e refl ht ha

    a : Away p (dropped x.expiration p x.sequence q)
    a = dropped-Away x.expiration p x i e refl

rest_Kept : {q : TimerQueue} (l : List Entry) → Inv q → Kept q (record q { canceling = l })
rest_Kept {q} l i = record {
  inv = rest-Inv q.armed q.calling l q.created i;
  on_time = λ o. o;
  idle = λ p (x, e, w). (x, e, record { timers = w.timers; active = w.active });
}

note_cancel-Kept :
    {q : TimerQueue} (p s : ℕ) (b : Bool)
    → Inv q
    → has (p, s) q.active ≡ false
    → let r : TimerQueue =
        if b
        then record q {
          canceling = if has (p, s) q.canceling then q.canceling else put (p, s) q.canceling;
        }
        else q in
      Kept q r × (has (p, s) r.active ≡ false)
note_cancel-Kept p s true i e = (rest_Kept _ i, e)
note_cancel-Kept {q} p s false i e = (record { inv = i; on_time = λ o. o; idle = λ n w. w }, e)

pub cancel_in_loop-Kept :
    {q : TimerQueue} (p s : ℕ)
    → Inv q
    → (r : TimerQueue) × (cancel_in_loop (p, s) q ≡ some r)
      × Kept q r
      × (has (p, s) r.active ≡ false)
unfolding cancel_in_loop note_cancel
cancel_in_loop-Kept {q} p s i = elim (Bool-cases (has (p, s) q.active)) [
  | inl h ↦ live h (i.of_active p s h)
  | inr h ↦
      let (k, f) = note_cancel-Kept p s q.calling i h in
      (note_cancel (p, s) q, rw (same_size-true q i.sizes, h) refl, k, f)
]
  where
    live :
        has (p, s) q.active ≡ true
        → (x : Timer) × (q.heap p ≡ some x)
          × (x.sequence ≡ s)
          × (has (x.expiration, p) q.timers ≡ true)
        → (r : TimerQueue) × (cancel_in_loop (p, s) q ≡ some r)
          × Kept q r
          × (has (p, s) r.active ≡ false)
    live h (x, e, k, t) =
        let (r, f, g, z) = remove_active-Kept p x i e t (ap (λ n. has (p, n) q.active) k ∙ h) in
        (
          r,
          rw (same_size-true q i.sizes, h) (ap (λ n. remove_active (p, n) q) (sym k) ∙ f),
          g,
          ap (λ n. has (p, n) r.active) (sym k) ∙ z,
        )
