-- ===== src/TimerQueue/Reset.antt =====
-- reset of cobra/timer_queue.cpp: the repeating timers go back into the sets, the others are deleted.
use cobra.Base.{
  ℕ, ◌+◌, ◌≤◌, ◌<◌, ◌≡◌, ◌≢◌, refl, ap, sym, subst, ◌∙◌, Bool, true, false, not, ◌&&◌, List, [],
  ◌∷◌, none, some, arith, Bool-cases, inl, inr, ltb,
}
use cobra.Poll.{update}
use cobra.Poll.Invariant.{update_self, update_ne}
use cobra.TimerQueue.{
  Entry, has, put, Timer, restart, TimerQueue, reset_one, reset_all, rearm, reset_timerfd,
  how_much_time_from_now,
}
use cobra.TimerQueue.Sets.{Each, Sorted, Each-map, eqb_self, before_time, has-put}
use cobra.TimerQueue.Invariant.{
  Inv, Away, or_left, or_keep, has-put_self, with_timer, with_timer-Inv,
}
use cobra.TimerQueue.Removal.{vacated, vacated-Inv}
use cobra.TimerQueue.Requests.{OnTime, Each-goes_off, Idle, insert_lem, rest-Inv, entered-Away}
use cobra.TimerQueue.Expired.{Apart}

-- The timer is set again when it repeats and has not been cancelled since.
abbrev pub is_renewed : Entry → Timer → TimerQueue → Bool
is_renewed (t, p) x q = x.repeat && not (has (p, x.sequence) q.canceling)

-- What becomes of the timer at `p`: its next expiration is an interval away, or it is deleted.
abbrev pub Fate : ℕ → ℕ → Timer → TimerQueue → Bool → Type 0
Fate now p x r true = (r.heap p ≡ some (restart now x)) × (has (now + x.delta, p) r.timers ≡ true)
Fate now p x r false = r.heap p ≡ none

abbrev renewed : ℕ → ℕ → Timer → TimerQueue → Bool → TimerQueue
renewed now p x q true = with_timer p (restart now x) q
renewed now p x q false = vacated p q

record Step (now t p : ℕ) (x : Timer) (q r : TimerQueue) : Type 0 where
  runs : reset_one now (t, p) q ≡ some r
  inv : Inv r
  fate : Fate now p x r (is_renewed (t, p) x q)
  heap : (n : ℕ) → p ≢ n → r.heap n ≡ q.heap n
  away : (n : ℕ) → p ≢ n → Away n q → Away n r
  grows : (y : Entry) → has y q.timers ≡ true → has y r.timers ≡ true
  canceling : r.canceling ≡ q.canceling

restart_expiration :
    (now : ℕ) (x : Timer) → x.repeat ≡ true → (restart now x).expiration ≡ now + x.delta
unfolding restart
restart_expiration now x e = rw e refl

reset_one_again :
    (now t p : ℕ) (x : Timer) (q : TimerQueue)
    → Inv q
    → q.heap p ≡ some x
    → Away p q
    → is_renewed (t, p) x q ≡ true
    → reset_one now (t, p) q ≡ some (with_timer p (restart now x) q)
unfolding reset_one
reset_one_again now t p x q i e a b =
    rw
      (
        e,
        b,
        insert_lem {q = record q { heap = update q.heap p (some (restart now x)) }} p
            (restart now x) i.sizes (record { timers = a.timers; active = a.active })
            (update_self q.heap p (some (restart now x))),
      )
      refl

reset_one_delete :
    (now t p : ℕ) (x : Timer) (q : TimerQueue)
    → q.heap p ≡ some x
    → is_renewed (t, p) x q ≡ false
    → reset_one now (t, p) q ≡ some (vacated p q)
unfolding reset_one
reset_one_delete now t p x q e b = rw (e, b) refl

and_first : {a : Bool} (b : Bool) → (a && b) ≡ true → a ≡ true
and_first {a = true} b h = refl
and_first {a = false} b h = h

reset_one-Step :
    (now t p : ℕ) (x : Timer) (q : TimerQueue)
    → 0 < now
    → Inv q
    → q.heap p ≡ some x
    → Away p q
    → (r : TimerQueue) × Step now t p x q r
reset_one-Step now t p x q pos i e a = elim (Bool-cases (is_renewed (t, p) x q)) [
  | inl b ↦ (
    with_timer p (restart now x) q,
    record {
      runs = reset_one_again now t p x q i e a b;
      inv =
          with_timer-Inv p (restart now x) i a
            (subst (λ n. 0 < n) (sym (restart_expiration now x (and_first _ b)))
              (positive now x.delta pos))
            (i.of_heap p x e).1;
      fate = subst (Fate now p x (with_timer p (restart now x) q)) (sym b) (
        update_self q.heap p (some (restart now x)),
        ap (λ n. has (n, p) (put ((restart now x).expiration, p) q.timers))
              (sym (restart_expiration now x (and_first _ b)))
            ∙ has-put_self ((restart now x).expiration, p) q.timers,
      );
      heap = λ n ne. update_ne q.heap p n (some (restart now x)) ne;
      away = λ n ne w.
          let v = entered-Away n p (restart now x) (λ s. ne (sym s)) w in
          record { timers = v.timers; active = v.active };
      grows = λ y h. has-put ((restart now x).expiration, p) y q.timers ∙ or_keep _ _ h;
      canceling = refl;
    },
  )
  | inr b ↦ (
    vacated p q,
    record {
      runs = reset_one_delete now t p x q e b;
      inv = vacated-Inv p i a;
      fate = subst (Fate now p x (vacated p q)) (sym b) (update_self q.heap p none);
      heap = λ n ne. update_ne q.heap p n none ne;
      away = λ n ne w. record { timers = w.timers; active = w.active };
      grows = λ y h. h;
      canceling = refl;
    },
  )
]
  where
    positive : (a b : ℕ) → 0 < a → 0 < a + b
    positive a b h = omega arith

-- What the loop of reset makes of the queue `q`.
pub record Renewed (now : ℕ) (xs : List Entry) (q r : TimerQueue) : Type 0 where
  pub runs : reset_all now xs q ≡ some r
  pub inv : Inv r
  pub fates :
      Each (λ y. (x : Timer) × (q.heap y.1 ≡ some x) × Fate now y.1 x r (is_renewed y x q)) xs
  pub heap : (n : ℕ) → Each (λ y. n ≢ y.1) xs → r.heap n ≡ q.heap n
  pub grows : (y : Entry) → has y q.timers ≡ true → has y r.timers ≡ true

Fate-later :
    (now p : ℕ) (x : Timer) (r r' : TimerQueue) (b : Bool)
    → r'.heap p ≡ r.heap p
    → ((y : Entry) → has y r.timers ≡ true → has y r'.timers ≡ true)
    → Fate now p x r b
    → Fate now p x r' b
Fate-later now p x r r' true e g (f, h) = (e ∙ f, g (now + x.delta, p) h)
Fate-later now p x r r' false e g f = e ∙ f

idle_later :
    (q r : TimerQueue) (p : ℕ) (xs : List Entry)
    → ((n : ℕ) → p ≢ n → r.heap n ≡ q.heap n)
    → ((n : ℕ) → p ≢ n → Away n q → Away n r)
    → Each (λ y. p ≢ y.1) xs
    → Each (λ y. Idle y.1 q) xs
    → Each (λ y. Idle y.1 r) xs
idle_later q r p [] h w ne a = tt
idle_later q r p ((t, n) ∷ xs) h w ne a =
    let (x, e, v) = a.0 in ((x, h n ne.0 ∙ e, w n ne.0 v), idle_later q r p xs h w ne.1 a.1)

fates_before :
    (q r s : TimerQueue) (now p : ℕ) (xs : List Entry)
    → ((n : ℕ) → p ≢ n → r.heap n ≡ q.heap n)
    → r.canceling ≡ q.canceling
    → Each (λ y. p ≢ y.1) xs
    → Each (λ y. (x : Timer) × (r.heap y.1 ≡ some x) × Fate now y.1 x s (is_renewed y x r)) xs
    → Each (λ y. (x : Timer) × (q.heap y.1 ≡ some x) × Fate now y.1 x s (is_renewed y x q)) xs
fates_before q r s now p [] h c ne a = tt
fates_before q r s now p ((t, n) ∷ xs) h c ne a =
    let (x, e, f) = a.0 in
    (
      (
        x,
        sym (h n ne.0) ∙ e,
        subst (λ l. Fate now n x s (x.repeat && not (has (n, x.sequence) l))) c f,
      ),
      fates_before q r s now p xs h c ne.1 a.1,
    )

-- The loop of reset over live timers that are in neither set, at different addresses, succeeds at a
-- positive time and leaves a valid queue: the timers that repeat and were not cancelled are in the sets
-- again, due an interval after `now`, the others are deleted, and no timer at another address changes.
pub reset_all-Renewed :
    (now : ℕ) (xs : List Entry) (q : TimerQueue)
    → 0 < now
    → Inv q
    → Each (λ y. Idle y.1 q) xs
    → Apart xs
    → (r : TimerQueue) × Renewed now xs q r
unfolding reset_all
reset_all-Renewed now [] q pos i a d =
    (q, record { runs = refl; inv = i; fates = tt; heap = λ n ne. refl; grows = λ y h. h })
reset_all-Renewed now ((t, p) ∷ xs) q pos i a d =
    let (x, e, w) = a.0 in
    let (r, s) = reset_one-Step now t p x q pos i e w in
    let (r', s') =
      reset_all-Renewed now xs r pos s.inv (idle_later q r p xs s.heap s.away d.0 a.1) d.1 in
    (
      r',
      record {
        runs = rw (s.runs) s'.runs;
        inv = s'.inv;
        fates = (
          (x, e, Fate-later now p x r r' (is_renewed (t, p) x q) (s'.heap p d.0) s'.grows s.fate),
          fates_before q r r' now p xs s.heap s.canceling d.0 s'.fates,
        );
        heap = λ n ne. s'.heap n ne.1 ∙ s.heap n (λ f. ne.0 (sym f));
        grows = λ y h. s'.grows y (s.grows y h);
      },
    )

-- The end of reset arms the timerfd for the earliest timer.
pub rearm_lem :
    (q : TimerQueue)
    → Inv q
    → (r : TimerQueue) × (rearm q ≡ some r)
      × Inv r
      × OnTime r
      × (r.heap ≡ q.heap)
      × (r.timers ≡ q.timers)
unfolding rearm
rearm_lem q i = go q.timers refl
  where
    All_front :
        (t p : ℕ) (ts : List Entry) → Sorted ((t, p) ∷ ts) → Each (λ y. t ≤ y.0) ((t, p) ∷ ts)
    All_front t p ts o = (self t, Each-map ts (λ y b. before_time (t, p) y b) o.0)
      where
        self : (a : ℕ) → a ≤ a
        self a = omega arith

    lt : (a : ℕ) → 0 < a → ltb 0 a ≡ true
    lt a h = ground arith

    go :
        (ts : List Entry)
        → q.timers ≡ ts
        → (r : TimerQueue) × (rearm q ≡ some r)
          × Inv r
          × OnTime r
          × (r.heap ≡ q.heap)
          × (r.timers ≡ q.timers)
    go [] e = (q, rw e refl, i, inl e, refl, refl)
    go ((t, p) ∷ ts) e =
        let (x, f, k, _) = i.of_timers t p (ap (has (t, p)) e ∙ or_left _ _ (eqb_self (t, p))) in
        (
          reset_timerfd x.expiration q,
          rw (e, f, lt x.expiration (i.of_heap p x f).0) refl,
          rest-Inv (some (q.clock + how_much_time_from_now q.clock x.expiration)) q.calling
              q.canceling q.created i,
          inr (
            q.clock + how_much_time_from_now q.clock x.expiration,
            refl,
            Each-goes_off q.clock x.expiration q.timers (
                subst (λ a. Each (λ y. a ≤ y.0) q.timers) (sym k)
                  (subst (λ l. Each (λ y. t ≤ y.0) l) (sym e)
                    (All_front t p ts (subst Sorted e i.sorted_timers)))),
          ),
          refl,
          refl,
        )
