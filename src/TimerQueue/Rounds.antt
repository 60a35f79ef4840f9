-- ===== src/TimerQueue/Rounds.antt =====
-- A round of the timer queue, from the alarm to the next one: handleRead of cobra/timer_queue.cpp.
use cobra.Base.{
  ℕ, ◌+◌, inl, inr, ◌<◌, ◌≡◌, refl, ap, sym, ◌∙◌, Bool, true, false, ◌&&◌, List, [], ◌∷◌, Option,
  none, some, arith, ltb,
}
use cobra.TimerQueue.{
  Entry, Timer, TimerQueue, max_address, Request, adds, cancels, takes, serve, serve_all, run_all,
  get_expired, reset_all, rearm, reset, handle_read,
}
use cobra.TimerQueue.Sets.{Each, Each-map}
use cobra.TimerQueue.Invariant.{Inv, true-false}
use cobra.TimerQueue.Requests.{OnTime, Idle, rest-Inv, clock-Inv, rest-Away}
use cobra.TimerQueue.Served.{Kept, add_timer-Kept, cancel_in_loop-Kept}
use cobra.TimerQueue.Expired.{get_expired-Split}
use cobra.TimerQueue.Reset.{reset_all-Renewed, rearm_lem}

-- The queue is well formed, and its timerfd goes off no later than its earliest timer or 100 microseconds
-- from now.
abbrev pub IsValid : TimerQueue → Type 0
IsValid q = Inv q × OnTime q

abbrev is_free : Option Timer → Bool
is_free none = true
is_free (some x) = false

-- The times of the new timers are valid, and `new` finds a free address for each of them.
abbrev pub fits : ((ℕ → Option Timer) → ℕ) → Request → TimerQueue → Bool
fits alloc (adds when delta repeat) q =
    is_free (q.heap (alloc q.heap)) && (ltb (alloc q.heap) max_address && ltb 0 when)
fits alloc (cancels id) q = true
fits alloc (takes time) q = true

abbrev after : Option TimerQueue → (TimerQueue → Bool) → Bool
after none f = true
after (some q) f = f q

abbrev pub fits_all : ((ℕ → Option Timer) → ℕ) → List Request → TimerQueue → Bool
fits_all alloc [] q = true
fits_all alloc (r ∷ rs) q = fits alloc r q && after (serve alloc r q) (fits_all alloc rs)

abbrev pub fits_run :
    ((ℕ → Option Timer) → ℕ) → (Timer → List Request) → List Entry → TimerQueue → Bool
fits_run alloc callback [] q = true
fits_run alloc callback ((t, p) ∷ xs) q = elim (q.heap p) [
  | none ↦ true
  | some x ↦
      fits_all alloc (callback x) q
      && after (serve_all alloc (callback x) q) (fits_run alloc callback xs)
]

-- The same of all the callbacks of a round.
abbrev pub fits_round : ((ℕ → Option Timer) → ℕ) → (Timer → List Request) → ℕ → TimerQueue → Bool
fits_round alloc callback now q = elim (get_expired now (record q { armed = none; clock = now })) [
  | none ↦ true
  | some (expired, q1) ↦
      fits_run alloc callback expired (record q1 { calling = true; canceling = [] })
]

and_first : (a b : Bool) → (a && b) ≡ true → a ≡ true
and_first true b h = refl
and_first false b h = h

and_second : (a b : Bool) → (a && b) ≡ true → b ≡ true
and_second true b h = h
and_second false b h = absurd (true-false refl (sym h))

is_free-none : (o : Option Timer) → is_free o ≡ true → o ≡ none
is_free-none none h = refl
is_free-none (some x) h = cc

ltb_lt : (a b : ℕ) → ltb a b ≡ true → a < b
ltb_lt a b h = ground arith

pub serve-Kept :
    (alloc : (ℕ → Option Timer) → ℕ) (request : Request) (q : TimerQueue)
    → Inv q
    → fits alloc request q ≡ true
    → (r : TimerQueue) × (serve alloc request q ≡ some r) × Kept q r
unfolding serve
serve-Kept alloc (adds when delta repeat) q i h =
    let tail = and_second _ _ h in
    let (r, e, k, _) =
      add_timer-Kept alloc when delta repeat i (is_free-none _ (and_first _ _ h))
        (ltb_lt _ _ (and_first _ _ tail))
        (ltb_lt _ _ (and_second (ltb (alloc q.heap) max_address) (ltb 0 when) tail)) in
    (r, e, k)
serve-Kept alloc (cancels (p, s)) q i h = let (r, e, k, _) = cancel_in_loop-Kept p s i in (r, e, k)
serve-Kept alloc (takes time) q i h = (
  record q { clock = q.clock + time },
  refl,
  record {
    inv = clock-Inv (q.clock + time) i;
    on_time = later;
    idle = λ p (x, e, w). (x, e, record { timers = w.timers; active = w.active });
  },
)
  where
    later : OnTime q → OnTime (record q { clock = q.clock + time })
    later (inl e) = inl e
    later (inr (a, e, l)) = inr (a, e, Each-map q.timers (λ y b. omega (arith, b)) l)

Kept-refl : {q : TimerQueue} → Inv q → Kept q q
Kept-refl i = record { inv = i; on_time = λ o. o; idle = λ p w. w }

Kept-trans : (q r s : TimerQueue) → Kept q r → Kept r s → Kept q s
Kept-trans q r s k l = record {
  inv = l.inv;
  on_time = λ o. l.on_time (k.on_time o);
  idle = λ p w. l.idle p (k.idle p w);
}

serve_all_run :
    (alloc : (ℕ → Option Timer) → ℕ) (x : Request) (rs : List Request) (q r : TimerQueue)
    (o : Option TimerQueue)
    → serve alloc x q ≡ some r
    → serve_all alloc rs r ≡ o
    → serve_all alloc (x ∷ rs) q ≡ o
unfolding serve_all
serve_all_run alloc x rs q r o e f = rw e f

serve_all-Kept :
    (alloc : (ℕ → Option Timer) → ℕ) (rs : List Request) (q : TimerQueue)
    → Inv q
    → fits_all alloc rs q ≡ true
    → (r : TimerQueue) × (serve_all alloc rs q ≡ some r) × Kept q r
unfolding serve_all
serve_all-Kept alloc [] q i h = (q, refl, Kept-refl i)
serve_all-Kept alloc (x ∷ rs) q i h =
    let (r, e, k) = serve-Kept alloc x q i (and_first _ _ h) in
    let (s, f, l) = serve_all-Kept alloc rs r k.inv (
      sym (ap (λ o. after o (fits_all alloc rs)) e)
      ∙ and_second (fits alloc x q) (after (serve alloc x q) (fits_all alloc rs)) h) in
    (s, serve_all_run alloc x rs q r (some s) e f, Kept-trans q r s k l)

Each-Idle :
    (q r : TimerQueue) (xs : List Entry)
    → Kept q r
    → Each (λ y. Idle y.1 q) xs
    → Each (λ y. Idle y.1 r) xs
Each-Idle q r [] k a = tt
Each-Idle q r ((t, p) ∷ xs) k a = (k.idle p a.0, Each-Idle q r xs k a.1)

run_all_run :
    (alloc : (ℕ → Option Timer) → ℕ) (callback : Timer → List Request) (t p : ℕ) (xs : List Entry)
    (q : TimerQueue) (x : Timer) (r : TimerQueue) (o : Option TimerQueue)
    → q.heap p ≡ some x
    → serve_all alloc (callback x) q ≡ some r
    → run_all alloc callback xs r ≡ o
    → run_all alloc callback ((t, p) ∷ xs) q ≡ o
unfolding run_all
run_all_run alloc callback t p xs q x r o e f g = rw (e, f) g

run_all-Kept :
    (alloc : (ℕ → Option Timer) → ℕ) (callback : Timer → List Request) (xs : List Entry)
    (q : TimerQueue)
    → Inv q
    → Each (λ y. Idle y.1 q) xs
    → fits_run alloc callback xs q ≡ true
    → (r : TimerQueue) × (run_all alloc callback xs q ≡ some r) × Kept q r
unfolding run_all
run_all-Kept alloc callback [] q i a h = (q, refl, Kept-refl i)
run_all-Kept alloc callback ((t, p) ∷ xs) q i a h =
    let (x, e, w) = a.0 in
    let h' = sym (ap (λ o. elim o [ none ↦ true | some y ↦ fits_y y ]) e) ∙ h in
    let (r, f, k) = serve_all-Kept alloc (callback x) q i (and_first _ _ h') in
    let (s, g, l) = run_all-Kept alloc callback xs r k.inv (Each-Idle q r xs k a.1) (
      sym (ap (λ o. after o (fits_run alloc callback xs)) f)
      ∙ and_second (fits_all alloc (callback x) q)
          (after (serve_all alloc (callback x) q) (fits_run alloc callback xs)) h') in
    (s, run_all_run alloc callback t p xs q x r (some s) e f g, Kept-trans q r s k l)
  where
    fits_y : Timer → Bool
    fits_y y =
        fits_all alloc (callback y) q
        && after (serve_all alloc (callback y) q) (fits_run alloc callback xs)

handle_read_run :
    (alloc : (ℕ → Option Timer) → ℕ) (callback : Timer → List Request) (now : ℕ) (q : TimerQueue)
    (xs : List Entry) (q1 q3 q5 : TimerQueue) (o : Option TimerQueue)
    → get_expired now (record q { armed = none; clock = now }) ≡ some (xs, q1)
    → run_all alloc callback xs (record q1 { calling = true; canceling = [] }) ≡ some q3
    → reset_all now xs (record q3 { calling = false }) ≡ some q5
    → rearm q5 ≡ o
    → handle_read alloc callback now q ≡ o
unfolding handle_read reset
handle_read_run alloc callback now q xs q1 q3 q5 o e f m g = rw (e, f, m) g

idle_rest :
    (q : TimerQueue) (a : Option ℕ) (c : Bool) (l : List Entry) (xs : List Entry)
    → Each (λ y. Idle y.1 q) xs
    → Each (λ y. Idle y.1 (record q { armed = a; calling = c; canceling = l })) xs
idle_rest q a c l [] h = tt
idle_rest q a c l ((t, p) ∷ xs) h =
    let (x, e, w) = h.0 in ((x, e, rest-Away a c l q.created p w), idle_rest q a c l xs h.1)

-- handleRead at a positive time never fails on a valid queue, whatever timers its callbacks add and
-- cancel, when their times are valid, memory suffices and the clock does not run backwards: the queue is
-- valid after it, and its timerfd goes off no later than its earliest timer or, where that is later, 100
-- microseconds after the end of handleRead.
pub handle_read-IsValid :
    (alloc : (ℕ → Option Timer) → ℕ) (callback : Timer → List Request) (now : ℕ) (q : TimerQueue)
    → 0 < now
    → Inv q
    → fits_round alloc callback now q ≡ true
    → (r : TimerQueue) × (handle_read alloc callback now q ≡ some r) × IsValid r
handle_read-IsValid alloc callback now q pos i h =
    let (xs, q1, e, s) =
      get_expired-Split now (record q { armed = none; clock = now })
        (clock-Inv now (rest-Inv none q.calling q.canceling q.created i)) in
    let q2 : TimerQueue = record q1 { calling = true; canceling = [] } in
    let (q3, f, k) =
      run_all-Kept alloc callback xs q2 (rest-Inv q1.armed true [] q1.created s.inv)
        (idle_rest q1 q1.armed true [] xs s.live)
        (sym (
            ap
              (λ o. elim o [
                | none ↦ true
                | some (ys, r) ↦
                    fits_run alloc callback ys (record r { calling = true; canceling = [] })
              ])
              e)
          ∙ h) in
    let q4 : TimerQueue = record q3 { calling = false } in
    let (q5, m) =
      reset_all-Renewed now xs q4 pos (rest-Inv q3.armed false q3.canceling q3.created k.inv)
        (idle_rest q3 q3.armed false q3.canceling xs
          (Each-Idle q2 q3 xs k (idle_rest q1 q1.armed true [] xs s.live)))
        s.apart in
    let (q6, g, j, o, _, _) = rearm_lem q5 m.inv in
    (q6, handle_read_run alloc callback now q xs q1 q3 q5 (some q6) e f m.runs g, (j, o))
