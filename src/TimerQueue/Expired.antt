-- ===== src/TimerQueue/Expired.antt =====
-- getExpired of cobra/timer_queue.cpp takes the timers that are due, and no other.
use cobra.Base.{
  ℕ, ◌≤◌, ◌<◌, ◌≡◌, ◌≢◌, refl, ap, sym, subst, ◌∙◌, Bool, true, false, ◌||◌, List, [], ◌∷◌, ◌++◌,
  some, arith, if◌then◌else◌, ltb,
}
use cobra.TimerQueue.{
  Entry, eqb, before, has, erase, TimerQueue, max_address, below, from, is_later, erase_active,
  get_expired,
}
use cobra.TimerQueue.Sets.{Each, eqb_self, below-append-from, Each-below, Each-from}
use cobra.TimerQueue.Invariant.{Inv, Away, true-false, same_size-true, or_left}
use cobra.TimerQueue.Removal.{dropped-Inv, dropped-Away}
use cobra.TimerQueue.Requests.{Idle, dropped-Away-other}

-- Entries at different addresses.
abbrev pub Apart : List Entry → Type 0
Apart [] = Unit {0}
Apart (x ∷ xs) = Each (λ y. x.1 ≢ y.1) xs × Apart xs

abbrev at_sets : TimerQueue → List Entry → List Entry → TimerQueue
at_sets q ts l = record q { timers = ts; active = l }

or_second : (a b : Bool) → (a || b) ≡ false → b ≡ false
or_second true b e = absurd (true-false refl e)
or_second false b e = e

Each-Apart :
    (p : ℕ) (xs rest : List Entry)
    → ((t : ℕ) → has (t, p) (xs ++ rest) ≡ false)
    → Each (λ y. p ≢ y.1) xs
Each-Apart p [] rest h = tt
Each-Apart p ((t, n) ∷ xs) rest h = (
  λ s. true-false (or_left _ _ (ap (λ m. eqb (t, m) (t, n)) s ∙ eqb_self (t, n))) (h t),
  Each-Apart p xs rest (λ u. or_second (eqb (u, p) (t, n)) (has (u, p) (xs ++ rest)) (h u)),
)

record Drained (q : TimerQueue) (xs rest l l' : List Entry) : Type 0 where
  runs : erase_active q.heap xs l ≡ some l'
  inv : Inv (at_sets q rest l')
  live : Each (λ y. Idle y.1 (at_sets q rest l')) xs
  apart : Apart xs
  away : (p : ℕ) → Away p (at_sets q (xs ++ rest) l) → Away p (at_sets q rest l')

drain :
    (q : TimerQueue) (xs rest l : List Entry)
    → Inv (at_sets q (xs ++ rest) l)
    → (l' : List Entry) × Drained q xs rest l l'
unfolding erase_active
drain q [] rest l i = (l, record { runs = refl; inv = i; live = tt; apart = tt; away = λ p a. a })
drain q ((t, p) ∷ xs) rest l i =
    let (x, e, k, ha) = i.of_timers t p (or_left _ _ (eqb_self (t, p))) in
    let j =
      subst
        (λ b. Inv (
          at_sets q (if b then xs ++ rest else (t, p) ∷ erase (t, p) (xs ++ rest))
            (erase (p, x.sequence) l)))
        (eqb_self (t, p)) (dropped-Inv t p x i e k (or_left _ _ (eqb_self (t, p))) ha) in
    let a =
      subst
        (λ b. Away p (
          at_sets q (if b then xs ++ rest else (t, p) ∷ erase (t, p) (xs ++ rest))
            (erase (p, x.sequence) l)))
        (eqb_self (t, p)) (dropped-Away t p x i e k) in
    let (l', d) = drain q xs rest (erase (p, x.sequence) l) j in
    (
      l',
      record {
        runs = rw (e, ha) d.runs;
        inv = d.inv;
        live = ((x, e, d.away p a), d.live);
        apart = (Each-Apart p xs rest a.timers, d.apart);
        away = λ n w. d.away n (
            subst
              (λ b. Away n (
                at_sets q (if b then xs ++ rest else (t, p) ∷ erase (t, p) (xs ++ rest))
                  (erase (p, x.sequence) l)))
              (eqb_self (t, p)) (dropped-Away-other t p x.sequence n i w));
      },
    )

-- What getExpired(now) makes of a queue `q`: the timers due, in order, and the queue of the others.
pub record Split (now : ℕ) (q : TimerQueue) (expired : List Entry) (r : TimerQueue) : Type 0 where
  pub timers : q.timers ≡ expired ++ r.timers
  pub heap : r.heap ≡ q.heap
  pub due : Each (λ y. y.0 ≤ now) expired
  pub not_due : Each (λ y. now < y.0) r.timers
  pub inv : Inv r
  pub live : Each (λ y. Idle y.1 r) expired
  pub apart : Apart expired

Each-due :
    (now : ℕ) (xs : List Entry)
    → Each (λ y. before y (now, max_address) ≡ true) xs
    → Each (λ y. y.0 ≤ now) xs
Each-due now [] a = tt
Each-due now ((t, p) ∷ xs) a = (le t p a.0, Each-due now xs a.1)
  where
    le : (t p : ℕ) → before (t, p) (now, max_address) ≡ true → t ≤ now
    le t p e = ground arith

Each-later :
    (now : ℕ) (xs : List Entry)
    → ((t p : ℕ) → has (t, p) xs ≡ true → p < max_address)
    → Each (λ y. before y (now, max_address) ≡ false) xs
    → Each (λ y. now < y.0) xs
Each-later now [] f a = tt
Each-later now ((t, p) ∷ xs) f a = (
  lt t p (f t p (or_left _ _ (eqb_self (t, p)))) a.0,
  Each-later now xs (λ u n h. f u n (keep _ _ h)) a.1,
)
  where
    lt : (t p : ℕ) → p < max_address → before (t, p) (now, max_address) ≡ false → now < t
    lt t p h e = ground arith

    keep : (a b : Bool) → b ≡ true → (a || b) ≡ true
    keep true b h = refl
    keep false b h = h

is_later-true : (now : ℕ) (xs : List Entry) → Each (λ y. now < y.0) xs → is_later now xs ≡ true
is_later-true now [] a = refl
is_later-true now ((t, p) ∷ xs) a = lt t a.0
  where
    lt : (t : ℕ) → now < t → ltb now t ≡ true
    lt t h = ground arith

-- getExpired never fails on a valid queue: it takes out the timers with an expiration of at most `now`
-- in their order, which stay alive and apart from each other, and leaves a valid queue of the later ones.
pub get_expired-Split :
    (now : ℕ) (q : TimerQueue)
    → Inv q
    → (expired : List Entry) × (r : TimerQueue) × (get_expired now q ≡ some (expired, r))
      × Split now q expired r
unfolding get_expired
get_expired-Split now q i =
    let sentry : Entry = (now, max_address) in
    let whole : below sentry q.timers ++ from sentry q.timers ≡ q.timers =
      below-append-from sentry q.timers in
    let (l, d) =
      drain q (below sentry q.timers) (from sentry q.timers) q.active
        (subst (λ ts. Inv (at_sets q ts q.active)) (sym whole) i) in
    let later =
      Each-later now (from sentry q.timers)
        (λ t p h. let (x, e, _, _) = d.inv.of_timers t p h in (d.inv.of_heap p x e).1)
        (Each-from sentry q.timers i.sorted_timers) in
    (
      below sentry q.timers,
      at_sets q (from sentry q.timers) l,
      rw
          (
            same_size-true q i.sizes,
            is_later-true now _ later,
            d.runs,
            same_size-true (at_sets q (from sentry q.timers) l) d.inv.sizes,
          )
          refl,
      record {
        timers = sym whole;
        heap = refl;
        due = Each-due now _ (Each-below sentry q.timers);
        not_due = later;
        inv = d.inv;
        live = d.live;
        apart = d.apart;
      },
    )
