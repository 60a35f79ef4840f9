-- ===== src/ThreadPool/Order.antt =====
-- What holds of a pool of base/ThreadPool.cc in any order of steps.
use cobra.Base.{
  arith, ℕ, zero, suc, ◌+◌, ◌>>=◌, ◌<◌, ◌≡◌, ◌⊎◌, inl, inr, refl, ap, sym, ◌∙◌, Bool, true, false,
  List, [], ◌∷◌, ◌++◌, Option, none, some, ◌==◌, if◌then◌else◌, length, Bool-cases, append_assoc,
}
use cobra.Monitor.{notify, resume}
use cobra.Monitor.Wakeups.{spurious-IsServed, notify_nobody, notify-total}
use cobra.ThreadPool.{ThreadPool, is_full, run_turn, take_turn, new}
use cobra.ThreadPool.Turns.{Sound, room, run_turn-Sound, take_turn-Sound}
use cobra.ThreadPool.Steps.{
  System, Event, offers, retries, tests, enters, goes_on, calls, returns, take_out, call,
  stirs_worker, stirs_outside, stops, offer, enter, give, retry, test_running, enter_take, go_on,
  return, step, run, begin, after, lifetime,
}

-- How often a task is in a list.
abbrev pub count : ℕ → List ℕ → ℕ
count x [] = 0
count x (y ∷ ys) = (if x == y then 1 else 0) + count x ys

count-append : (x : ℕ) (ys zs : List ℕ) → count x (ys ++ zs) ≡ count x ys + count x zs
count-append x [] zs = omega arith
count-append x (y ∷ ys) zs = omega (arith, count-append x ys zs)

pub record Inv (s : System) : Type 0 where
  pub sound : Sound s.pool
  -- Each task that was taken was called or is held, as often as it was taken.
  pub each : (x : ℕ) → count x s.taken ≡ count x s.called + count x s.held
  pub ordered : s.taken ++ s.pool.queue ≡ s.pushed
  -- Every thread of the pool is somewhere.
  pub counted :
      s.testing
        + s.entering
        + length s.held
        + s.calling
        + s.gone
        + (s.pool.not_empty.sleeping + s.pool.not_empty.woken)
      ≡ s.pool.threads
  pub manned : 0 < s.pool.threads

offer-Inv :
    (task : ℕ) (p : ThreadPool) (s : System)
    → Sound (run_turn task p).1
    → s.taken ++ p.queue ≡ s.pushed
    → s.testing
        + s.entering
        + length s.held
        + s.calling
        + s.gone
        + (p.not_empty.sleeping + p.not_empty.woken)
      ≡ p.threads
    → 0 < p.threads
    → ((x : ℕ) → count x s.taken ≡ count x s.called + count x s.held)
    → Inv (offer task p s)
unfolding run_turn
offer-Inv task p s sound ordered counted manned each = record {
  each = each;
  manned = elim (Bool-cases (is_full p)) [ inl e ↦ rw e manned | inr e ↦ rw e manned ];
  sound = sound;
  ordered = elim (Bool-cases (is_full p)) [
    | inl e ↦ rw e ordered
    | inr e ↦
        rw e (sym (append_assoc s.taken p.queue (task ∷ [])) ∙ ap (λ k. k ++ task ∷ []) ordered)
  ];
  counted = elim (Bool-cases (is_full p)) [
    | inl e ↦ rw e counted
    | inr e ↦ rw e (omega (arith, counted, notify-total p.not_empty))
  ];
}

enter-Inv :
    (p : ThreadPool) (s : System)
    → Sound (take_turn p).1
    → s.taken ++ p.queue ≡ s.pushed
    → suc (
        s.testing
        + s.entering
        + length s.held
        + s.calling
        + s.gone
        + (p.not_empty.sleeping + p.not_empty.woken))
      ≡ p.threads
    → ((x : ℕ) → count x s.taken ≡ count x s.called + count x s.held)
    → Inv (enter p s)
unfolding take_turn
enter-Inv p s sound ordered counted each = go p.queue sound ordered
  where
    idle :
        (b : Bool)
        → Sound (take_turn (record p { queue = []; running = b })).1
        → s.taken ++ [] ≡ s.pushed
        → Inv (enter (record p { queue = []; running = b }) s)
    idle true sound o = record {
      sound = sound;
      ordered = o;
      each = each;
      counted = omega (arith, counted);
      manned = omega (arith, counted);
    }
    idle false sound o = record {
      sound = sound;
      ordered = o;
      each = each;
      counted = omega (arith, counted);
      manned = omega (arith, counted);
    }

    go :
        (xs : List ℕ)
        → Sound (take_turn (record p { queue = xs })).1
        → s.taken ++ xs ≡ s.pushed
        → Inv (enter (record p { queue = xs }) s)
    go [] sound o = idle p.running sound o
    go (x ∷ xs) sound o = record {
      sound = sound;
      ordered = append_assoc s.taken (x ∷ []) xs ∙ o;
      each = λ y. omega (arith, count-append y s.taken (x ∷ []), each y);
      counted = omega (arith, counted);
      manned = omega (arith, counted);
    }

give-Inv : (task n : ℕ) (s : System) → s.pool.threads ≡ n → Inv s → Inv (give task n s)
give-Inv task zero s e inv = absurd (omega (arith, inv.manned, e))
give-Inv task (suc n) s e inv =
    offer-Inv task s.pool s
      (run_turn-Sound task s.pool inv.sound.bounded inv.sound.served
        (omega (arith, inv.sound.spacious)) inv.sound.stopped)
      inv.ordered inv.counted inv.manned inv.each

retry-Inv : (task n : ℕ) (s : System) → s.pool.not_full.woken ≡ n → Inv s → Inv (retry task n s)
retry-Inv task zero s e inv = inv
retry-Inv task (suc n) s e inv =
    offer-Inv task (record s.pool { not_full = resume n s.pool.not_full }) s
      (run_turn-Sound task (record s.pool { not_full = resume n s.pool.not_full }) inv.sound.bounded
        inv.sound.served (omega (arith, e, inv.sound.spacious)) inv.sound.stopped)
      inv.ordered inv.counted inv.manned inv.each

test_running-Inv : (n : ℕ) (s : System) → s.testing ≡ n → Inv s → Inv (test_running n s)
test_running-Inv zero s e inv = inv
test_running-Inv (suc n) s e inv = go s.pool.running
  where
    go :
        (b : Bool)
        → Inv (
            if b
            then record s { testing = n; entering = suc s.entering }
            else record s { testing = n; gone = suc s.gone })
    go true = record {
      sound = inv.sound;
      ordered = inv.ordered;
      each = inv.each;
      counted = omega (arith, e, inv.counted);
      manned = inv.manned;
    }
    go false = record {
      sound = inv.sound;
      ordered = inv.ordered;
      each = inv.each;
      counted = omega (arith, e, inv.counted);
      manned = inv.manned;
    }

enter_take-Inv : (n : ℕ) (s : System) → s.entering ≡ n → Inv s → Inv (enter_take n s)
enter_take-Inv zero s e inv = inv
enter_take-Inv (suc n) s e inv =
    enter-Inv s.pool (record s { entering = n })
      (take_turn-Sound s.pool inv.sound.bounded (omega (arith, inv.sound.served)) inv.sound.spacious
        inv.sound.stopped)
      inv.ordered (omega (arith, e, inv.counted)) inv.each

go_on-Inv : (n : ℕ) (s : System) → s.pool.not_empty.woken ≡ n → Inv s → Inv (go_on n s)
go_on-Inv zero s e inv = inv
go_on-Inv (suc n) s e inv =
    enter-Inv (record s.pool { not_empty = resume n s.pool.not_empty }) s
      (take_turn-Sound (record s.pool { not_empty = resume n s.pool.not_empty }) inv.sound.bounded
        (omega (arith, e, inv.sound.served)) inv.sound.spacious inv.sound.stopped)
      inv.ordered (omega (arith, e, inv.counted)) inv.each

-- What is left without the element that is taken out, as `count` and `length` see it.
abbrev Left : ℕ → List ℕ → Option (ℕ × List ℕ) → Type 0
Left x ys none = Unit {0}
Left x ys (some (y, zs)) = (count x ys ≡ count x (y ∷ zs)) × (length ys ≡ suc (length zs))

Left-behind :
    (x a : ℕ) (ys : List ℕ) (r : Option (ℕ × List ℕ))
    → Left x ys r
    → Left x (a ∷ ys) (do (y, zs) ← r; some (y, a ∷ zs))
Left-behind x a ys none l = l
Left-behind x a ys (some (y, zs)) l = omega (arith, l)

take_out-Left : (x : ℕ) (ys : List ℕ) (i : ℕ) → Left x ys (take_out ys i)
take_out-Left x [] i = tt
take_out-Left x (y ∷ ys) zero = (refl, refl)
take_out-Left x (y ∷ ys) (suc i) = Left-behind x y ys (take_out ys i) (take_out-Left x ys i)

call-Inv :
    (r : Option (ℕ × List ℕ)) (s : System) → ((x : ℕ) → Left x s.held r) → Inv s → Inv (call r s)
call-Inv none s left inv = inv
call-Inv (some (y, zs)) s left inv = record {
  sound = inv.sound;
  ordered = inv.ordered;
  each = λ x. omega (arith, (left x).0, count-append x s.called (y ∷ []), inv.each x);
  counted = omega (arith, (left 0).1, inv.counted);
  manned = inv.manned;
}

return-Inv : (n : ℕ) (s : System) → s.calling ≡ n → Inv s → Inv (return n s)
return-Inv zero s e inv = inv
return-Inv (suc n) s e inv = record {
  sound = inv.sound;
  ordered = inv.ordered;
  each = inv.each;
  counted = omega (arith, e, inv.counted);
  manned = inv.manned;
}

step-Inv : (s : System) (e : Event) → Inv s → Inv (step e s)
step-Inv s (offers task) inv = give-Inv task s.pool.threads s refl inv
step-Inv s (retries task) inv = retry-Inv task s.pool.not_full.woken s refl inv
step-Inv s tests inv = test_running-Inv s.testing s refl inv
step-Inv s enters inv = enter_take-Inv s.entering s refl inv
step-Inv s goes_on inv = go_on-Inv s.pool.not_empty.woken s refl inv
step-Inv s (calls i) inv = call-Inv (take_out s.held i) s (λ x. take_out-Left x s.held i) inv
step-Inv s returns inv = return-Inv s.calling s refl inv
step-Inv s stirs_worker inv = record {
  sound = record {
    bounded = inv.sound.bounded;
    served = spurious-IsServed (length s.pool.queue) s.pool.not_empty inv.sound.served;
    spacious = inv.sound.spacious;
    stopped = quiet inv.sound.stopped;
  };
  ordered = inv.ordered;
  each = inv.each;
  counted = omega (arith, inv.counted, notify-total s.pool.not_empty);
  manned = inv.manned;
}
  where
    quiet :
        (s.pool.running ≡ true) ⊎ (s.pool.not_empty.sleeping ≡ 0)
        → (s.pool.running ≡ true) ⊎ ((notify s.pool.not_empty).sleeping ≡ 0)
    quiet (inl r) = inl r
    quiet (inr e) = inr (notify_nobody s.pool.not_empty e)
step-Inv s stirs_outside inv = record {
  sound = record {
    bounded = inv.sound.bounded;
    served = inv.sound.served;
    spacious = spurious-IsServed (room s.pool) s.pool.not_full inv.sound.spacious;
    stopped = inv.sound.stopped;
  };
  ordered = inv.ordered;
  each = inv.each;
  counted = inv.counted;
  manned = inv.manned;
}
step-Inv s stops inv = record {
  sound = record {
    bounded = inv.sound.bounded;
    served = inl refl;
    spacious = inv.sound.spacious;
    stopped = inr refl;
  };
  ordered = inv.ordered;
  each = inv.each;
  counted = omega (arith, inv.counted);
  manned = inv.manned;
}

run_from-Inv : (es : List Event) (s : System) → Inv s → Inv (run es s)
run_from-Inv [] s inv = inv
run_from-Inv (e ∷ es) s inv = run_from-Inv es (step e s) (step-Inv s e inv)

begin-Inv :
    (max_size threads : ℕ)
    → 0 < threads
    → Inv (begin (record (new max_size) { threads = threads; running = true }))
begin-Inv max_size threads h = record {
  sound = record {
    bounded = inr (omega arith);
    served = inl refl;
    spacious = inl refl;
    stopped = inl refl;
  };
  ordered = refl;
  each = λ x. refl;
  counted = omega arith;
  manned = h;
}

pub run-begin-Inv :
    (max_size threads : ℕ) (es : List Event) → 0 < threads → Inv (after max_size threads es)
run-begin-Inv max_size threads es h =
    run_from-Inv es (begin (record (new max_size) { threads = threads; running = true }))
      (begin-Inv max_size threads h)

-- A pool with one thread or more, from its start on, whatever its threads, other threads that hand tasks
-- to it, stop() and spurious wakeups do, in any order: the tasks are taken out in the order in which
-- they were put in the queue, those that still wait behind them, and each that was taken was called or
-- is held by a thread that has not called it yet, so none is lost or called twice; a bounded queue keeps
-- its size; while a thread of the pool sleeps, no more tasks wait than threads were woken for; while a
-- thread sleeps in run(), there is no more room than threads were woken for; and none of the pool's
-- threads sleeps once it was stopped.
pub lifetime-Inv :
    (max_size threads : ℕ) (es : List Event)
    → 0 < threads
    → (s : System) × (lifetime max_size threads es ≡ some s) × Inv s
lifetime-Inv max_size threads es h =
    (after max_size threads es, refl, run-begin-Inv max_size threads es h)
