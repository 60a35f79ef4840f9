-- ===== src/ThreadPool/Progress.antt =====
-- When the threads of a pool of base/ThreadPool.cc go on, and when nobody does.
use cobra.Base.{
  arith, ℕ, zero, suc, ◌+◌, ◌≤◌, ◌<◌, ◌≡◌, ◌⊎◌, inl, inr, refl, ap, sym, subst, ◌∙◌, Bool, true,
  false, List, [], ◌∷◌, ◌++◌, ◌&&◌, append_assoc, if◌then◌else◌, length,
}
use cobra.Monitor.{Condition, wait, resume}
use cobra.Monitor.Wakeups.{notify-total}
use cobra.ThreadPool.{ThreadPool, is_full, run_turn, take_turn}
use cobra.ThreadPool.Steps.{
  System, Event, offers, retries, tests, enters, goes_on, calls, returns, take_out, call, after,
  stirs_worker, stirs_outside, stops, offer, enter, give, retry, test_running, enter_take, go_on,
  return, step, run,
}
use cobra.ThreadPool.Order.{Inv, run-begin-Inv}

-- The steps of the pool's own threads, without spurious wakeups.
abbrev is_own : Event → Bool
is_own (offers task) = false
is_own (retries task) = false
is_own tests = true
is_own enters = true
is_own goes_on = true
is_own (calls i) = true
is_own returns = true
is_own stirs_worker = false
is_own stirs_outside = false
is_own stops = false

abbrev pub own_only : List Event → Bool
own_only [] = true
own_only (e ∷ es) = is_own e && own_only es

-- At most five steps of the pool's own threads call the task, and before it no more than one other.
pub record Calls (s : System) (x : ℕ) : Type 0 where
  pub steps : List Event
  pub few : length steps ≤ 5
  pub own : own_only steps ≡ true
  pub others : List ℕ
  pub one : length others ≤ 1
  pub called : (run steps s).called ≡ s.called ++ (others ++ x ∷ [])

-- The thread that takes the task calls it.
enter-called :
    (p : ThreadPool) (s : System) (x : ℕ) (xs : List ℕ)
    → p.queue ≡ x ∷ xs
    → (run (calls 0 ∷ []) (enter p s)).called ≡ s.called ++ x ∷ []
unfolding take_turn
enter-called p s x xs e = rw e refl

woken-Calls :
    (n : ℕ) (s : System) (x : ℕ) (xs : List ℕ)
    → s.pool.not_empty.woken ≡ suc n
    → s.pool.queue ≡ x ∷ xs
    → Calls s x
woken-Calls n s x xs w e = record {
  steps = goes_on ∷ calls 0 ∷ [];
  few = omega arith;
  own = refl;
  others = [];
  one = omega arith;
  called =
      ap (λ k. (run (calls 0 ∷ []) (go_on k s)).called) w
      ∙ enter-called (record s.pool { not_empty = resume n s.pool.not_empty }) s x xs e;
}

entering-called :
    (n : ℕ) (s : System) (x : ℕ) (xs : List ℕ)
    → s.entering ≡ suc n
    → s.pool.queue ≡ x ∷ xs
    → (run (enters ∷ calls 0 ∷ []) s).called ≡ s.called ++ x ∷ []
entering-called n s x xs w e =
    ap (λ k. (run (calls 0 ∷ []) (enter_take k s)).called) w
    ∙ enter-called s.pool (record s { entering = n }) x xs e

testing-called :
    (n : ℕ) (s : System) (x : ℕ) (xs : List ℕ)
    → s.testing ≡ suc n
    → s.pool.running ≡ true
    → s.pool.queue ≡ x ∷ xs
    → (run (tests ∷ enters ∷ calls 0 ∷ []) s).called ≡ s.called ++ x ∷ []
testing-called n s x xs w r e =
    ap (λ k. (run (enters ∷ calls 0 ∷ []) (test_running k s)).called) w
    ∙ ap
        (λ (b : Bool).
          (run (enters ∷ calls 0 ∷ []) (
            if b
            then record s { testing = n; entering = suc s.entering }
            else record s { testing = n; gone = suc s.gone })).called)
        r
    ∙ entering-called s.entering (record s { testing = n; entering = suc s.entering }) x xs refl e

calling-called :
    (n : ℕ) (s : System) (x : ℕ) (xs : List ℕ)
    → s.calling ≡ suc n
    → s.pool.running ≡ true
    → s.pool.queue ≡ x ∷ xs
    → (run (returns ∷ tests ∷ enters ∷ calls 0 ∷ []) s).called ≡ s.called ++ x ∷ []
calling-called n s x xs w r e =
    ap (λ k. (run (tests ∷ enters ∷ calls 0 ∷ []) (return k s)).called) w
    ∙ testing-called s.testing (record s { calling = n; testing = suc s.testing }) x xs refl r e

-- A thread that holds a task calls it, and then takes the next one.
holding-called :
    (y : ℕ) (ys : List ℕ) (s : System) (x : ℕ) (xs : List ℕ)
    → s.held ≡ y ∷ ys
    → s.pool.running ≡ true
    → s.pool.queue ≡ x ∷ xs
    → (run (calls 0 ∷ returns ∷ tests ∷ enters ∷ calls 0 ∷ []) s).called
      ≡ s.called ++ ((y ∷ []) ++ x ∷ [])
holding-called y ys s x xs w r e =
    ap (λ k. (run (returns ∷ tests ∷ enters ∷ calls 0 ∷ []) (call (take_out k 0) s)).called) w
    ∙ calling-called s.calling
        (record s { held = ys; called = s.called ++ y ∷ []; calling = suc s.calling }) x xs refl r e
    ∙ append_assoc s.called (y ∷ []) (x ∷ [])

cases : (n : ℕ) → (n ≡ 0) ⊎ ((m : ℕ) × (n ≡ suc m))
cases zero = inl refl
cases (suc n) = inr (n, refl)

stirring :
    (s : System) (x : ℕ) (xs : List ℕ)
    → Inv s
    → s.pool.running ≡ true
    → s.gone ≡ 0
    → s.pool.queue ≡ x ∷ xs
    → Calls s x
stirring s x xs inv r g e = elim (cases s.pool.not_empty.woken) [
  | inr (n, w) ↦ woken-Calls n s x xs w e
  | inl w₀ ↦ elim (cases s.entering) [
    | inr (n, w) ↦ alone (enters ∷ calls 0 ∷ []) (omega arith) refl (entering-called n s x xs w e)
    | inl e₀ ↦ elim (cases s.testing) [
      | inr (n, w) ↦
          alone (tests ∷ enters ∷ calls 0 ∷ []) (omega arith) refl (testing-called n s x xs w r e)
      | inl t₀ ↦ elim (cases s.calling) [
        | inr (n, w) ↦
            alone (returns ∷ tests ∷ enters ∷ calls 0 ∷ []) (omega arith) refl
              (calling-called n s x xs w r e)
        | inl c₀ ↦ held s.held refl c₀ t₀ e₀ w₀
      ]
    ]
  ]
]
  where
    alone :
        (es : List Event)
        → length es ≤ 5
        → own_only es ≡ true
        → (run es s).called ≡ s.called ++ x ∷ []
        → Calls s x
    alone es few own called = record {
      steps = es;
      few = few;
      own = own;
      others = [];
      one = omega arith;
      called = called;
    }

    held :
        (ys : List ℕ)
        → s.held ≡ ys
        → s.calling ≡ 0
        → s.testing ≡ 0
        → s.entering ≡ 0
        → s.pool.not_empty.woken ≡ 0
        → Calls s x
    held (y ∷ ys) w c₀ t₀ e₀ w₀ = record {
      steps = calls 0 ∷ returns ∷ tests ∷ enters ∷ calls 0 ∷ [];
      few = omega arith;
      own = refl;
      others = y ∷ [];
      one = omega arith;
      called = holding-called y ys s x xs w r e;
    }
    held [] w c₀ t₀ e₀ w₀ = absurd (
        omega (
          arith,
          ap length w,
          w₀,
          e₀,
          t₀,
          c₀,
          g,
          inv.counted,
          inv.manned,
          inv.sound.served,
          ap length e,
        ))

-- After any history of a pool with one thread or more that still runs and none of whose threads is gone,
-- at most five steps of its own threads, without a spurious wakeup, call the task at the front of the
-- queue, and no more than one other before it.
pub queue-Calls :
    (max_size threads : ℕ) (past : List Event) (x : ℕ) (xs : List ℕ)
    → 0 < threads
    → (after max_size threads past).pool.running ≡ true
    → (after max_size threads past).gone ≡ 0
    → (after max_size threads past).pool.queue ≡ x ∷ xs
    → Calls (after max_size threads past) x
queue-Calls max_size threads past x xs h r g e =
    stirring (after max_size threads past) x xs (run-begin-Inv max_size threads past h) r g e

-- A stopped pool whose threads are gone, with a full queue.
pub record IsOver (s : System) : Type 0 where
  pub running : s.pool.running ≡ false
  pub nobody :
      s.testing
        + s.entering
        + length s.held
        + s.calling
        + (s.pool.not_empty.sleeping + s.pool.not_empty.woken)
      ≡ 0
  pub manned : 0 < s.pool.threads
  pub full : is_full s.pool ≡ true

-- What a step of such a pool does: only that one more thread may sleep in run().
record Stuck (s t : System) : Type 0 where
  over : IsOver t
  pushed : t.pushed ≡ s.pushed
  called : t.called ≡ s.called
  blocked :
      s.pool.not_full.sleeping + s.pool.not_full.woken
      ≤ t.pool.not_full.sleeping + t.pool.not_full.woken

stays : (s : System) → IsOver s → Stuck s s
stays s o = record { over = o; pushed = refl; called = refl; blocked = omega arith }

offer_full :
    (task : ℕ) (c : Condition) (s : System)
    → is_full s.pool ≡ true
    → offer task (record s.pool { not_full = c }) s
      ≡ record s { pool = record s.pool { not_full = wait c } }
unfolding run_turn
offer_full task c s e = rw e refl

offer-Stuck :
    (task : ℕ) (c : Condition) (s : System)
    → IsOver s
    → s.pool.not_full.sleeping + s.pool.not_full.woken ≤ suc (c.sleeping + c.woken)
    → Stuck s (offer task (record s.pool { not_full = c }) s)
offer-Stuck task c s o h = subst (Stuck s) (sym (offer_full task c s o.full)) (record {
  over = record { running = o.running; nobody = o.nobody; manned = o.manned; full = o.full };
  pushed = refl;
  called = refl;
  blocked = omega (arith, h);
})

give-Stuck : (task n : ℕ) (s : System) → s.pool.threads ≡ n → IsOver s → Stuck s (give task n s)
give-Stuck task zero s e o = absurd (omega (arith, e, o.manned))
give-Stuck task (suc n) s e o = offer-Stuck task s.pool.not_full s o (omega arith)

retry-Stuck :
    (task n : ℕ) (s : System) → s.pool.not_full.woken ≡ n → IsOver s → Stuck s (retry task n s)
retry-Stuck task zero s e o = stays s o
retry-Stuck task (suc n) s e o = offer-Stuck task (resume n s.pool.not_full) s o (omega (arith, e))

-- A step of threads of which there are none.
idle-Stuck :
    (f : ℕ → System → System) (n : ℕ) (s : System) → f 0 s ≡ s → n ≡ 0 → IsOver s → Stuck s (f n s)
idle-Stuck f n s same e o = subst (Stuck s) (sym (ap (λ k. f k s) e ∙ same)) (stays s o)

-- Nobody holds a task.
call-Stuck :
    (i : ℕ) (xs : List ℕ) (s : System)
    → s.held ≡ xs
    → IsOver s
    → Stuck s (call (take_out s.held i) s)
call-Stuck i [] s e o = subst (Stuck s) (sym (ap (λ k. call (take_out k i) s) e)) (stays s o)
call-Stuck i (x ∷ xs) s e o = absurd (omega (arith, o.nobody, ap length e))

step-Stuck : (s : System) (e : Event) → IsOver s → Stuck s (step e s)
step-Stuck s (offers task) o = give-Stuck task s.pool.threads s refl o
step-Stuck s (retries task) o = retry-Stuck task s.pool.not_full.woken s refl o
step-Stuck s tests o = idle-Stuck test_running s.testing s refl (omega (arith, o.nobody)) o
step-Stuck s enters o = idle-Stuck enter_take s.entering s refl (omega (arith, o.nobody)) o
step-Stuck s goes_on o = idle-Stuck go_on s.pool.not_empty.woken s refl (omega (arith, o.nobody)) o
step-Stuck s (calls i) o = call-Stuck i s.held s refl o
step-Stuck s returns o = idle-Stuck return s.calling s refl (omega (arith, o.nobody)) o
step-Stuck s stirs_worker o = record {
  over = record {
    running = o.running;
    nobody = omega (arith, o.nobody, notify-total s.pool.not_empty);
    manned = o.manned;
    full = o.full;
  };
  pushed = refl;
  called = refl;
  blocked = omega arith;
}
step-Stuck s stirs_outside o = record {
  over = record { running = o.running; nobody = o.nobody; manned = o.manned; full = o.full };
  pushed = refl;
  called = refl;
  blocked = omega (arith, notify-total s.pool.not_full);
}
step-Stuck s stops o = record {
  over = record {
    running = refl;
    nobody = omega (arith, o.nobody);
    manned = o.manned;
    full = o.full;
  };
  pushed = refl;
  called = refl;
  blocked = omega arith;
}

-- Once a pool with threads was stopped and they are gone while its queue is full, no task enters the queue
-- or is called any more, whatever happens, and every thread that sleeps in run() stays in it for ever.
pub run-blocked :
    (es : List Event) (s : System)
    → IsOver s
    → ((run es s).pushed ≡ s.pushed)
      × ((run es s).called ≡ s.called)
      × (s.pool.not_full.sleeping + s.pool.not_full.woken
          ≤ (run es s).pool.not_full.sleeping + (run es s).pool.not_full.woken)
run-blocked [] s o = (refl, refl, omega arith)
run-blocked (e ∷ es) s o =
    let one : Stuck s (step e s) = step-Stuck s e o in
    let (pushed, called, blocked) = run-blocked es (step e s) one.over in
    (pushed ∙ one.pushed, called ∙ one.called, omega (arith, blocked, one.blocked))
