-- ===== src/ThreadPool/Turns.antt =====
-- The size of the queue and the wakeups over the turns of run() and take() of base/ThreadPool.cc.
use cobra.Base.{
  arith, ℕ, suc, ◌+◌, ◌-◌, ◌≤◌, ◌≡◌, ◌⊎◌, inl, inr, refl, Bool, true, false, List, [], ◌∷◌,
  if◌then◌else◌, length, length-append, ltb, Bool-cases,
}
use cobra.Monitor.{wait, notify}
use cobra.Monitor.Wakeups.{IsServed, wait-IsServed, notify-IsServed, notify_nobody}
use cobra.ThreadPool.{ThreadPool, is_full, run_turn, Taken, slept, no_task, take_turn}

-- The room that is left in a bounded queue.
abbrev pub room : ThreadPool → ℕ
room p = p.max_queue_size - length p.queue

pub record Sound (p : ThreadPool) : Type 0 where
  pub bounded : (p.max_queue_size ≡ 0) ⊎ (length p.queue ≤ p.max_queue_size)
  -- No thread of the pool sleeps while more tasks wait than threads were woken for.
  pub served : IsServed (length p.queue) p.not_empty
  -- Nobody sleeps in run() while there is more room than threads were woken for.
  pub spacious : IsServed (room p) p.not_full
  -- Nobody sleeps in take() once the pool was stopped.
  pub stopped : (p.running ≡ true) ⊎ (p.not_empty.sleeping ≡ 0)

full_room : (p : ThreadPool) → is_full p ≡ true → room p ≡ 0
full_room p e = ground arith

not_full_room :
    (p : ThreadPool)
    → is_full p ≡ false
    → (p.max_queue_size ≡ 0) ⊎ (suc (length p.queue) ≤ p.max_queue_size)
not_full_room p e = ground arith

-- A turn of run(), also of a thread that took one of the places for which it was woken.
pub run_turn-Sound :
    (task : ℕ) (p : ThreadPool)
    → (p.max_queue_size ≡ 0) ⊎ (length p.queue ≤ p.max_queue_size)
    → IsServed (length p.queue) p.not_empty
    → IsServed (room p - 1) p.not_full
    → (p.running ≡ true) ⊎ (p.not_empty.sleeping ≡ 0)
    → Sound (run_turn task p).1
unfolding run_turn
run_turn-Sound task p bounded served spacious stopped = elim (Bool-cases (is_full p)) [
  | inl e ↦ rw e (record {
    bounded = bounded;
    served = served;
    spacious = inr (omega (arith, full_room p e));
    stopped = stopped;
  })
  | inr e ↦ rw e (record {
    bounded = omega (arith, not_full_room p e, length-append p.queue (task ∷ []));
    served =
        more (length-append p.queue (task ∷ []))
          (notify-IsServed (length p.queue) p.not_empty served);
    spacious = omega (arith, spacious, length-append p.queue (task ∷ []));
    stopped = still stopped;
  })
]
  where
    more :
        {n m : ℕ}
        → m ≡ n + 1
        → IsServed (suc n) (notify p.not_empty)
        → IsServed m (notify p.not_empty)
    more e s = omega arith

    still :
        (p.running ≡ true) ⊎ (p.not_empty.sleeping ≡ 0)
        → (p.running ≡ true) ⊎ ((notify p.not_empty).sleeping ≡ 0)
    still (inl r) = inl r
    still (inr e) = inr (notify_nobody p.not_empty e)

-- A turn of take(), also of a thread that was woken for a task.
pub take_turn-Sound :
    (p : ThreadPool)
    → (p.max_queue_size ≡ 0) ⊎ (length p.queue ≤ p.max_queue_size)
    → IsServed (length p.queue - 1) p.not_empty
    → IsServed (room p) p.not_full
    → (p.running ≡ true) ⊎ (p.not_empty.sleeping ≡ 0)
    → Sound (take_turn p).1
unfolding take_turn
take_turn-Sound p bounded served spacious stopped = go p.queue bounded served spacious
  where
    idle : Bool → Taken × ThreadPool
    idle b =
        if b
        then (slept, record p { queue = []; running = b; not_empty = wait p.not_empty })
        else (no_task, record p { queue = []; running = b })

    empty :
        (b : Bool)
        → (b ≡ true) ⊎ (p.not_empty.sleeping ≡ 0)
        → IsServed (p.max_queue_size - 0) p.not_full
        → Sound (idle b).1
    empty true t r = record {
      bounded = inr (omega arith);
      served = wait-IsServed p.not_empty;
      spacious = r;
      stopped = inl refl;
    }
    empty false t r = record {
      bounded = inr (omega arith);
      served = inr (omega arith);
      spacious = r;
      stopped = t;
    }

    go :
        (xs : List ℕ)
        → (p.max_queue_size ≡ 0) ⊎ (length xs ≤ p.max_queue_size)
        → IsServed (length xs - 1) p.not_empty
        → IsServed (p.max_queue_size - length xs) p.not_full
        → Sound (take_turn (record p { queue = xs })).1
    go [] b s r = empty p.running stopped r
    go (x ∷ xs) b s r = elim (Bool-cases (ltb 0 p.max_queue_size)) [
      | inl e ↦ rw e (record {
        bounded = omega (arith, b);
        served = omega (arith, s);
        spacious = omega (arith, notify-IsServed (p.max_queue_size - length (x ∷ xs)) p.not_full r);
        stopped = stopped;
      })
      | inr e ↦ rw e (record {
        bounded = omega (arith, b);
        served = omega (arith, s);
        spacious = inr (ground arith);
        stopped = stopped;
      })
    ]
