-- ===== src/Monitor/Wakeups.antt =====
-- The wakeups at a condition variable of base/Condition.h, and how many things to do they are for.
use cobra.Base.{arith, ℕ, zero, suc, ◌+◌, ◌≤◌, ◌≡◌, ◌⊎◌, inl, inr, refl}
use cobra.Monitor.{Condition, wait, wake, notify, notify_all, resume}

-- Where threads sleep, at least as many were woken as there are things to do.
abbrev pub IsServed : ℕ → Condition → Type 0
IsServed n c = (c.sleeping ≡ 0) ⊎ (n ≤ c.woken)

pub fewer-IsServed : (n m : ℕ) (c : Condition) → m ≤ n → IsServed n c → IsServed m c
fewer-IsServed n m c h s = omega arith

pub wait-IsServed : (c : Condition) → IsServed 0 (wait c)
wait-IsServed c = inr (omega arith)

-- One more thing to do, and one thread more that is woken.
pub notify-IsServed : (n : ℕ) (c : Condition) → IsServed n c → IsServed (suc n) (notify c)
notify-IsServed n c s = go c.sleeping s
  where
    go : (k : ℕ) → (k ≡ 0) ⊎ (n ≤ c.woken) → IsServed (suc n) (wake k c.woken)
    go zero s = inl refl
    go (suc k) s = inr (omega arith)

pub spurious-IsServed : (n : ℕ) (c : Condition) → IsServed n c → IsServed n (notify c)
spurious-IsServed n c s = fewer-IsServed (suc n) n (notify c) (omega arith) (notify-IsServed n c s)

pub notify_all-IsServed : (n : ℕ) (c : Condition) → IsServed n (notify_all c)
notify_all-IsServed n c = inl refl

-- A thread that goes on takes one of the things to do.
pub resume-IsServed :
    (n k : ℕ) (c : Condition) → c.woken ≡ suc k → IsServed (suc n) c → IsServed n (resume k c)
resume-IsServed n k c e s = omega arith

-- The number of threads at a condition variable.
pub notify-total : (c : Condition) → (notify c).sleeping + (notify c).woken ≡ c.sleeping + c.woken
notify-total c = go c.sleeping
  where
    go : (k : ℕ) → (wake k c.woken).sleeping + (wake k c.woken).woken ≡ k + c.woken
    go zero = omega arith
    go (suc k) = omega arith

pub notify_nobody : (c : Condition) → c.sleeping ≡ 0 → (notify c).sleeping ≡ 0
notify_nobody c e = go c.sleeping e
  where
    go : (k : ℕ) → k ≡ 0 → (wake k c.woken).sleeping ≡ 0
    go zero e = refl
    go (suc k) e = absurd (omega arith)
