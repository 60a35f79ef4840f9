-- ===== src/Monitor.antt =====
-- base/Condition.h: the threads at a condition variable, each turn of which runs under the mutex. A thread
-- that was woken goes on later, when it has the mutex again.
pub mod Wakeups
use cobra.Base.{ℕ, zero, suc, ◌+◌}

-- How many threads sleep in pthread_cond_wait(3), and how many were woken and have not gone on.
pub record Condition : Type 0 where
  pub sleeping : ℕ
  pub woken : ℕ

abbrev pub new : Condition
new = record { sleeping = 0; woken = 0 }

-- Condition::wait, up to the sleep.
abbrev pub wait : Condition → Condition
wait c = record c { sleeping = suc c.sleeping }

-- One of the threads that sleep is woken, if any does; this is also what happens at a spurious wakeup.
abbrev pub wake : ℕ → ℕ → Condition
wake zero w = record { sleeping = 0; woken = w }
wake (suc n) w = record { sleeping = n; woken = suc w }

-- Condition::notify
abbrev pub notify : Condition → Condition
notify c = wake c.sleeping c.woken

-- Condition::notifyAll
abbrev pub notify_all : Condition → Condition
notify_all c = record { sleeping = 0; woken = c.woken + c.sleeping }

-- One of the threads that were woken goes on, of which `n` more are left.
abbrev pub resume : ℕ → Condition → Condition
resume n c = record c { woken = n }
