-- ===== src/Pool.antt =====
-- cobra/worker_thread_pool.h and cobra/worker_thread_pool.cpp: the workers among which a server deals
-- its connections. A worker is a number; the one that the i-th thread starts is a parameter.
pub mod Rounds
use cobra.Base.{
  ℕ, zero, suc, ◌≡◌, Bool, true, false, not, List, [], ◌∷◌, ◌++◌, Option, some, length, get_elem?,
  leb, if◌then◌else◌, check, ◌>>=◌, ◌>>◌,
}

pub record Pool : Type 0 where
  pub base_loop : ℕ
  pub started : Bool
  pub num_threads : ℕ
  pub next : ℕ
  pub loops : List ℕ

-- WorkerThreadPool::WorkerThreadPool
unfoldable pub new : ℕ → Pool
new base = record { base_loop = base; started = false; num_threads = 0; next = 0; loops = [] }

-- The loop of start, for the threads from `i` on.
abbrev pub start_loops : (ℕ → ℕ) → ℕ → ℕ → List ℕ
start_loops start_loop i zero = []
start_loops start_loop i (suc n) = start_loop i ∷ start_loops start_loop (suc i) n

-- WorkerThreadPool::start
unfoldable pub start : (ℕ → ℕ) → Pool → Option Pool
start start_loop p = do
  check (not p.started)
  some (record p { started = true; loops = p.loops ++ start_loops start_loop 0 p.num_threads })

-- WorkerThreadPool::getNextLoop
pub next_index : ℕ → ℕ → ℕ
next_index size next = if leb size (suc next) then 0 else suc next

pub get_next_loop : Pool → Option (ℕ × Pool)
get_next_loop p = elim (p.loops) [
  | [] ↦ some (p.base_loop, p)
  | x ∷ xs ↦ (do
    loop ← get_elem? p.loops p.next
    some (loop, record p { next = next_index (length p.loops) p.next }))
]
