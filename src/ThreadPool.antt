-- ===== src/ThreadPool.antt =====
-- base/ThreadPool.cc: tasks, which are numbers, for a pool of threads. Each turn of a loop that runs under
-- the mutex is one step.
pub mod Steps
pub mod Turns
pub mod Order
pub mod Progress
mod Tests
use cobra.Base.{
  ℕ, zero, suc, Bool, true, false, not, ◌&&◌, List, [], ◌∷◌, ◌++◌, Option, none, some,
  if◌then◌else◌, check, ◌>>=◌, ◌>>◌, length, ltb, leb, ◌==◌,
}
use cobra.Monitor.{Condition, wait, notify, notify_all}
use cobra.Monitor

-- ThreadPool, with the number of its threads.
pub record ThreadPool : Type 0 where
  pub threads : ℕ
  pub queue : List ℕ
  pub max_queue_size : ℕ
  pub running : Bool
  pub not_empty : Condition
  pub not_full : Condition

-- ThreadPool::ThreadPool and setMaxQueueSize
abbrev pub new : ℕ → ThreadPool
new max_size = record {
  threads = 0;
  queue = [];
  max_queue_size = max_size;
  running = false;
  not_empty = Monitor.new;
  not_full = Monitor.new;
}

-- ThreadPool::start
abbrev pub start : ℕ → ThreadPool → Option ThreadPool
start num_threads p = do
  check (p.threads == 0)
  some (record p { threads = num_threads; running = true })

-- ThreadPool::stop, up to the join.
abbrev pub stop : ThreadPool → ThreadPool
stop p = record p { running = false; not_empty = notify_all p.not_empty }

-- ThreadPool::isFull
abbrev pub is_full : ThreadPool → Bool
is_full p = ltb 0 p.max_queue_size && leb p.max_queue_size (length p.queue)

-- A turn of the loop of ThreadPool::run: whether the task is in the queue.
pub run_turn : ℕ → ThreadPool → Bool × ThreadPool
run_turn task p =
    if is_full p
    then (false, record p { not_full = wait p.not_full })
    else (true, record p { queue = p.queue ++ task ∷ []; not_empty = notify p.not_empty })

-- What a turn of the loop of ThreadPool::take ends with.
pub data Taken : Type 0 where
  slept : Taken
  no_task : Taken
  took : ℕ → Taken

pub take_turn : ThreadPool → Taken × ThreadPool
take_turn p = elim (p.queue) [
  | [] ↦ (if p.running then (slept, record p { not_empty = wait p.not_empty }) else (no_task, p))
  | x ∷ xs ↦ (
    took x,
    record p {
      queue = xs;
      not_full = if ltb 0 p.max_queue_size then notify p.not_full else p.not_full;
    },
  )
]
