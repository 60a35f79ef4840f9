-- ===== src/TimerQueue.antt =====
-- cobra/timer_queue.h, cobra/timer_queue.cpp, cobra/timer.h and cobra/timer.cpp: the timers of an event
-- loop. A timer is an object in a heap, by address; std::set is a sorted list of pairs. Times are
-- microseconds and do not overflow. The timerfd is the time at which it goes off. The clock does not run
-- backwards. A failed assertion
-- and a use of a deleted timer are `none`.
pub mod Sets
pub mod Invariant
pub mod Removal
pub mod Requests
pub mod Served
pub mod Expired
pub mod Reset
pub mod Rounds
mod Tests
use cobra.Base.{
  ℕ, suc, ◌+◌, ◌-◌, ◌^◌, Bool, true, false, not, ◌&&◌, ◌||◌, List, [], ◌∷◌, Option, none, some,
  if◌then◌else◌, check, ◌>>=◌, ◌>>◌, length, ltb, ◌==◌,
}
use cobra.Poll.{update}

-- A time or an address, and an address or a sequence number: std::pair with its order.
abbrev pub Entry : Type 0
Entry = ℕ × ℕ

abbrev pub eqb : Entry → Entry → Bool
eqb (a, b) (c, d) = (a == c) && (b == d)

abbrev pub before : Entry → Entry → Bool
before (a, b) (c, d) = ltb a c || ((a == c) && ltb b d)

-- std::set::find, insert of an element that is not in, and erase of one that is.
abbrev pub has : Entry → List Entry → Bool
has x [] = false
has x (y ∷ ys) = eqb x y || has x ys

abbrev pub put : Entry → List Entry → List Entry
put x [] = x ∷ []
put x (y ∷ ys) = if before x y then x ∷ y ∷ ys else y ∷ put x ys

abbrev pub erase : Entry → List Entry → List Entry
erase x [] = []
erase x (y ∷ ys) = if eqb x y then ys else y ∷ erase x ys

-- Timer. `delta` is its interval in microseconds, `repeat` whether the interval is positive.
pub record Timer : Type 0 where
  pub expiration : ℕ
  pub delta : ℕ
  pub repeat : Bool
  pub sequence : ℕ

-- Timer::restart
unfoldable pub restart : ℕ → Timer → Timer
restart now t =
    if t.repeat then record t { expiration = now + t.delta } else record t { expiration = 0 }

pub record TimerQueue : Type 0 where
  pub heap : ℕ → Option Timer
  pub timers : List Entry
  pub active : List Entry
  pub calling : Bool
  pub canceling : List Entry
  pub armed : Option ℕ
  -- Timestamp::now()
  pub clock : ℕ
  -- Timer::s_numCreated_
  pub created : ℕ

-- UINTPTR_MAX
abbrev pub max_address : ℕ
max_address = 2 ^ 64 - 1

abbrev pub same_size : TimerQueue → Bool
same_size q = length q.timers == length q.active

-- TimerQueue::TimerQueue
unfoldable pub new : TimerQueue
new = record {
  heap = λ p. none;
  timers = [];
  active = [];
  calling = false;
  canceling = [];
  armed = none;
  clock = 0;
  created = 0;
}

abbrev pub is_earliest : ℕ → List Entry → Bool
is_earliest when [] = true
is_earliest when ((t, p) ∷ ts) = ltb when t

-- howMuchTimeFromNow; the difference is negative for a time that has passed.
abbrev pub how_much_time_from_now : ℕ → ℕ → ℕ
how_much_time_from_now now when = if ltb (when - now) 100 then 100 else when - now

-- resetTimerfd
abbrev pub reset_timerfd : ℕ → TimerQueue → TimerQueue
reset_timerfd when q = record q { armed = some (q.clock + how_much_time_from_now q.clock when) }

-- TimerQueue::insert, of the live timer `t` at `p`.
unfoldable pub insert : ℕ → TimerQueue → Option (Bool × TimerQueue)
insert p q = do
  t ← q.heap p
  check (same_size q)
  check (not (has (t.expiration, p) q.timers))
  check (not (has (p, t.sequence) q.active))
  let q' : TimerQueue = record q {
    timers = put (t.expiration, p) q.timers;
    active = put (p, t.sequence) q.active;
  }
  check (same_size q')
  some (is_earliest t.expiration q.timers, q')

-- TimerQueue::addTimerInLoop
unfoldable pub add_timer_in_loop : ℕ → TimerQueue → Option TimerQueue
add_timer_in_loop p q = do
  t ← q.heap p
  (changed, q') ← insert p q
  some (if changed then reset_timerfd t.expiration q' else q')

-- TimerQueue::addTimer in the loop's thread. `alloc` is the address of the new object.
unfoldable pub add_timer : ((ℕ → Option Timer) → ℕ) → ℕ → ℕ → Bool → TimerQueue → Option TimerQueue
add_timer alloc when delta repeat q = add_timer_in_loop (alloc q.heap) (record q {
  heap = update q.heap (alloc q.heap) (
      some
        (record { expiration = when; delta = delta; repeat = repeat; sequence = suc q.created }));
  created = suc q.created;
})

-- TimerQueue::cancelInLoop
unfoldable pub remove_active : Entry → TimerQueue → Option TimerQueue
remove_active (p, s) q = do
  t ← q.heap p
  check (has (t.expiration, p) q.timers)
  let q' : TimerQueue = record q {
    heap = update q.heap p none;
    timers = erase (t.expiration, p) q.timers;
    active = erase (p, s) q.active;
  }
  check (same_size q')
  some q'

unfoldable pub note_cancel : Entry → TimerQueue → TimerQueue
note_cancel id q =
    if q.calling
    then record q { canceling = if has id q.canceling then q.canceling else put id q.canceling }
    else q

unfoldable pub cancel_in_loop : Entry → TimerQueue → Option TimerQueue
cancel_in_loop id q = do
  check (same_size q)
  if has id q.active then remove_active id q else some (note_cancel id q)

-- The elements before `lower_bound(sentry)` of a sorted set, and the others.
abbrev pub below : Entry → List Entry → List Entry
below sentry [] = []
below sentry (x ∷ xs) = if before x sentry then x ∷ below sentry xs else []

abbrev pub from : Entry → List Entry → List Entry
from sentry [] = []
from sentry (x ∷ xs) = if before x sentry then from sentry xs else x ∷ xs

abbrev pub is_later : ℕ → List Entry → Bool
is_later now [] = true
is_later now ((t, p) ∷ ts) = ltb now t

-- The loop of getExpired over activeTimers_.
unfoldable pub erase_active : (ℕ → Option Timer) → List Entry → List Entry → Option (List Entry)
erase_active heap [] active = some active
erase_active heap ((t, p) ∷ expired) active = do
  timer ← heap p
  check (has (p, timer.sequence) active)
  erase_active heap expired (erase (p, timer.sequence) active)

-- TimerQueue::getExpired
unfoldable pub get_expired : ℕ → TimerQueue → Option (List Entry × TimerQueue)
get_expired now q = do
  check (same_size q)
  check (is_later now (from (now, max_address) q.timers))
  active ← erase_active q.heap (below (now, max_address) q.timers) q.active
  let q' : TimerQueue = record q { timers = from (now, max_address) q.timers; active = active }
  check (same_size q')
  some (below (now, max_address) q.timers, q')

-- The body of the loop of reset.
unfoldable pub reset_one : ℕ → Entry → TimerQueue → Option TimerQueue
reset_one now (t, p) q = do
  timer ← q.heap p
  let again : Option TimerQueue = (do
    (changed, q') ← insert p (record q { heap = update q.heap p (some (restart now timer)) })
    some q')
  if timer.repeat && not (has (p, timer.sequence) q.canceling)
      then again
      else some (record q { heap = update q.heap p none })

unfoldable pub reset_all : ℕ → List Entry → TimerQueue → Option TimerQueue
reset_all now [] q = some q
reset_all now (x ∷ xs) q = reset_one now x q >>= reset_all now xs

-- The end of reset: Timestamp::valid is a positive time.
unfoldable pub rearm : TimerQueue → Option TimerQueue
rearm q = elim (q.timers) [
  | [] ↦ some q
  | (t, p) ∷ ts ↦ (do
    timer ← q.heap p
    some (if ltb 0 timer.expiration then reset_timerfd timer.expiration q else q))
]

-- TimerQueue::reset
unfoldable pub reset : ℕ → List Entry → TimerQueue → Option TimerQueue
reset now expired q = reset_all now expired q >>= rearm

-- What a timer's callback may ask of the queue, in the loop's thread, and the time that it takes.
pub data Request : Type 0 where
  adds : ℕ → ℕ → Bool → Request
  cancels : Entry → Request
  takes : ℕ → Request

unfoldable pub serve : ((ℕ → Option Timer) → ℕ) → Request → TimerQueue → Option TimerQueue
serve alloc (adds when delta repeat) q = add_timer alloc when delta repeat q
serve alloc (cancels id) q = cancel_in_loop id q
serve alloc (takes time) q = some (record q { clock = q.clock + time })

unfoldable pub serve_all : ((ℕ → Option Timer) → ℕ) → List Request → TimerQueue → Option TimerQueue
serve_all alloc [] q = some q
serve_all alloc (r ∷ rs) q = serve alloc r q >>= serve_all alloc rs

-- The loop of handleRead over the expired timers' callbacks, which are a parameter.
unfoldable pub run_all :
    ((ℕ → Option Timer) → ℕ) → (Timer → List Request) → List Entry → TimerQueue → Option TimerQueue
run_all alloc callback [] q = some q
run_all alloc callback ((t, p) ∷ expired) q = do
  timer ← q.heap p
  q' ← serve_all alloc (callback timer) q
  run_all alloc callback expired q'

-- TimerQueue::handleRead at the time `now`; the timerfd has gone off.
unfoldable pub handle_read :
    ((ℕ → Option Timer) → ℕ) → (Timer → List Request) → ℕ → TimerQueue → Option TimerQueue
handle_read alloc callback now q = do
  (expired, q1) ← get_expired now (record q { armed = none; clock = now })
  q2 ← run_all alloc callback expired (record q1 { calling = true; canceling = [] })
  reset now expired (record q2 { calling = false })
