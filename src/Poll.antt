-- ===== src/Poll.antt =====
-- cobra/poller.h and cobra/poller/poll_poller.cpp: the poller over poll(2).
-- Channels stand on a heap: a Channel* is a number, and the heap gives the channel there. `channels_`
-- is a function from descriptors. An assertion that fails, or a null pointer that is followed, is
-- `none`. A pollfd's fd is an integer: -fd - 1 is `negsuc fd`, which poll(2) ignores.
pub mod Slots
pub mod Invariant
pub mod Register
pub mod Remove
pub mod Lifecycle
mod Tests
use cobra.Base.{
  ℕ, zero, suc, ◌+◌, ◌-◌, ◌≡◌, Bool, true, false, not, ◌&&◌, ◌||◌, List, [], ◌∷◌, ◌++◌, ℤ, pos,
  negsuc, if◌then◌else◌, ltb, ◌==◌, Option, none, some, check, ◌>>=◌, ◌>>◌, length, get_elem?, set,
}
use cobra.Channel.{Channel, Mask, none_event, is_none, is_none_event, set_revents, set_index}

pub record PollFd : Type 0 where
  pub fd : ℤ
  pub events : Mask
  pub revents : Mask

pub record PollPoller : Type 0 where
  pub heap : ℕ → Channel
  pub pollfds : List PollFd
  pub channels : ℕ → Option ℕ

-- A function changed at one argument.
abbrev pub update {ℓ} : {A : Type ℓ} → (ℕ → A) → ℕ → A → ℕ → A
update f k v j = if k == j then v else f j

-- The descriptor that a pollfd is about: fd, or -fd - 1 of an ignored one.
abbrev pub slot_fd : ℤ → ℕ
slot_fd (pos n) = n
slot_fd (negsuc n) = n

abbrev pub is_some {ℓ} : {A : Type ℓ} → Option A → Bool
is_some none = false
is_some (some a) = true

abbrev pub points_to : Option ℕ → ℕ → Bool
points_to none c = false
points_to (some d) c = d == c

-- vector::pop_back
abbrev pub pop_back {ℓ} : {A : Type ℓ} → List A → List A
pop_back [] = []
pop_back (x ∷ []) = []
pop_back (x ∷ y ∷ xs) = x ∷ pop_back (y ∷ xs)

-- A new channel gets a pollfd at the end.
unfoldable pub add_slot : ℕ → PollPoller → Option PollPoller
add_slot c s = do
  let channel = s.heap c
  check (not (is_some (s.channels channel.fd)))
  let pfd : PollFd = record { fd = pos channel.fd; events = channel.events; revents = none_event }
  let pollfds = s.pollfds ++ pfd ∷ []
  some (record {
    heap = update s.heap c (set_index (pos (length pollfds - 1)) channel);
    pollfds = pollfds;
    channels = update s.channels channel.fd (some c);
  })

-- The pollfd of a channel that is already there: its fd is changed only to be ignored.
abbrev pub refreshed : Channel → PollFd → PollFd
refreshed channel pfd = record {
  fd = if is_none_event channel then negsuc channel.fd else pfd.fd;
  events = channel.events;
  revents = none_event;
}

unfoldable pub update_slot : ℕ → ℕ → PollPoller → Option PollPoller
update_slot c idx s = do
  let channel = s.heap c
  check (points_to (s.channels channel.fd) c)
  pfd ← get_elem? s.pollfds idx
  check (slot_fd pfd.fd == channel.fd)
  some (record s { pollfds = set s.pollfds idx (refreshed channel pfd) })

-- PollPoller::UpdateChannel
unfoldable pub update_channel : ℕ → PollPoller → Option PollPoller
update_channel c s = elim ((s.heap c).index) [
  | negsuc _ ↦ add_slot c s
  | pos idx ↦ update_slot c idx s
]

-- Channel::disableAll and the like: a change of events_, and the poller told.
unfoldable pub change_events : (Channel → Channel) → ℕ → PollPoller → Option PollPoller
change_events change c s =
    update_channel c (record s { heap = update s.heap c (change (s.heap c)) })

-- iter_swap of a position with the last, and pop_back.
abbrev pub swap_out {ℓ} : {A : Type ℓ} → List A → ℕ → A → List A
swap_out xs idx last = pop_back (set xs idx last)

-- The part of removeChannel behind its assertions, with the channel's own pollfd at `idx`.
unfoldable pub take_slot : ℕ → PollPoller → Option PollPoller
take_slot idx s =
    if idx == (length s.pollfds - 1) then some (record s { pollfds = pop_back s.pollfds }) else (do
      last ← get_elem? s.pollfds (length s.pollfds - 1)
      at_end ← s.channels (slot_fd last.fd)
      some (record s {
        heap = update s.heap at_end (set_index (pos idx) (s.heap at_end));
        pollfds = swap_out s.pollfds idx last;
      }))

-- The assertion that the pollfd is ignored and agrees with the channel; masks that are both none agree.
abbrev pub is_ignored : Channel → PollFd → Bool
is_ignored channel pfd = elim (pfd.fd) [
  | negsuc n ↦ (n == channel.fd) && is_none pfd.events
  | pos _ ↦ false
]

-- PollPoller::removeChannel
unfoldable pub remove_channel : ℕ → PollPoller → Option PollPoller
remove_channel c s = do
  let channel = s.heap c
  check (points_to (s.channels channel.fd) c)
  check (is_none_event channel)
  elim (channel.index) [
    | negsuc _ ↦ none
    | pos idx ↦ (do
      pfd ← get_elem? s.pollfds idx
      check (is_ignored channel pfd)
      take_slot idx (record s { channels = update s.channels channel.fd none }))
  ]

-- channels_.find(pfd->fd): an ignored pollfd is in no map.
abbrev pub find_channel : (ℕ → Option ℕ) → ℤ → Option ℕ
find_channel channels (pos n) = channels n
find_channel channels (negsuc n) = none

-- PollPoller::fillActiveChannels over the pollfds from some place on: the heap with the revents stored,
-- and the active channels in order. A pollfd whose channel is not in the map is followed to null.
unfoldable pub fill_from :
    List PollFd → ℕ → (ℕ → Option ℕ) → (ℕ → Channel) → Option ((ℕ → Channel) × List ℕ)
fill_from [] n channels heap = some (heap, [])
fill_from (pfd ∷ pfds) zero channels heap = some (heap, [])
fill_from (pfd ∷ pfds) (suc n) channels heap = elim (is_none pfd.revents) [
  | true ↦ fill_from pfds (suc n) channels heap
  | false ↦ (do
    c ← find_channel channels pfd.fd
    (heap', active) ← fill_from pfds n channels (update heap c (set_revents pfd.revents (heap c)))
    some (heap', c ∷ active))
]

unfoldable pub fill_active_channels : ℕ → PollPoller → Option (PollPoller × List ℕ)
fill_active_channels n s = do
  (heap, active) ← fill_from s.pollfds n s.channels s.heap
  some (record s { heap = heap }, active)
