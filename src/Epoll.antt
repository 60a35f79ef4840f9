-- ===== src/Epoll.antt =====
-- cobra/poller/epoll_poller.h and cobra/poller/epoll_poller.cpp: the poller over epoll(7). The kernel's
-- side is a parameter: a state and epoll_ctl(2) on it, which says whether it succeeds. The channels
-- are in a heap, by address. A failed assertion and LOG_SYSFATAL are `none`.
pub mod Interest
pub mod Changes
pub mod Ends
mod Tests
use cobra.Base.{
  ℕ, zero, suc, ◌≡◌, Bool, true, false, not, ◌&&◌, ◌||◌, List, [], ◌∷◌, ℤ, pos, negsuc,
  if◌then◌else◌, ltb, leb, ◌==◌, Option, none, some, check, ◌>>=◌, ◌>>◌, length, ◌*◌,
}
use cobra.Channel.{Channel, Mask, is_none_event, set_index, set_revents}
use cobra.Poll.{update, points_to, is_some}

-- The operations of epoll_ctl(2).
pub data Op : Type 0 where
  ctl_add ctl_mod ctl_del : Op

-- struct epoll_event, with the channel that its data points to.
pub record Entry : Type 0 where
  pub events : Mask
  pub channel : ℕ

-- What a channel's index means to this poller: kNew, kAdded, kDeleted.
pub data Index : Type 0 where
  is_new is_added is_deleted is_other : Index

abbrev pub index_of : ℤ → Index
index_of (negsuc zero) = is_new
index_of (pos (suc zero)) = is_added
index_of (pos (suc (suc zero))) = is_deleted
index_of _ = is_other

abbrev pub k_new : ℤ
k_new = negsuc 0

abbrev pub k_added : ℤ
k_added = pos 1

abbrev pub k_deleted : ℤ
k_deleted = pos 2

pub record EPollPoller (K : Type 0) : Type 0 where
  pub heap : ℕ → Channel
  pub channels : ℕ → Option ℕ
  pub kernel : K
  -- the size of events_
  pub capacity : ℕ

module _ {K : Type 0} (epoll_ctl : Op → ℕ → Entry → K → Bool × K) where
  -- EPollPoller::update; only the failure of a removal is survived.
  abbrev pub survives : Op → Bool → Bool
  survives ctl_del ok = true
  survives _ ok = ok

  unfoldable pub update_kernel : Op → ℕ → EPollPoller K → Option (EPollPoller K)
  update_kernel op c s = do
    let ch = s.heap c
    let result = epoll_ctl op ch.fd (record { events = ch.events; channel = c }) s.kernel
    check (survives op result.0)
    some (record s { kernel = result.1 })

  abbrev pub mark : ℤ → ℕ → EPollPoller K → EPollPoller K
  mark i c s = record s { heap = update s.heap c (set_index i (s.heap c)) }

  -- EPollPoller::UpdateChannel, by the index that the channel has.
  unfoldable pub update_indexed : Index → ℕ → EPollPoller K → Option (EPollPoller K)
  update_indexed is_new c s = do
    check (not (is_some (s.channels (s.heap c).fd)))
    update_kernel ctl_add c
        (mark k_added c (record s { channels = update s.channels (s.heap c).fd (some c) }))
  update_indexed is_deleted c s = do
    check (points_to (s.channels (s.heap c).fd) c)
    update_kernel ctl_add c (mark k_added c s)
  update_indexed is_added c s = do
    check (points_to (s.channels (s.heap c).fd) c)
    if is_none_event (s.heap c)
        then (do s' ← update_kernel ctl_del c s; some (mark k_deleted c s'))
        else update_kernel ctl_mod c s
  update_indexed is_other c s = none

  unfoldable pub update_channel : ℕ → EPollPoller K → Option (EPollPoller K)
  update_channel c s = update_indexed (index_of (s.heap c).index) c s

  -- enableReading and its kin: a change of the channel's events, then Channel::update.
  unfoldable pub change_events : (Channel → Channel) → ℕ → EPollPoller K → Option (EPollPoller K)
  change_events f c s = update_channel c (record s { heap = update s.heap c (f (s.heap c)) })

  -- EPollPoller::removeChannel, behind the erasure from channels_.
  unfoldable pub remove_indexed : Index → ℕ → EPollPoller K → Option (EPollPoller K)
  remove_indexed is_added c s = do s' ← update_kernel ctl_del c s; some (mark k_new c s')
  remove_indexed is_deleted c s = some (mark k_new c s)
  remove_indexed _ c s = none

  unfoldable pub remove_channel : ℕ → EPollPoller K → Option (EPollPoller K)
  remove_channel c s = do
    check (points_to (s.channels (s.heap c).fd) c)
    check (is_none_event (s.heap c))
    remove_indexed (index_of (s.heap c).index) c
        (record s { channels = update s.channels (s.heap c).fd none })

  -- EPollPoller::fillActiveChannels: the entries that epoll_wait(2) stored, with their new revents.
  unfoldable pub fill_active_channels : List Entry → EPollPoller K → Option (EPollPoller K × List ℕ)
  fill_active_channels [] s = some (s, [])
  fill_active_channels (e ∷ es) s = do
    check (points_to (s.channels (s.heap e.channel).fd) e.channel)
    (s', active) ←
        fill_active_channels es
          (record s { heap = update s.heap e.channel (set_revents e.events (s.heap e.channel)) })
    some (s', e.channel ∷ active)

  -- What poll does with the entries: events_ doubles when they fill it.
  unfoldable pub after_wait : List Entry → EPollPoller K → Option (EPollPoller K × List ℕ)
  after_wait es s = do
    check (leb (length es) s.capacity)
    (s', active) ← fill_active_channels es s
    some (
        if not (length es == 0) && (length es == s.capacity)
        then (record s' { capacity = s.capacity * 2 }, active)
        else (s', active))
