-- ===== src/Poll/Tests.antt =====
-- The PollPoller theorems at a poller with two channels.
use cobra.Base.{
  ℕ, ◌≡◌, refl, ap, sym, [], ◌∷◌, Option, none, some, pos, negsuc, arith, zero, suc, ◌==◌,
  if◌then◌else◌, get_elem?, map,
}
use cobra.Channel.{Channel, new, none_event, set_index, with_writing, with_nothing}
use cobra.Poll.{PollFd, PollPoller, update, remove_channel, change_events}
use cobra.Poll.Invariant.{IsValid, slot_of}
use cobra.Poll.Remove.{IsMoved}
use cobra.Poll.Lifecycle.{remove_channel-disable_all, change_events_stays_ignored, Steady}

-- Channel 0 has descriptor 5 and writes; channel 1 has descriptor 9 and an ignored pollfd; channel 2,
-- with descriptor 11, is new.
abbrev writer : Channel
writer = with_writing (set_index (pos 0) (new 5))

abbrev idle : Channel
idle = set_index (pos 1) (new 9)

abbrev cells : ℕ → Channel
cells zero = writer
cells (suc zero) = idle
cells _ = new 11

abbrev registered : ℕ → Option ℕ
registered fd = if fd == 5 then some 0 else if fd == 9 then some 1 else none

abbrev two : PollPoller
two = record {
  heap = cells;
  pollfds =
      record { fd = pos 5; events = writer.events; revents = none_event }
      ∷ record { fd = negsuc 9; events = none_event; revents = none_event }
      ∷ [];
  channels = registered;
}

two_slots :
    (i fd : ℕ)
    → get_elem? (map slot_of two.pollfds) i ≡ some fd
    → (c : ℕ) × (registered fd ≡ some c) × ((cells c).index ≡ pos i)
two_slots zero fd g = let e : 5 ≡ fd = cc in (0, ap registered (sym e), refl)
two_slots (suc zero) fd g = let e : 9 ≡ fd = cc in (1, ap registered (sym e), refl)
two_slots (suc (suc i)) fd g = cc

two_mapped :
    (fd c : ℕ)
    → registered fd ≡ some c
    → (i : ℕ) × ((cells c).fd ≡ fd)
      × ((cells c).index ≡ pos i)
      × (get_elem? (map slot_of two.pollfds) i ≡ some fd)
two_mapped fd zero e = let q : 5 ≡ fd = ground arith in (0, q, refl, ap some q)
two_mapped fd (suc zero) e = let q : 9 ≡ fd = ground arith in (1, q, refl, ap some q)
two_mapped fd (suc (suc c)) e = ground arith

two-IsValid : IsValid two
two-IsValid = record { slots = two_slots; mapped = two_mapped }

writing-Steady : Steady with_writing
writing-Steady x = (refl, refl)

remove_channel-disable_all_example :
    (s1 : PollPoller) × (s2 : PollPoller) × (change_events with_nothing 0 two ≡ some s1)
    × (remove_channel 0 s1 ≡ some s2)
    × IsValid s2
    × (s2.channels ≡ update registered 5 none)
    × (idx : ℕ) × ((two.heap 0).index ≡ pos idx)
    × IsMoved two idx s2
remove_channel-disable_all_example = remove_channel-disable_all two 0 two-IsValid refl

change_events_stays_ignored_example :
    (s' : PollPoller) × (pfd' : PollFd) × (change_events with_writing 1 two ≡ some s')
    × (get_elem? s'.pollfds 1 ≡ some pfd')
    × (pfd'.events ≡ (with_writing idle).events)
    × (pfd'.fd ≡ negsuc 9)
change_events_stays_ignored_example =
    change_events_stays_ignored with_writing two 1 1 9 _ writing-Steady two-IsValid refl refl refl
      refl refl
