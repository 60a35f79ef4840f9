-- ===== src/Poll/Register.antt =====
-- PollPoller::UpdateChannel and removeChannel keep the invariant, and do what they are called for.
use cobra.Base.{
  ℕ, ◌-◌, ◌≡◌, refl, ap, sym, subst, ◌∙◌, [], ◌∷◌, ◌++◌, map, none, some, length, length-append,
  get_elem?, set, arith, inl, inr, pos, negsuc, ==_self, Bool-cases,
}
use cobra.Channel.{Channel, set_index, none_event, is_none_event}
use cobra.Poll.{
  PollFd, PollPoller, update, slot_fd, add_slot, update_slot, refreshed, update_channel,
}
use cobra.Poll.Slots.{map-get_elem?, map-set, length-map, set_same, map-snoc, get_elem?-map}
use cobra.Poll.Invariant.{Linked, IsValid, slot_of, add-Linked, update_self}

-- UpdateChannel of a channel that the poller does not have, whose descriptor is free: it is
-- registered, with a pollfd of its descriptor and events at the end, and all else stays.
update_channel-new :
    (s : PollPoller) (c n : ℕ)
    → IsValid s
    → (s.heap c).index ≡ negsuc n
    → s.channels (s.heap c).fd ≡ none
    → (s' : PollPoller) × (update_channel c s ≡ some s')
      × IsValid s'
      × (s'.channels (s.heap c).fd ≡ some c)
      × (s'.pollfds
          ≡ s.pollfds
            ++ record { fd = pos (s.heap c).fd; events = (s.heap c).events; revents = none_event }
              ∷ [])
unfolding update_channel add_slot
update_channel-new s c n v new free = (
  s',
  rw (new, update_channel, free, size),
  valid,
  update_self s.channels (s.heap c).fd (some c),
  refl,
)
  where
    pfd : PollFd
    pfd = record { fd = pos (s.heap c).fd; events = (s.heap c).events; revents = none_event }

    s' : PollPoller
    s' = record {
      heap = update s.heap c (set_index (pos (length s.pollfds)) (s.heap c));
      pollfds = s.pollfds ++ pfd ∷ [];
      channels = update s.channels (s.heap c).fd (some c);
    }

    size : length (s.pollfds ++ pfd ∷ []) - 1 ≡ length s.pollfds
    size = omega (arith, length-append s.pollfds (pfd ∷ []))

    valid : IsValid s'
    valid =
        subst
          (λ k.
            Linked (update s.heap c (set_index (pos k) (s.heap c))) s'.channels
              (map slot_of s'.pollfds))
          (length-map slot_of s.pollfds)
          (subst (Linked _ s'.channels) (sym (map-snoc slot_of s.pollfds pfd))
            (add-Linked v c n new free))

-- The pollfd of a registered channel: where it stands, and what it is about.
pub record Slot (s : PollPoller) (c idx : ℕ) (pfd : PollFd) : Type 0 where
  pub index : (s.heap c).index ≡ pos idx
  pub there : get_elem? s.pollfds idx ≡ some pfd
  pub about : slot_fd pfd.fd ≡ (s.heap c).fd

pub registered-Slot :
    (s : PollPoller) (c : ℕ)
    → IsValid s
    → s.channels (s.heap c).fd ≡ some c
    → (idx : ℕ) × (pfd : PollFd) × Slot s c idx pfd
registered-Slot s c v e =
    let (idx, _, x, g) = v.mapped (s.heap c).fd c e in
    let (pfd, g', q) = get_elem?-map slot_of s.pollfds idx (s.heap c).fd g in
    (idx, pfd, record { index = x; there = g'; about = q })

slot_of-refreshed :
    (channel : Channel) (pfd : PollFd)
    → slot_fd pfd.fd ≡ channel.fd
    → slot_of (refreshed channel pfd) ≡ slot_of pfd
slot_of-refreshed channel pfd q = elim (Bool-cases (is_none_event channel)) [
  | inl idle ↦ rw idle (sym q)
  | inr more ↦ rw more
]

-- UpdateChannel of a registered channel succeeds and changes its pollfd alone, to the channel's
-- events; the pollfd is made an ignored one if these are none.
pub update_channel-known :
    (s : PollPoller) (c idx : ℕ) (pfd : PollFd)
    → IsValid s
    → s.channels (s.heap c).fd ≡ some c
    → Slot s c idx pfd
    → let s' : PollPoller = record s { pollfds = set s.pollfds idx (refreshed (s.heap c) pfd) } in
      (update_channel c s ≡ some s') × IsValid s'
unfolding update_channel update_slot
update_channel-known s c idx pfd v e slot = (
  rw (slot.index, update_channel, e, ==_self c, slot.there, slot.about, ==_self (s.heap c).fd),
  subst (Linked s.heap s.channels) (sym same) v,
)
  where
    same : map slot_of (set s.pollfds idx (refreshed (s.heap c) pfd)) ≡ map slot_of s.pollfds
    same =
        map-set slot_of s.pollfds idx (refreshed (s.heap c) pfd)
        ∙ ap (set (map slot_of s.pollfds) idx) (slot_of-refreshed (s.heap c) pfd slot.about)
        ∙ set_same (map slot_of s.pollfds) idx (slot_of pfd)
            (map-get_elem? slot_of s.pollfds idx pfd slot.there)
