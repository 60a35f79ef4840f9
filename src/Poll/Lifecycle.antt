-- ===== src/Poll/Lifecycle.antt =====
-- A channel's calls in order, as cobra/channel.cpp and cobra/tcp_connection.cpp make them: its events
-- change and the poller is told, and it is removed at the end.
use cobra.Base.{
  ℕ, ◌≡◌, refl, ap, ap₂, sym, ◌∙◌, none, some, get_elem?, set, pos, negsuc, ◌==◌, true, false,
  get_elem?-set_self, ◌&&◌, ==_self, ℕ_discrete,
}
use cobra.Channel.{Channel, is_none_event, with_nothing}
use cobra.Poll.{PollFd, PollPoller, update, refreshed, remove_channel, change_events}
use cobra.Poll.Slots.{get_elem?-lt}
use cobra.Poll.Invariant.{IsValid, update_self, update_ne, pos_eq}
use cobra.Poll.Register.{Slot, registered-Slot, update_channel-known}
use cobra.Poll.Remove.{IsMoved, set-IsMoved, remove_channel_lem}

-- A change of events_ touches neither descriptor nor index.
abbrev pub Steady : (Channel → Channel) → Type 0
Steady change = (x : Channel) → ((change x).fd ≡ x.fd) × ((change x).index ≡ x.index)

-- The state between the change of a channel's events_ and the call of update().
abbrev pub changed : (Channel → Channel) → ℕ → PollPoller → PollPoller
changed change c s = record s { heap = update s.heap c (change (s.heap c)) }

module _ (change : Channel → Channel) (steady : Steady change) (s : PollPoller) (c : ℕ) where
  changed_self : (changed change c s).heap c ≡ change (s.heap c)
  changed_self = update_self s.heap c (change (s.heap c))

  changed_fd : (d : ℕ) → ((changed change c s).heap d).fd ≡ (s.heap d).fd
  changed_fd d = elim (ℕ_discrete c d) [
    | yes e ↦
        ap (λ k. ((changed change c s).heap k).fd) (sym e)
        ∙ ap (λ (x : Channel). x.fd) changed_self
        ∙ (steady (s.heap c)).0
        ∙ ap (λ k. (s.heap k).fd) e
    | no ne ↦ ap (λ (x : Channel). x.fd) (update_ne s.heap c d (change (s.heap c)) ne)
  ]

  changed_index : (d : ℕ) → ((changed change c s).heap d).index ≡ (s.heap d).index
  changed_index d = elim (ℕ_discrete c d) [
    | yes e ↦
        ap (λ k. ((changed change c s).heap k).index) (sym e)
        ∙ ap (λ (x : Channel). x.index) changed_self
        ∙ (steady (s.heap c)).1
        ∙ ap (λ k. (s.heap k).index) e
    | no ne ↦ ap (λ (x : Channel). x.index) (update_ne s.heap c d (change (s.heap c)) ne)
  ]

  changed-IsValid : IsValid s → IsValid (changed change c s)
  changed-IsValid v = record {
    slots = λ i fd g. let (d, e, x) = v.slots i fd g in (d, e, changed_index d ∙ x);
    mapped = λ fd d e.
        let (i, a, x, g) = v.mapped fd d e in (i, changed_fd d ∙ a, changed_index d ∙ x, g);
  }

  -- A change of a registered channel's events succeeds and keeps the invariant. Its pollfd then asks
  -- for exactly the new events, and is an ignored one if there are none; it is otherwise ignored
  -- exactly if it was before.
  pub change_events_lem :
      IsValid s
      → s.channels (s.heap c).fd ≡ some c
      → (s' : PollPoller) × (idx : ℕ) × (pfd : PollFd) × (change_events change c s ≡ some s')
        × IsValid s'
        × Slot s c idx pfd
        × (s'.channels ≡ s.channels)
        × (s'.heap c ≡ change (s.heap c))
        × (get_elem? s'.pollfds idx ≡ some (refreshed (change (s.heap c)) pfd))
        × (s'.pollfds ≡ set s.pollfds idx (refreshed ((changed change c s).heap c) pfd))
  unfolding change_events
  change_events_lem v e =
      let (idx, pfd, slot) = registered-Slot s c v e in
      let mid : Slot (changed change c s) c idx pfd = record {
        index = changed_index c ∙ slot.index;
        there = slot.there;
        about = slot.about ∙ sym (changed_fd c);
      } in
      let (run, v') =
        update_channel-known (changed change c s) c idx pfd (changed-IsValid v)
          (ap s.channels (changed_fd c) ∙ e) mid in
      (
        record (changed change c s) {
          pollfds = set s.pollfds idx (refreshed ((changed change c s).heap c) pfd);
        },
        idx,
        pfd,
        run,
        v',
        slot,
        refl,
        changed_self,
        get_elem?-set_self s.pollfds idx (refreshed ((changed change c s).heap c) pfd)
              (get_elem?-lt s.pollfds idx pfd slot.there)
            ∙ ap (λ x. some (refreshed x pfd)) changed_self,
        refl,
      )

some_eq : {a b : PollFd} → some a ≡ some b → a ≡ b
some_eq e = cc

pub nothing-Steady : Steady with_nothing
nothing-Steady x = (refl, refl)

-- disableAll and then remove, in this order, succeed for every registered channel, assertions included:
-- its descriptor leaves the map, all others keep their channels, and the poller is valid; the last
-- pollfd stands, as it was, in the place of the channel's, and all others stay in theirs.
pub remove_channel-disable_all :
    (s : PollPoller) (c : ℕ)
    → IsValid s
    → s.channels (s.heap c).fd ≡ some c
    → (s1 : PollPoller) × (s2 : PollPoller) × (change_events with_nothing c s ≡ some s1)
      × (remove_channel c s1 ≡ some s2)
      × IsValid s2
      × (s2.channels ≡ update s.channels (s.heap c).fd none)
      × (idx : ℕ) × ((s.heap c).index ≡ pos idx)
      × IsMoved s idx s2
remove_channel-disable_all s c v e =
    let (s1, idx, pfd, run, v1, slot, same, own, there, fds) =
      change_events_lem with_nothing nothing-Steady s c v e in
    let fd_own : (s1.heap c).fd ≡ (s.heap c).fd = ap (λ (x : Channel). x.fd) own in
    let slot1 : Slot s1 c idx (refreshed (with_nothing (s.heap c)) pfd) = record {
      index = ap (λ (x : Channel). x.index) own ∙ slot.index;
      there = there;
      about = sym fd_own;
    } in
    let (s2, gone, v2, m, moved) =
      remove_channel_lem s1 c idx (refreshed (with_nothing (s.heap c)) pfd) v1
        (ap (λ f. f (s1.heap c).fd) same ∙ ap s.channels fd_own ∙ e) slot1
        (ap (λ (x : Channel). is_none_event x) own) (rw fd_own (==_self_and (s.heap c).fd)) in
    (
      s1,
      s2,
      run,
      gone,
      v2,
      m ∙ ap₂ (λ f k. update f k none) same fd_own,
      idx,
      slot.index,
      set-IsMoved s s1 s2 idx pfd _ slot.there fds moved,
    )
  where
    ==_self_and : (n : ℕ) → ((n == n) && true) ≡ true
    ==_self_and n = rw (==_self n)

-- The fault of UpdateChannel: a registered channel whose pollfd was made an ignored one stays ignored
-- whatever events it asks for later, since the fd of its pollfd is not restored.
pub change_events_stays_ignored :
    (change : Channel → Channel) (s : PollPoller) (c idx n : ℕ) (pfd : PollFd)
    → Steady change
    → IsValid s
    → s.channels (s.heap c).fd ≡ some c
    → (s.heap c).index ≡ pos idx
    → get_elem? s.pollfds idx ≡ some pfd
    → pfd.fd ≡ negsuc n
    → is_none_event (change (s.heap c)) ≡ false
    → (s' : PollPoller) × (pfd' : PollFd) × (change_events change c s ≡ some s')
      × (get_elem? s'.pollfds idx ≡ some pfd')
      × (pfd'.events ≡ (change (s.heap c)).events)
      × (pfd'.fd ≡ negsuc n)
change_events_stays_ignored change s c idx n pfd steady v e x there off wants =
    let (s1, idx', pfd', run, _, slot, _, _, after, _) = change_events_lem change steady s c v e in
    let at : idx' ≡ idx = pos_eq (sym slot.index ∙ x) in
    let same : pfd' ≡ pfd = some_eq (sym slot.there ∙ ap (get_elem? s.pollfds) at ∙ there) in
    (
      s1,
      refreshed (change (s.heap c)) pfd,
      run,
      ap (get_elem? s1.pollfds) (sym at)
          ∙ after
          ∙ ap (λ p. some (refreshed (change (s.heap c)) p)) same,
      refl,
      rw wants off,
    )
