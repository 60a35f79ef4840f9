-- ===== src/Epoll/Ends.antt =====
-- The registration of a channel and its removal: cobra/poller/epoll_poller.cpp.
use cobra.Base.{
  ℕ, ◌≡◌, ◌≢◌, refl, ap, ◌∙◌, Bool, true, not, Option, none, some, inl, inr, ℤ, check, ◌>>=◌, ◌>>◌,
}
use cobra.Channel.{Channel, is_none_event, set_index}
use cobra.Poll.{update, is_some}
use cobra.Poll.Invariant.{update_self, update_ne}
use cobra.Epoll.{
  Op, ctl_add, ctl_del, Entry, EPollPoller, k_new, k_added, k_deleted, index_of, update_kernel,
  update_indexed, update_channel, remove_indexed, remove_channel, mark,
}
use cobra.Epoll.Interest.{IsEpoll, entry_of, Agrees, IsValid, IsValid-change}
use cobra.Epoll.Changes.{after, update_kernel-ok, points_self}

module _ {K : Type 0} (ctl : Op → ℕ → Entry → K → Bool × K) (epoll : IsEpoll ctl) where
  -- The state in which UpdateChannel enters a new channel in the map.
  abbrev entered : ℕ → EPollPoller K → EPollPoller K
  entered c s =
      mark ctl k_added c (record s { channels = update s.channels (s.heap c).fd (some c) })

  update_channel-fresh :
      (c : ℕ) (s : EPollPoller K)
      → (s.heap c).index ≡ k_new
      → s.channels (s.heap c).fd ≡ none
      → update_channel ctl c s ≡ update_kernel ctl ctl_add c (entered c s)
  unfolding update_channel update_indexed
  update_channel-fresh c s i free =
      ap (λ x. update_indexed ctl (index_of x) c s) i
      ∙ ap (λ o. check (not (is_some o)) >> update_kernel ctl ctl_add c (entered c s)) free

  -- UpdateChannel of a channel that is new enters it in the map, the kernel watches for its events,
  -- and the poller agrees with the kernel as before.
  update_channel_lem :
      (s : EPollPoller K) (c : ℕ)
      → IsValid epoll.interest s
      → (s.heap c).index ≡ k_new
      → s.channels (s.heap c).fd ≡ none
      → (s' : EPollPoller K) × (update_channel ctl c s ≡ some s')
        × IsValid epoll.interest s'
        × (s'.channels (s.heap c).fd ≡ some c)
        × (epoll.interest s'.kernel (s.heap c).fd ≡ some (entry_of (s.heap c) c))
  update_channel_lem s c v fresh free =
      let w =
        epoll.add s.kernel (t.heap c).fd (entry_of (t.heap c) c)
          (ap (epoll.interest s.kernel) same_fd ∙ v.unmapped fd free) in
      let watch =
        w.1 ∙ ap (λ n. update (epoll.interest s.kernel) n (some (entry_of (t.heap c) c))) same_fd in
      let s' : EPollPoller K = record t { kernel = after ctl epoll ctl_add c t } in
      let here =
        ap (λ g. g fd) watch
        ∙ update_self (epoll.interest s.kernel) fd (some (entry_of (t.heap c) c)) in
      (
        s',
        update_channel-fresh c s fresh free ∙ update_kernel-ok ctl epoll ctl_add c t w.0,
        IsValid-change epoll.interest s s' c fd v refl
            (λ d ne. update_ne s.heap c d (set_index k_added (s.heap c)) ne)
            (λ n ne. update_ne s.channels fd n (some c) ne)
            (λ n ne.
              ap (λ g. g n) watch
              ∙ update_ne (epoll.interest s.kernel) fd n (some (entry_of (t.heap c) c)) ne)
            (inl (
              update_self s.channels fd (some c),
              record { own = same_fd; watch = inl (ap (λ (x : Channel). x.index) self, here) },
            )),
        update_self s.channels fd (some c),
        here ∙ ap (λ (x : Channel). some (entry_of x c)) self,
      )
    where
      fd : ℕ
      fd = (s.heap c).fd

      t : EPollPoller K
      t = entered c s

      self : t.heap c ≡ set_index k_added (s.heap c)
      self = update_self s.heap c (set_index k_added (s.heap c))

      same_fd : (t.heap c).fd ≡ fd
      same_fd = ap (λ (x : Channel). x.fd) self

  -- removeChannel behind its assertions.
  erased : ℕ → EPollPoller K → EPollPoller K
  erased c s = record s { channels = update s.channels (s.heap c).fd none }

  remove_channel-indexed :
      (c : ℕ) (s : EPollPoller K) (i : ℤ)
      → s.channels (s.heap c).fd ≡ some c
      → is_none_event (s.heap c) ≡ true
      → (s.heap c).index ≡ i
      → remove_channel ctl c s ≡ remove_indexed ctl (index_of i) c (erased c s)
  unfolding remove_channel erased
  remove_channel-indexed c s i there quiet e =
      ap (λ b. check b >> (check (is_none_event (s.heap c)) >> rest (s.heap c).index))
        (points_self ctl epoll (s.channels (s.heap c).fd) c there)
      ∙ ap (λ b. check b >> rest (s.heap c).index) quiet
      ∙ ap rest e
    where
      rest : ℤ → Option (EPollPoller K)
      rest x = remove_indexed ctl (index_of x) c (erased c s)

  -- removeChannel of a registered channel without events succeeds: its descriptor leaves the map, the
  -- kernel does not watch it any more, the channel may be registered anew, and poller and kernel agree.
  pub remove_channel_lem :
      (s : EPollPoller K) (c fd : ℕ)
      → IsValid epoll.interest s
      → s.channels fd ≡ some c
      → is_none_event (s.heap c) ≡ true
      → (s' : EPollPoller K) × (remove_channel ctl c s ≡ some s')
        × IsValid epoll.interest s'
        × (s'.channels fd ≡ none)
        × (epoll.interest s'.kernel fd ≡ none)
        × ((s'.heap c).index ≡ k_new)
  unfolding remove_indexed erased
  remove_channel_lem s c fd v there quiet = elim a.watch [
    | inr (deleted, unwatched) ↦
        let s' : EPollPoller K = mark ctl k_new c (erased c s) in
        (
          s',
          remove_channel-indexed c s k_deleted there' quiet deleted,
          IsValid-change epoll.interest s s' c fd v a.own heap' map' (λ n ne. refl)
              (inr (gone, unwatched)),
          gone,
          unwatched,
          ap (λ (x : Channel). x.index) self,
        )
    | inl (added, watched) ↦
        let w =
          epoll.delete s.kernel (s.heap c).fd (entry_of (s.heap c) c) (entry_of (s.heap c) c)
            (ap (epoll.interest s.kernel) a.own ∙ watched) in
        let watch = w.1 ∙ ap (λ n. update (epoll.interest s.kernel) n none) a.own in
        let left : EPollPoller K = record (erased c s) { kernel = after ctl epoll ctl_del c s } in
        let s' : EPollPoller K = mark ctl k_new c left in
        let here = ap (λ g. g fd) watch ∙ update_self (epoll.interest s.kernel) fd none in
        (
          s',
          remove_channel-indexed c s k_added there' quiet added
              ∙ ap (λ o. o >>= λ x. some (mark ctl k_new c x))
                  (update_kernel-ok ctl epoll ctl_del c (erased c s) w.0),
          IsValid-change epoll.interest s s' c fd v a.own heap' map'
              (λ n ne. ap (λ g. g n) watch ∙ update_ne (epoll.interest s.kernel) fd n none ne)
              (inr (gone, here)),
          gone,
          here,
          ap (λ (x : Channel). x.index) self,
        )
  ]
    where
      a : Agrees (s.heap c) c fd (epoll.interest s.kernel fd)
      a = v.mapped fd c there

      there' : s.channels (s.heap c).fd ≡ some c
      there' = ap s.channels a.own ∙ there

      self : update s.heap c (set_index k_new (s.heap c)) c ≡ set_index k_new (s.heap c)
      self = update_self s.heap c (set_index k_new (s.heap c))

      heap' : (d : ℕ) → c ≢ d → update s.heap c (set_index k_new (s.heap c)) d ≡ s.heap d
      heap' d ne = update_ne s.heap c d (set_index k_new (s.heap c)) ne

      gone : update s.channels (s.heap c).fd none fd ≡ none
      gone = ap (λ n. update s.channels n none fd) a.own ∙ update_self s.channels fd none

      map' : (n : ℕ) → fd ≢ n → update s.channels (s.heap c).fd none n ≡ s.channels n
      map' n ne = ap (λ m. update s.channels m none n) a.own ∙ update_ne s.channels fd n none ne
