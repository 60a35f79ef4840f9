-- ===== src/Epoll/Changes.antt =====
-- UpdateChannel and removeChannel of cobra/poller/epoll_poller.cpp keep the kernel and the poller in
-- agreement, and epoll_ctl(2) never fails.
use cobra.Base.{
  ℕ, ◌≡◌, ◌≢◌, refl, ap, sym, subst, ◌∙◌, Bool, true, false, Option, none, some, ◌⊎◌, inl, inr,
  ==_self, Bool-cases, check, ◌>>=◌, ◌>>◌, if◌then◌else◌,
}
use cobra.Channel.{Channel, is_none_event, set_index}
use cobra.Poll.{update, points_to}
use cobra.Poll.Invariant.{update_self, update_ne}
use cobra.Poll.Lifecycle.{Steady}
use cobra.Epoll.{
  Op, ctl_add, ctl_mod, ctl_del, Entry, EPollPoller, k_added, k_deleted, index_of, update_kernel,
  update_indexed, update_channel, change_events, mark,
}
use cobra.Epoll.Interest.{IsEpoll, entry_of, Agrees, IsValid, IsValid-change}

module _ {K : Type 0} (ctl : Op → ℕ → Entry → K → Bool × K) (epoll : IsEpoll ctl) where
  -- What is left of the kernel after an operation on a channel.
  abbrev pub after : Op → ℕ → EPollPoller K → K
  after op c t = (ctl op (t.heap c).fd (entry_of (t.heap c) c) t.kernel).1

  pub points_self : (o : Option ℕ) (c : ℕ) → o ≡ some c → points_to o c ≡ true
  points_self o c e = rw (e, ==_self c) refl

  pub update_kernel-ok :
      (op : Op) (c : ℕ) (t : EPollPoller K)
      → (ctl op (t.heap c).fd (entry_of (t.heap c) c) t.kernel).0 ≡ true
      → update_kernel ctl op c t ≡ some (record t { kernel = after op c t })
  unfolding update_kernel
  update_kernel-ok ctl_add c t e = rw e refl
  update_kernel-ok ctl_mod c t e = rw e refl
  update_kernel-ok ctl_del c t e = refl

  update_channel-deleted :
      (c : ℕ) (t : EPollPoller K)
      → (t.heap c).index ≡ k_deleted
      → t.channels (t.heap c).fd ≡ some c
      → update_channel ctl c t ≡ update_kernel ctl ctl_add c (mark ctl k_added c t)
  unfolding update_channel update_indexed
  update_channel-deleted c t i there =
      ap (λ x. update_indexed ctl (index_of x) c t) i
      ∙ ap (λ b. check b >> update_kernel ctl ctl_add c (mark ctl k_added c t))
          (points_self (t.channels (t.heap c).fd) c there)

  update_channel-drop :
      (c : ℕ) (t : EPollPoller K)
      → (t.heap c).index ≡ k_added
      → t.channels (t.heap c).fd ≡ some c
      → is_none_event (t.heap c) ≡ true
      → update_channel ctl c t
        ≡ (update_kernel ctl ctl_del c t >>= λ s'. some (mark ctl k_deleted c s'))
  unfolding update_channel update_indexed
  update_channel-drop c t i there quiet =
      ap (λ x. update_indexed ctl (index_of x) c t) i
      ∙ ap
          (λ b.
            check b
            >> (if is_none_event (t.heap c)
                then (update_kernel ctl ctl_del c t >>= λ s'. some (mark ctl k_deleted c s'))
                else update_kernel ctl ctl_mod c t))
          (points_self (t.channels (t.heap c).fd) c there)
      ∙ ap
          (λ b.
            if b
            then (update_kernel ctl ctl_del c t >>= λ s'. some (mark ctl k_deleted c s'))
            else update_kernel ctl ctl_mod c t)
          quiet

  update_channel-modify :
      (c : ℕ) (t : EPollPoller K)
      → (t.heap c).index ≡ k_added
      → t.channels (t.heap c).fd ≡ some c
      → is_none_event (t.heap c) ≡ false
      → update_channel ctl c t ≡ update_kernel ctl ctl_mod c t
  unfolding update_channel update_indexed
  update_channel-modify c t i there busy =
      ap (λ x. update_indexed ctl (index_of x) c t) i
      ∙ ap
          (λ b.
            check b
            >> (if is_none_event (t.heap c)
                then (update_kernel ctl ctl_del c t >>= λ s'. some (mark ctl k_deleted c s'))
                else update_kernel ctl ctl_mod c t))
          (points_self (t.channels (t.heap c).fd) c there)
      ∙ ap
          (λ b.
            if b
            then (update_kernel ctl ctl_del c t >>= λ s'. some (mark ctl k_deleted c s'))
            else update_kernel ctl ctl_mod c t)
          busy

  -- A state that differs at one channel of the map, which agrees with its new watch.
  settle :
      (s s' : EPollPoller K) (c fd : ℕ) (o : Option Entry)
      → IsValid epoll.interest s
      → (s.heap c).fd ≡ fd
      → s.channels fd ≡ some c
      → s'.channels ≡ s.channels
      → ((d : ℕ) → c ≢ d → s'.heap d ≡ s.heap d)
      → epoll.interest s'.kernel ≡ update (epoll.interest s.kernel) fd o
      → Agrees (s'.heap c) c fd o
      → IsValid epoll.interest s'
  settle s s' c fd o v own there same heap watch agrees =
      IsValid-change epoll.interest s s' c fd v own heap (λ n ne. ap (λ g. g n) same)
        (λ n ne. ap (λ g. g n) watch ∙ update_ne (epoll.interest s.kernel) fd n o ne)
        (inl (
          ap (λ g. g fd) same ∙ there,
          subst (Agrees (s'.heap c) c fd)
              (sym (ap (λ g. g fd) watch ∙ update_self (epoll.interest s.kernel) fd o)) agrees,
        ))

  -- A change of a registered channel's events, whatever they were: the poller has no assertion that
  -- fails and epoll_ctl(2) no error, index and kernel agree again, and the kernel watches for the new
  -- events, unless there are none.
  pub change_events_lem :
      (f : Channel → Channel) (s : EPollPoller K) (c fd : ℕ)
      → Steady f
      → IsValid epoll.interest s
      → s.channels fd ≡ some c
      → (s' : EPollPoller K) × (change_events ctl f c s ≡ some s')
        × IsValid epoll.interest s'
        × (s'.channels ≡ s.channels)
        × ((is_none_event (f (s.heap c)) ≡ true)
            ⊎ (epoll.interest s'.kernel fd ≡ some (entry_of (f (s.heap c)) c)))
  unfolding change_events
  change_events_lem f s c fd steady v there = elim a.watch [
    | inr (deleted, unwatched) ↦
        let w =
          epoll.add s.kernel (t1.heap c).fd (entry_of (t1.heap c) c)
            (ap (epoll.interest s.kernel) fd1 ∙ unwatched) in
        let watch =
          w.1 ∙ ap (λ n. update (epoll.interest s.kernel) n (some (entry_of (t1.heap c) c))) fd1 in
        (
          record t1 { kernel = after ctl_add c t1 },
          update_channel-deleted c t (index_t ∙ deleted) there_t
              ∙ update_kernel-ok ctl_add c t1 w.0,
          settle s (record t1 { kernel = after ctl_add c t1 }) c fd _ v a.own there refl heap1 watch
              (record { own = fd1; watch = inl (ap (λ (x : Channel). x.index) self1, refl) }),
          refl,
          inr (
              ap (λ g. g fd) watch
              ∙ update_self (epoll.interest s.kernel) fd (some (entry_of (t1.heap c) c))
              ∙ ap (λ (x : Channel). some (entry_of x c)) self1),
        )
    | inl (added, watched) ↦ elim (Bool-cases (is_none_event (f (s.heap c)))) [
      | inl quiet ↦
          let w =
            epoll.delete s.kernel (t.heap c).fd (entry_of (t.heap c) c) (entry_of (s.heap c) c)
              (ap (epoll.interest s.kernel) fd_t ∙ watched) in
          let watch = w.1 ∙ ap (λ n. update (epoll.interest s.kernel) n none) fd_t in
          let gone : EPollPoller K = record t { kernel = after ctl_del c t } in
          (
            mark ctl k_deleted c gone,
            update_channel-drop c t (index_t ∙ added) there_t (ap is_none_event self ∙ quiet)
                ∙ ap (λ o. o >>= λ s'. some (mark ctl k_deleted c s'))
                    (update_kernel-ok ctl_del c t w.0),
            settle s (mark ctl k_deleted c gone) c fd none v a.own there refl
                (λ d ne. update_ne t.heap c d (set_index k_deleted (t.heap c)) ne ∙ heap_t d ne)
                watch
                (record {
                  own =
                      ap (λ (x : Channel). x.fd)
                        (update_self t.heap c (set_index k_deleted (t.heap c)))
                      ∙ fd_t;
                  watch = inr (
                    ap (λ (x : Channel). x.index)
                        (update_self t.heap c (set_index k_deleted (t.heap c))),
                    refl,
                  );
                }),
            refl,
            inl quiet,
          )
      | inr busy ↦
          let w =
            epoll.modify s.kernel (t.heap c).fd (entry_of (t.heap c) c) (entry_of (s.heap c) c)
              (ap (epoll.interest s.kernel) fd_t ∙ watched) in
          let watch =
            w.1
            ∙ ap (λ n. update (epoll.interest s.kernel) n (some (entry_of (t.heap c) c))) fd_t in
          (
            record t { kernel = after ctl_mod c t },
            update_channel-modify c t (index_t ∙ added) there_t (ap is_none_event self ∙ busy)
                ∙ update_kernel-ok ctl_mod c t w.0,
            settle s (record t { kernel = after ctl_mod c t }) c fd (some (entry_of (t.heap c) c)) v
                a.own there refl heap_t watch
                (record { own = fd_t; watch = inl (index_t ∙ added, refl) }),
            refl,
            inr (
                ap (λ g. g fd) watch
                ∙ update_self (epoll.interest s.kernel) fd (some (entry_of (t.heap c) c))
                ∙ ap (λ (x : Channel). some (entry_of x c)) self),
          )
    ]
  ]
    where
      a : Agrees (s.heap c) c fd (epoll.interest s.kernel fd)
      a = v.mapped fd c there

      t : EPollPoller K
      t = record s { heap = update s.heap c (f (s.heap c)) }

      self : t.heap c ≡ f (s.heap c)
      self = update_self s.heap c (f (s.heap c))

      heap_t : (d : ℕ) → c ≢ d → t.heap d ≡ s.heap d
      heap_t d ne = update_ne s.heap c d (f (s.heap c)) ne

      index_t : (t.heap c).index ≡ (s.heap c).index
      index_t = ap (λ (x : Channel). x.index) self ∙ (steady (s.heap c)).1

      fd_t : (t.heap c).fd ≡ fd
      fd_t = ap (λ (x : Channel). x.fd) self ∙ (steady (s.heap c)).0 ∙ a.own

      there_t : t.channels (t.heap c).fd ≡ some c
      there_t = ap s.channels fd_t ∙ there

      t1 : EPollPoller K
      t1 = mark ctl k_added c t

      self1 : t1.heap c ≡ set_index k_added (f (s.heap c))
      self1 = update_self t.heap c (set_index k_added (t.heap c)) ∙ ap (set_index k_added) self

      fd1 : (t1.heap c).fd ≡ fd
      fd1 = ap (λ (x : Channel). x.fd) self1 ∙ (steady (s.heap c)).0 ∙ a.own

      heap1 : (d : ℕ) → c ≢ d → t1.heap d ≡ s.heap d
      heap1 d ne = update_ne t.heap c d (set_index k_added (t.heap c)) ne ∙ heap_t d ne
