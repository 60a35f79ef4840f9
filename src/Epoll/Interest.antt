-- ===== src/Epoll/Interest.antt =====
-- What epoll(7) promises, and the agreement of a channel's index with what the kernel watches:
-- cobra/poller/epoll_poller.cpp.
use cobra.Base.{
  ℕ, ◌≡◌, ◌≢◌, ap, sym, subst, ◌∙◌, Bool, true, Option, none, some, ◌⊎◌, inl, inr, ℕ_discrete,
}
use cobra.Channel.{Channel}
use cobra.Poll.{update}
use cobra.Epoll.{Op, ctl_add, ctl_mod, ctl_del, Entry, EPollPoller, k_added, k_deleted}

-- epoll_ctl(2) as its manual has it, where the kernel has room: it adds a descriptor that it does not
-- watch, and changes or removes one that it does.
pub record IsEpoll {K : Type 0} (epoll_ctl : Op → ℕ → Entry → K → Bool × K) : Type 0 where
  pub interest : K → ℕ → Option Entry
  pub add :
      (k : K) (fd : ℕ) (e : Entry)
      → interest k fd ≡ none
      → ((epoll_ctl ctl_add fd e k).0 ≡ true)
        × (interest (epoll_ctl ctl_add fd e k).1 ≡ update (interest k) fd (some e))
  pub modify :
      (k : K) (fd : ℕ) (e old : Entry)
      → interest k fd ≡ some old
      → ((epoll_ctl ctl_mod fd e k).0 ≡ true)
        × (interest (epoll_ctl ctl_mod fd e k).1 ≡ update (interest k) fd (some e))
  pub delete :
      (k : K) (fd : ℕ) (e old : Entry)
      → interest k fd ≡ some old
      → ((epoll_ctl ctl_del fd e k).0 ≡ true)
        × (interest (epoll_ctl ctl_del fd e k).1 ≡ update (interest k) fd none)

abbrev pub entry_of : Channel → ℕ → Entry
entry_of ch c = record { events = ch.events; channel = c }

-- A channel in the map is watched with its events, or marked as deleted and not watched.
pub record Agrees (ch : Channel) (c fd : ℕ) (watched : Option Entry) : Type 0 where
  pub own : ch.fd ≡ fd
  pub watch :
      ((ch.index ≡ k_added) × (watched ≡ some (entry_of ch c)))
      ⊎ ((ch.index ≡ k_deleted) × (watched ≡ none))

module _ {K : Type 0} (interest : K → ℕ → Option Entry) where
  pub record IsValid (s : EPollPoller K) : Type 0 where
    pub mapped : (fd c : ℕ) → s.channels fd ≡ some c → Agrees (s.heap c) c fd (interest s.kernel fd)
    pub unmapped : (fd : ℕ) → s.channels fd ≡ none → interest s.kernel fd ≡ none

  -- A change of one channel and of its descriptor leaves the others in agreement.
  pub IsValid-change :
      (s s' : EPollPoller K) (c fd : ℕ)
      → IsValid s
      → (s.heap c).fd ≡ fd
      → ((d : ℕ) → c ≢ d → s'.heap d ≡ s.heap d)
      → ((n : ℕ) → fd ≢ n → s'.channels n ≡ s.channels n)
      → ((n : ℕ) → fd ≢ n → interest s'.kernel n ≡ interest s.kernel n)
      → ((s'.channels fd ≡ some c) × Agrees (s'.heap c) c fd (interest s'.kernel fd))
        ⊎ ((s'.channels fd ≡ none) × (interest s'.kernel fd ≡ none))
      → IsValid s'
  IsValid-change s s' c fd v own heap map watch here = record {
    mapped = mapped;
    unmapped = unmapped;
  }
    where
      some_inj : {a b : ℕ} → some a ≡ some b → a ≡ b
      some_inj e = cc

      none_some : {a : ℕ} {o : Option ℕ} → o ≡ none → o ≡ some a → ⊥
      none_some e f = cc

      mapped : (n d : ℕ) → s'.channels n ≡ some d → Agrees (s'.heap d) d n (interest s'.kernel n)
      mapped n d e = elim (ℕ_discrete fd n) [
        | yes same ↦
            subst (λ m. Agrees (s'.heap d) d m (interest s'.kernel m)) same
              (elim here [
                | inl (there, agrees) ↦
                    subst (λ x. Agrees (s'.heap x) x fd (interest s'.kernel fd))
                      (some_inj (sym there ∙ ap s'.channels same ∙ e)) agrees
                | inr (gone, _) ↦ absurd (none_some gone (ap s'.channels same ∙ e))
              ])
        | no other ↦
            let a = v.mapped n d (sym (map n other) ∙ e) in
            let apart : c ≢ d = λ h. other (sym own ∙ ap (λ x. (s.heap x).fd) h ∙ a.own) in
            subst (λ x. Agrees x d n (interest s'.kernel n)) (sym (heap d apart))
              (subst (λ x. Agrees (s.heap d) d n x) (sym (watch n other)) a)
      ]

      unmapped : (n : ℕ) → s'.channels n ≡ none → interest s'.kernel n ≡ none
      unmapped n e = elim (ℕ_discrete fd n) [
        | yes same ↦
            subst (λ m. interest s'.kernel m ≡ none) same
              (elim here [
                | inl (there, _) ↦ absurd (none_some (ap s'.channels same ∙ e) there)
                | inr (_, gone) ↦ gone
              ])
        | no other ↦ watch n other ∙ v.unmapped n (sym (map n other) ∙ e)
      ]
