-- ===== src/Poll/Remove.antt =====
-- PollPoller::removeChannel, and the disableAll that comes before it.
use cobra.Base.{
  ℕ, zero, suc, ◌-◌, ◌<◌, ◌≡◌, ◌≢◌, refl, ap, sym, subst, ◌∙◌, List, [], ◌∷◌, map, none, some,
  length, get_elem?, set, length-set, get_elem?-set_ne, arith, pos, ◌==◌, true, ==_iff, ==_self,
  ==_ne, ℕ_discrete,
}
use cobra.Channel.{set_index, is_none_event}
use cobra.Poll.{
  PollFd, PollPoller, update, pop_back, take_slot, remove_channel, swap_out, is_ignored,
}
use cobra.Poll.Slots.{get_elem?-lt, map-get_elem?, map-set, map-pop_back, length-map}
use cobra.Poll.Invariant.{
  Linked, IsValid, slot_of, drop-Linked, swap-Linked, update_ne, some_eq, pos_eq,
}
use cobra.Poll.Register.{Slot}

get_elem?-ex {ℓ} :
    {A : Type ℓ} (xs : List A) (i : ℕ) → i < length xs → (x : A) × (get_elem? xs i ≡ some x)
get_elem?-ex [] i h = absurd (omega arith)
get_elem?-ex (x ∷ xs) zero h = (x, refl)
get_elem?-ex (x ∷ xs) (suc i) h = get_elem?-ex xs i (omega arith)

-- The last element in the place of one, and the list without its last.
pop_back-set_end {ℓ} :
    {A : Type ℓ} (xs : List A) (i : ℕ) (a : A)
    → suc i ≡ length xs
    → pop_back (set xs i a) ≡ pop_back xs
pop_back-set_end [] i a e = refl
pop_back-set_end (x ∷ []) zero a e = refl
pop_back-set_end (x ∷ []) (suc i) a e = absurd (omega arith)
pop_back-set_end (x ∷ y ∷ xs) zero a e = absurd (omega arith)
pop_back-set_end (x ∷ y ∷ []) (suc zero) a e = refl
pop_back-set_end (x ∷ y ∷ []) (suc (suc i)) a e = absurd (omega arith)
pop_back-set_end (x ∷ y ∷ z ∷ xs) (suc zero) a e = absurd (omega arith)
pop_back-set_end (x ∷ y ∷ z ∷ xs) (suc (suc i)) a e =
    ap (◌∷◌ x) (pop_back-set_end (y ∷ z ∷ xs) (suc i) a (omega arith))

set-set {ℓ} : {A : Type ℓ} (xs : List A) (i : ℕ) (a b : A) → set (set xs i a) i b ≡ set xs i b
set-set [] i a b = refl
set-set (x ∷ xs) zero a b = refl
set-set (x ∷ xs) (suc i) a b = ap (◌∷◌ x) (set-set xs i a b)

-- The last pollfd, and the pollfds with it in the place `idx` and without their last.
abbrev pub IsMoved : PollPoller → ℕ → PollPoller → Type 0
IsMoved s idx s' =
    (last : PollFd) × (get_elem? s.pollfds (length s.pollfds - 1) ≡ some last)
    × (s'.pollfds ≡ pop_back (set s.pollfds idx last))

-- The same of a poller whose pollfd at `idx` was another one.
pub set-IsMoved :
    (s s1 s2 : PollPoller) (idx : ℕ) (pfd a : PollFd)
    → get_elem? s.pollfds idx ≡ some pfd
    → s1.pollfds ≡ set s.pollfds idx a
    → IsMoved s1 idx s2
    → IsMoved s idx s2
set-IsMoved s s1 s2 idx pfd a there e (last, at_end, moved) =
    elim (ℕ_discrete (suc idx) (length s.pollfds)) [
      | yes h ↦ (
        pfd,
        ap (get_elem? s.pollfds) (end_of h) ∙ there,
        moved
            ∙ pop_back-set_end s1.pollfds idx last (h ∙ sym sizes)
            ∙ ap pop_back e
            ∙ pop_back-set_end s.pollfds idx a h
            ∙ sym (pop_back-set_end s.pollfds idx pfd h),
      )
      | no n ↦ (
        last,
        sym (get_elem?-set_ne s.pollfds idx (length s.pollfds - 1) a (other n))
            ∙ ap (λ xs. get_elem? xs (length s.pollfds - 1)) (sym e)
            ∙ ap (λ k. get_elem? s1.pollfds (k - 1)) (sym sizes)
            ∙ at_end,
        moved
            ∙ ap (λ xs. pop_back (set xs idx last)) e
            ∙ ap pop_back (set-set s.pollfds idx a last),
      )
    ]
  where
    sizes : length s1.pollfds ≡ length s.pollfds
    sizes = ap length e ∙ length-set s.pollfds idx a

    end_of : suc idx ≡ length s.pollfds → length s.pollfds - 1 ≡ idx
    end_of h = omega arith

    other : suc idx ≢ length s.pollfds → idx ≢ length s.pollfds - 1
    other n = omega (arith, n, get_elem?-lt s.pollfds idx pfd there)

-- The map without the channel's descriptor.
abbrev unmapped : PollPoller → ℕ → PollPoller
unmapped s fd = record s { channels = update s.channels fd none }

module _ (s : PollPoller) (c idx : ℕ) (pfd : PollFd) (v : IsValid s)
    (e : s.channels (s.heap c).fd ≡ some c) (slot : Slot s c idx pfd) where
  bound : idx < length s.pollfds
  bound = get_elem?-lt s.pollfds idx pfd slot.there

  take_slot-end :
      suc idx ≡ length s.pollfds
      → (s' : PollPoller) × (take_slot idx (unmapped s (s.heap c).fd) ≡ some s')
        × IsValid s'
        × (s'.channels ≡ update s.channels (s.heap c).fd none)
        × IsMoved s idx s'
  unfolding take_slot
  take_slot-end last = (
    record (unmapped s (s.heap c).fd) { pollfds = pop_back s.pollfds },
    rw at_end,
    subst (Linked s.heap (update s.channels (s.heap c).fd none))
        (sym (map-pop_back slot_of s.pollfds))
        (drop-Linked v (s.heap c).fd c idx e slot.index
          (last ∙ sym (length-map slot_of s.pollfds))),
    refl,
    (
      pfd,
      ap (get_elem? s.pollfds) (end_of last) ∙ slot.there,
      sym (pop_back-set_end s.pollfds idx pfd last),
    ),
  )
    where
      at_end : (idx == (length s.pollfds - 1)) ≡ true
      at_end = (==_iff _ _).1 (omega arith)

      end_of : suc idx ≡ length s.pollfds → length s.pollfds - 1 ≡ idx
      end_of e = omega arith

  take_slot-middle :
      suc idx < length s.pollfds
      → (s' : PollPoller) × (take_slot idx (unmapped s (s.heap c).fd) ≡ some s')
        × IsValid s'
        × (s'.channels ≡ update s.channels (s.heap c).fd none)
        × IsMoved s idx s'
  unfolding take_slot
  take_slot-middle inside =
      let (last, g) = get_elem?-ex s.pollfds (length s.pollfds - 1) (omega arith) in
      let last_fd : get_elem? (map slot_of s.pollfds) (length (map slot_of s.pollfds) - 1)
          ≡ some (slot_of last) =
        ap (λ k. get_elem? (map slot_of s.pollfds) (k - 1)) (length-map slot_of s.pollfds)
        ∙ map-get_elem? slot_of s.pollfds (length s.pollfds - 1) last g in
      let (d, f, x) = v.slots (length (map slot_of s.pollfds) - 1) (slot_of last) last_fd in
      let apart : (s.heap c).fd ≢ slot_of last = λ same. omega (
        arith,
        pos_eq (
            sym slot.index
            ∙ ap (λ k. (s.heap k).index) (some_eq (sym e ∙ ap s.channels same ∙ f))
            ∙ x),
        length-map slot_of s.pollfds,
      ) in
      let found : update s.channels (s.heap c).fd none (slot_of last) ≡ some d =
        update_ne s.channels (s.heap c).fd (slot_of last) none apart ∙ f in
      (
        record {
          heap = update s.heap d (set_index (pos idx) (s.heap d));
          pollfds = swap_out s.pollfds idx last;
          channels = update s.channels (s.heap c).fd none;
        },
        rw (==_ne idx (length s.pollfds - 1) (omega arith), g, found),
        subst (Linked _ (update s.channels (s.heap c).fd none))
            (sym (
              map-pop_back slot_of (set s.pollfds idx last)
              ∙ ap pop_back (map-set slot_of s.pollfds idx last)))
            (swap-Linked v (s.heap c).fd c idx (slot_of last) d e slot.index
              (omega (arith, length-map slot_of s.pollfds)) last_fd found),
        refl,
        (last, g, refl),
      )

  -- removeChannel of a registered channel with no events, whose pollfd is an ignored one, succeeds:
  -- its descriptor leaves the map, every other descriptor keeps its channel, and pollfds and indices
  -- still describe one another, the channel that moved from the end included; the last pollfd stands where
  -- the channel's was.
  pub remove_channel_lem :
      is_none_event (s.heap c) ≡ true
      → is_ignored (s.heap c) pfd ≡ true
      → (s' : PollPoller) × (remove_channel c s ≡ some s')
        × IsValid s'
        × (s'.channels ≡ update s.channels (s.heap c).fd none)
        × IsMoved s idx s'
  unfolding remove_channel
  remove_channel_lem idle ignored = elim (ℕ_discrete (suc idx) (length s.pollfds)) [
    | yes last ↦ let (s', r, w, m, p) = take_slot-end last in (s', start ∙ r, w, m, p)
    | no inner ↦
        let (s', r, w, m, p) = take_slot-middle (omega (arith, bound)) in (s', start ∙ r, w, m, p)
  ]
    where
      start : remove_channel c s ≡ take_slot idx (unmapped s (s.heap c).fd)
      start = rw (e, ==_self c, idle, slot.index, remove_channel, slot.there, ignored)
