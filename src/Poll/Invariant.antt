-- ===== src/Poll/Invariant.antt =====
-- The invariant of PollPoller: the map, the pollfds and the channels' indices describe one another.
use cobra.Base.{
  ℕ, suc, ◌-◌, ◌<◌, ◌≡◌, ◌≢◌, ap, sym, ◌∙◌, List, [], ◌∷◌, ◌++◌, map, Option, none, some, length,
  get_elem?, set, arith, inl, inr, ℤ, pos, negsuc, length-set, get_elem?-set_self, get_elem?-set_ne,
  ==_self, ==_ne, ℕ_discrete,
}
use cobra.Channel.{Channel, set_index}
use cobra.Poll.{PollFd, PollPoller, update, slot_fd, pop_back}
use cobra.Poll.Slots.{
  get_elem?-pop_back, pop_back-get_elem?, get_elem?-lt, get_elem?-snoc, snoc-get_elem?_old,
  snoc-get_elem?_new,
}

abbrev pub slot_of : PollFd → ℕ
slot_of p = slot_fd p.fd

-- For descriptors `fds` of the pollfds in order: each has its channel in the map, whose index is the
-- place; and each channel in the map has its own descriptor, at the place of its index.
pub record Linked (heap : ℕ → Channel) (channels : ℕ → Option ℕ) (fds : List ℕ) : Type 0 where
  pub slots :
      (i fd : ℕ)
      → get_elem? fds i ≡ some fd
      → (c : ℕ) × (channels fd ≡ some c) × ((heap c).index ≡ pos i)
  pub mapped :
      (fd c : ℕ)
      → channels fd ≡ some c
      → (i : ℕ) × ((heap c).fd ≡ fd) × ((heap c).index ≡ pos i) × (get_elem? fds i ≡ some fd)

abbrev pub IsValid : PollPoller → Type 0
IsValid s = Linked s.heap s.channels (map slot_of s.pollfds)

pub some_eq : {a b : ℕ} → some a ≡ some b → a ≡ b
some_eq e = cc

pub pos_eq : {a b : ℕ} → pos a ≡ pos b → a ≡ b
pos_eq e = cc

pub update_self {ℓ} : {A : Type ℓ} (f : ℕ → A) (k : ℕ) (v : A) → update f k v k ≡ v
update_self f k v = rw (==_self k)

pub update_ne {ℓ} : {A : Type ℓ} (f : ℕ → A) (k j : ℕ) (v : A) → k ≢ j → update f k v j ≡ f j
update_ne f k j v h = rw (==_ne k j h)

-- Only the index of the one channel changes.
index_self :
    (heap : ℕ → Channel) (c : ℕ) (i : ℤ) → (update heap c (set_index i (heap c)) c).index ≡ i
index_self heap c i = ap (λ (x : Channel). x.index) (update_self heap c (set_index i (heap c)))

index_ne :
    (heap : ℕ → Channel) (c d : ℕ) (i : ℤ)
    → c ≢ d
    → (update heap c (set_index i (heap c)) d).index ≡ (heap d).index
index_ne heap c d i h = ap (λ (x : Channel). x.index) (update_ne heap c d (set_index i (heap c)) h)

fd_any :
    (heap : ℕ → Channel) (c d : ℕ) (i : ℤ)
    → (update heap c (set_index i (heap c)) d).fd ≡ (heap d).fd
fd_any heap c d i = elim (ℕ_discrete c d) [
  | yes e ↦
      ap (λ (x : Channel). x.fd)
        (ap (update heap c (set_index i (heap c))) (sym e)
          ∙ update_self heap c (set_index i (heap c)))
      ∙ ap (λ k. (heap k).fd) e
  | no ne ↦ ap (λ (x : Channel). x.fd) (update_ne heap c d (set_index i (heap c)) ne)
]

none_ne : {a : ℕ} {o : Option ℕ} → o ≡ none → o ≡ some a → ⊥
none_ne e f = cc

module _ {heap : ℕ → Channel} {channels : ℕ → Option ℕ} {fds : List ℕ}
    (v : Linked heap channels fds) where
  -- A descriptor stands at the index of its channel, and only there.
  pub own_slot :
      {fd c idx : ℕ} → channels fd ≡ some c → (heap c).index ≡ pos idx → get_elem? fds idx ≡ some fd
  own_slot {fd} {c} {idx} e x =
      let (i, _, y, g) = v.mapped fd c e in ap (get_elem? fds) (pos_eq (sym x ∙ y)) ∙ g

  place :
      {fd c idx i : ℕ}
      → channels fd ≡ some c
      → (heap c).index ≡ pos idx
      → get_elem? fds i ≡ some fd
      → i ≡ idx
  place {fd} {c} {idx} {i} e x g =
      let (d, f, y) = v.slots i fd g in
      pos_eq (sym y ∙ ap (λ k. (heap k).index) (some_eq (sym f ∙ e)) ∙ x)

  pub add-Linked :
      (c n : ℕ)
      → (heap c).index ≡ negsuc n
      → channels (heap c).fd ≡ none
      → Linked
          (update heap c (set_index (pos (length fds)) (heap c)))
          (update channels (heap c).fd (some c))
          (fds ++ (heap c).fd ∷ [])
  add-Linked c n new free = record {
    slots = λ i fd g. elim (get_elem?-snoc fds own i fd g) [
      | inl old ↦
          let (d, e, x) = v.slots i fd old in
          (
            d,
            update_ne channels own fd (some c) (λ h. none_ne free (ap channels h ∙ e)) ∙ e,
            index_ne heap c d (pos (length fds)) (λ h. cc (ap heap h)) ∙ x,
          )
      | inr (at, same) ↦ (
        c,
        ap (update channels own (some c)) same ∙ update_self channels own (some c),
        index_self heap c (pos (length fds)) ∙ ap pos (sym at),
      )
    ];
    mapped = λ fd d e. elim (ℕ_discrete own fd) [
      | yes h ↦
          let same : c ≡ d =
            some_eq
              (sym (update_self channels own (some c)) ∙ ap (update channels own (some c)) h ∙ e) in
          (
            length fds,
            fd_any heap c d (pos (length fds)) ∙ ap (λ k. (heap k).fd) (sym same) ∙ h,
            ap (λ k. (update heap c (set_index (pos (length fds)) (heap c)) k).index) (sym same)
                ∙ index_self heap c (pos (length fds)),
            snoc-get_elem?_new fds own ∙ ap some h,
          )
      | no h ↦
          let (i, f, x, g) = v.mapped fd d (sym (update_ne channels own fd (some c) h) ∙ e) in
          (
            i,
            fd_any heap c d (pos (length fds)) ∙ f,
            index_ne heap c d (pos (length fds)) (λ k. cc (ap heap k)) ∙ x,
            snoc-get_elem?_old fds own i fd g,
          )
    ];
  }
    where
      own : ℕ
      own = (heap c).fd

  pub drop-Linked :
      (fd c idx : ℕ)
      → channels fd ≡ some c
      → (heap c).index ≡ pos idx
      → suc idx ≡ length fds
      → Linked heap (update channels fd none) (pop_back fds)
  drop-Linked fd c idx e x last = record {
    slots = λ i k g.
        let (small, g') = get_elem?-pop_back fds i k g in
        let (d, f, y) = v.slots i k g' in
        (
          d,
          update_ne channels fd k none (λ h. omega (arith, place e x (g' ∙ ap some (sym h)))) ∙ f,
          y,
        );
    mapped = λ k d f. elim (ℕ_discrete fd k) [
      | yes h ↦ absurd (none_ne (update_self channels fd none) (ap (update channels fd none) h ∙ f))
      | no h ↦
          let (i, a, y, g) = v.mapped k d (sym (update_ne channels fd k none h) ∙ f) in
          let ne : i ≢ idx =
            λ same. h (some_eq (sym (own_slot e x) ∙ ap (get_elem? fds) (sym same) ∙ g)) in
          let small : suc i < length fds = omega (arith, get_elem?-lt fds i k g) in
          (i, a, y, pop_back-get_elem? fds i small ∙ g)
    ];
  }

  pub swap-Linked :
      (fd c idx l at_end : ℕ)
      → channels fd ≡ some c
      → (heap c).index ≡ pos idx
      → suc idx < length fds
      → get_elem? fds (length fds - 1) ≡ some l
      → update channels fd none l ≡ some at_end
      → Linked
          (update heap at_end (set_index (pos idx) (heap at_end)))
          (update channels fd none)
          (pop_back (set fds idx l))
  swap-Linked fd c idx l at_end e x inside last found = record {
    slots = λ i k g.
        let (small, g') = get_elem?-pop_back (set fds idx l) i k g in
        let low : suc i < length fds = omega (arith, small, length-set fds idx l) in
        elim (ℕ_discrete i idx) [
          | yes h ↦ (
            at_end,
            ap (update channels fd none)
                  (some_eq (sym g' ∙ ap (get_elem? (set fds idx l)) h ∙ written))
                ∙ found,
            index_self heap at_end (pos idx) ∙ ap pos (sym h),
          )
          | no h ↦
              let old : get_elem? fds i ≡ some k =
                sym (get_elem?-set_ne fds idx i l (λ q. h (sym q))) ∙ g' in
              let (d, f, y) = v.slots i k old in
              (
                d,
                update_ne channels fd k none (λ q. h (place e x (old ∙ ap some (sym q)))) ∙ f,
                index_ne heap at_end d (pos idx) (λ q.
                      omega
                        (arith, low, pos_eq (sym y ∙ ap (λ c. (heap c).index) (sym q) ∙ end_index)))
                    ∙ y,
              )
        ];
    mapped = λ k d f. elim (ℕ_discrete fd k) [
      | yes h ↦ absurd (none_ne (update_self channels fd none) (ap (update channels fd none) h ∙ f))
      | no h ↦
          let (i, a, y, g) = v.mapped k d (sym (update_ne channels fd k none h) ∙ f) in
          elim (ℕ_discrete at_end d) [
            | yes q ↦ (
              idx,
              fd_any heap at_end d (pos idx) ∙ a,
              ap (λ c. (update heap at_end (set_index (pos idx) (heap at_end)) c).index) (sym q)
                  ∙ index_self heap at_end (pos idx),
              pop_back-get_elem? (set fds idx l) idx (omega (arith, inside, length-set fds idx l))
                  ∙ written
                  ∙ ap some (sym end_fd ∙ ap (λ c. (heap c).fd) q ∙ a),
            )
            | no q ↦
                let ne : i ≢ idx =
                  λ same. h (some_eq (sym (own_slot e x) ∙ ap (get_elem? fds) (sym same) ∙ g)) in
                let not_last : i ≢ length fds - 1 = λ same. q (
                  some_eq (
                    sym end_mapped
                    ∙ ap channels (some_eq (sym last ∙ ap (get_elem? fds) (sym same) ∙ g))
                    ∙ sym (update_ne channels fd k none h)
                    ∙ f)) in
                let low : suc i < length (set fds idx l) =
                  omega (arith, get_elem?-lt fds i k g, length-set fds idx l) in
                (
                  i,
                  fd_any heap at_end d (pos idx) ∙ a,
                  index_ne heap at_end d (pos idx) q ∙ y,
                  pop_back-get_elem? (set fds idx l) i low
                      ∙ get_elem?-set_ne fds idx i l (λ same. ne (sym same))
                      ∙ g,
                )
          ]
    ];
  }
    where
      written : get_elem? (set fds idx l) idx ≡ some l
      written = get_elem?-set_self fds idx l (omega arith)

      end_ne : fd ≢ l
      end_ne h = none_ne (update_self channels fd none) (ap (update channels fd none) h ∙ found)

      end_mapped : channels l ≡ some at_end
      end_mapped = sym (update_ne channels fd l none end_ne) ∙ found

      end_index : (heap at_end).index ≡ pos (length fds - 1)
      end_index =
          let (d, f, y) = v.slots (length fds - 1) l last in
          ap (λ c. (heap c).index) (some_eq (sym end_mapped ∙ f)) ∙ y

      end_fd : (heap at_end).fd ≡ l
      end_fd = let (_, a, _, _) = v.mapped l at_end end_mapped in a
