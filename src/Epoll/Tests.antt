-- ===== src/Epoll/Tests.antt =====
-- The EPollPoller theorems over a kernel that keeps a table of entries.
use cobra.Base.{
  ℕ, zero, suc, ◌≡◌, refl, ap, sym, Bool, true, not, Option, none, some, ◌⊎◌, inl, inr,
  if◌then◌else◌, ◌==◌, arith,
}
use cobra.Channel.{Channel, new, set_index, with_writing, is_none_event}
use cobra.Poll.{update, is_some}
use cobra.Epoll.{
  Op, ctl_add, ctl_mod, ctl_del, Entry, EPollPoller, k_new, k_added, k_deleted, change_events,
  remove_channel,
}
use cobra.Epoll.Interest.{IsEpoll, entry_of, Agrees, IsValid}
use cobra.Epoll.Changes.{change_events_lem}
use cobra.Epoll.Ends.{remove_channel_lem}

abbrev Table : Type 0
Table = ℕ → Option Entry

abbrev table_ctl : Op → ℕ → Entry → Table → Bool × Table
table_ctl ctl_add fd e k = (not (is_some (k fd)), update k fd (some e))
table_ctl ctl_mod fd e k = (is_some (k fd), update k fd (some e))
table_ctl ctl_del fd e k = (is_some (k fd), update k fd none)

abbrev table-IsEpoll : IsEpoll table_ctl
table-IsEpoll = record {
  interest = λ k. k;
  add = λ k fd e free. (ap (λ o. not (is_some o)) free, refl);
  modify = λ k fd e old there. (ap is_some there, refl);
  delete = λ k fd e old there. (ap is_some there, refl);
}

-- Channel 0 has descriptor 5 and writes; channel 1, with descriptor 9, is deleted from the kernel;
-- channel 2, with descriptor 11, is new.
abbrev writer : Channel
writer = with_writing (set_index k_added (new 5))

abbrev idle : Channel
idle = set_index k_deleted (new 9)

abbrev cells : ℕ → Channel
cells zero = writer
cells (suc zero) = idle
cells _ = new 11

abbrev three : EPollPoller Table
three = record {
  heap = cells;
  channels = λ fd. if fd == 5 then some 0 else if fd == 9 then some 1 else none;
  kernel = λ fd. if fd == 5 then some (entry_of writer 0) else none;
  capacity = 16;
}

three_mapped : (fd c : ℕ) → three.channels fd ≡ some c → Agrees (cells c) c fd (three.kernel fd)
three_mapped fd zero e =
    let q : 5 ≡ fd = ground arith in record { own = q; watch = inl (refl, ap three.kernel (sym q)) }
three_mapped fd (suc zero) e =
    let q : 9 ≡ fd = ground arith in record { own = q; watch = inr (refl, ap three.kernel (sym q)) }
three_mapped fd (suc (suc c)) e = ground arith

three_unmapped : (fd : ℕ) → three.channels fd ≡ none → three.kernel fd ≡ none
three_unmapped fd e = ground arith

three-IsValid : IsValid (λ k. k) three
three-IsValid = record { mapped = three_mapped; unmapped = three_unmapped }

change_events_lem_example :
    (s' : EPollPoller Table) × (change_events table_ctl with_writing 1 three ≡ some s')
    × IsValid (λ k. k) s'
    × (s'.channels ≡ three.channels)
    × ((is_none_event (with_writing idle) ≡ true)
        ⊎ (s'.kernel 9 ≡ some (entry_of (with_writing idle) 1)))
change_events_lem_example =
    change_events_lem table_ctl table-IsEpoll with_writing three 1 9 (λ x. (refl, refl))
      three-IsValid refl

remove_channel_lem_example :
    (s' : EPollPoller Table) × (remove_channel table_ctl 1 three ≡ some s')
    × IsValid (λ k. k) s'
    × (s'.channels 9 ≡ none)
    × (s'.kernel 9 ≡ none)
    × ((s'.heap 1).index ≡ k_new)
remove_channel_lem_example =
    remove_channel_lem table_ctl table-IsEpoll three 1 9 three-IsValid refl refl
