-- ===== src/Worker/Rounds.antt =====
-- A round of the loop of cobra/worker.cpp calls what was queued before it.
use cobra.Base.{ℕ, ◌≡◌, refl, ap, sym, subst, ◌∙◌, List, [], ◌∷◌, ◌++◌, append-nil, append_assoc}
use cobra.Worker.{swap_functors, end_functors, end_events, begin_events, handle_read}
use cobra.Worker.Steps.{
  testing, polling, handling, calling, System, initial, returns, reads, swaps, calls, ends, Reach,
  here, next,
}
use cobra.Worker.Order.{left, Inv, initial-Inv, Reach-Inv}

Reach-trans : {s t u : System} → Reach s t → Reach t u → Reach s u
Reach-trans r here = r
Reach-trans r (next q st) = next (Reach-trans r q) st

-- The state in which the functors `fs` have been called.
abbrev with_called : System → List ℕ → System
with_called s fs = record s { phase = calling []; called = s.called ++ fs }

call_all : (s : System) (fs : List ℕ) → s.phase ≡ calling fs → Reach s (with_called s fs)
call_all s [] e =
    subst (Reach s) (λ j. record s { phase = e j; called = sym (append-nil s.called) j }) here
call_all s (f ∷ fs) e = Reach-trans (next here (calls s f fs e)) (
    subst
      (λ l.
        Reach (record s { phase = calling fs; called = s.called ++ f ∷ [] })
          (record s { phase = calling []; called = l }))
      (append_assoc s.called (f ∷ []) fs)
      (call_all (record s { phase = calling fs; called = s.called ++ f ∷ [] }) fs refl))

-- A loop that sleeps can always go on to a state in which every functor that has been queued has been
-- called, in order, none waits, and the loop is at its test again: poll returns, the eventfd is read, and
-- the functors are taken and called.
pub polling-called :
    (s : System)
    → Reach initial s
    → s.phase ≡ polling
    → (t : System) × Reach s t
      × (t.called ≡ s.queued)
      × (t.queued ≡ s.queued)
      × (t.worker.pending_functors ≡ [])
      × (t.phase ≡ testing)
unfolding swap_functors end_functors end_events begin_events handle_read
polling-called s r e = (
  record (with_called s3 s.worker.pending_functors) {
    worker = end_functors s3.worker;
    phase = testing;
  },
  next
      (Reach-trans (next (next (next here (returns s e)) (reads s1 refl)) (swaps s2 refl))
        (call_all s3 s.worker.pending_functors refl))
      (ends (with_called s3 s.worker.pending_functors) refl),
  sym (i.order ∙ ap (λ p. s.called ++ (left p ++ s.worker.pending_functors)) e),
  refl,
  refl,
  refl,
)
  where
    i : Inv s
    i = Reach-Inv initial-Inv r

    s1 : System
    s1 = record s { worker = begin_events s.worker; phase = handling }

    s2 : System
    s2 = record s1 { worker = handle_read s1.worker }

    s3 : System
    s3 = record s2 {
      worker = (swap_functors (end_events s2.worker)).1;
      phase = calling (swap_functors (end_events s2.worker)).0;
      unannounced = 0;
    }
