-- ===== src/Worker/Order.antt =====
-- The order in which the functors of cobra/worker.cpp are called, and what makes a poll return for them.
use cobra.Base.{
  ℕ, suc, ◌+◌, ◌≤◌, ◌<◌, ◌≡◌, refl, ap, sym, subst, ◌∙◌, Bool, true, false, List, [], ◌∷◌, ◌++◌,
  append-nil, append_assoc, ◌⊎◌, inl, inr, arith,
}
use cobra.Worker.{
  Worker, wakeup, handle_read, push_functor, needs_wakeup, wake_after, queue_in_loop, set_quit,
  wake_to_quit, quit_loop, begin_loop, begin_events, end_events, end_loop, swap_functors,
  end_functors,
}
use cobra.Worker.Steps.{
  Phase, outside, testing, polling, handling, calling, System, initial, Step, outside_queues,
  outside_quits, starts, goes_on, stops, returns, reads, handler_queues, handler_quits, swaps,
  calls, functor_queues, functor_quits, ends, other_pushes, other_sets_quit, other_wakes, Reach,
  here, next,
}

-- The functors that the loop's thread has yet to call.
abbrev pub left : Phase → List ℕ
left outside = []
left testing = []
left polling = []
left handling = []
left (calling fs) = fs

-- Whether doPendingFunctors is under way.
abbrev pub is_calling : Phase → Bool
is_calling outside = false
is_calling testing = false
is_calling polling = false
is_calling handling = false
is_calling (calling fs) = true

-- Nothing to do, a thread that has written or will write to the eventfd, or functors that the loop's own
-- thread queued outside of Loop().
abbrev pub IsNoticed : System → Type 0
IsNoticed s = (s.worker.pending_functors ≡ []) ⊎ (0 < s.worker.wakeups + s.owed + s.unannounced)

pub record Inv (s : System) : Type 0 where
  pub order : s.queued ≡ s.called ++ (left s.phase ++ s.worker.pending_functors)
  pub flag : s.worker.calling_pending_functors ≡ is_calling s.phase
  pub noticed : (s.phase ≡ handling) ⊎ IsNoticed s

pub initial-Inv : Inv initial
initial-Inv = record { order = refl; flag = refl; noticed = inr (inl refl) }

-- A functor at the end of the queue.
append_last :
    (q c l p : List ℕ) (f : ℕ) → q ≡ c ++ (l ++ p) → q ++ f ∷ [] ≡ c ++ (l ++ (p ++ f ∷ []))
append_last q c l p f e =
    ap (λ x. x ++ f ∷ []) e
    ∙ append_assoc c (l ++ p) (f ∷ [])
    ∙ ap (λ x. c ++ x) (append_assoc l p (f ∷ []))

-- The wakeup that the loop's own thread writes while it calls functors.
queue_calling :
    (f : ℕ) (w : Worker)
    → w.calling_pending_functors ≡ true
    → queue_in_loop true f w ≡ wakeup (push_functor f w)
unfolding queue_in_loop wake_after needs_wakeup push_functor
queue_calling f w e = rw e refl

queue_quiet :
    (f : ℕ) (w : Worker)
    → w.calling_pending_functors ≡ false
    → queue_in_loop true f w ≡ push_functor f w
unfolding queue_in_loop wake_after needs_wakeup push_functor
queue_quiet f w e = rw e refl

abbrev is_handling : Phase → Bool
is_handling outside = false
is_handling testing = false
is_handling polling = false
is_handling handling = true
is_handling (calling fs) = false

order_at :
    (s : System) (p : Phase)
    → s.phase ≡ p
    → Inv s
    → s.queued ≡ s.called ++ (left p ++ s.worker.pending_functors)
order_at s p e i = i.order ∙ ap (λ q. s.called ++ (left q ++ s.worker.pending_functors)) e

flag_at :
    (s : System) (p : Phase)
    → s.phase ≡ p
    → Inv s
    → s.worker.calling_pending_functors ≡ is_calling p
flag_at s p e i = i.flag ∙ ap is_calling e

IsNoticed-at : (s : System) (p : Phase) → s.phase ≡ p → is_handling p ≡ false → Inv s → IsNoticed s
IsNoticed-at s p e n i = go i.noticed
  where
    go : (s.phase ≡ handling) ⊎ IsNoticed s → IsNoticed s
    go (inl h) = absurd (clash (sym (ap is_handling h) ∙ ap is_handling e ∙ n))
      where
        clash : true ≡ false → ⊥
        clash h = cc
    go (inr h) = h

-- An eventfd that is written, or will be.
woken : (n m k : ℕ) → 0 < suc n + m + k
woken n m k = omega arith

owing : (n m k : ℕ) → 0 < n + suc m + k
owing n m k = omega arith

unsaid : (n m : ℕ) → 0 < n + suc m
unsaid n m = omega arith

-- The loop's thread goes on to a place where no functor is left to call.
move-Inv :
    (s : System) (p q : Phase) (w : Worker)
    → s.phase ≡ p
    → left p ≡ []
    → left q ≡ []
    → is_handling p ≡ false
    → is_calling q ≡ false
    → w.calling_pending_functors ≡ false
    → w.pending_functors ≡ s.worker.pending_functors
    → w.wakeups ≡ s.worker.wakeups
    → Inv s
    → Inv (record s { worker = w; phase = q })
move-Inv s p q w e lp lq hp cq c f n i = record {
  order =
      order_at s p e i
      ∙ ap (λ l. s.called ++ (l ++ s.worker.pending_functors)) (lp ∙ sym lq)
      ∙ ap (λ l. s.called ++ (left q ++ l)) (sym f);
  flag = c ∙ sym cq;
  noticed = inr (notice (IsNoticed-at s p e hp i));
}
  where
    notice : IsNoticed s → (w.pending_functors ≡ []) ⊎ (0 < w.wakeups + s.owed + s.unannounced)
    notice (inl h) = inl (f ∙ h)
    notice (inr h) = inr (subst (λ k. 0 < k + s.owed + s.unannounced) (sym n) h)

-- A step that leaves the queue and the thread of the loop alone, and wakes no less.
quiet-Inv :
    (s : System) (w : Worker) (n : ℕ)
    → w.calling_pending_functors ≡ s.worker.calling_pending_functors
    → w.pending_functors ≡ s.worker.pending_functors
    → s.worker.wakeups + s.owed ≤ w.wakeups + n
    → Inv s
    → Inv (record s { worker = w; owed = n })
quiet-Inv s w n c f h i = record {
  order = i.order ∙ ap (λ l. s.called ++ (left s.phase ++ l)) (sym f);
  flag = c ∙ i.flag;
  noticed = go i.noticed;
}
  where
    go :
        (s.phase ≡ handling) ⊎ IsNoticed s
        → (s.phase ≡ handling) ⊎ ((w.pending_functors ≡ []) ⊎ (0 < w.wakeups + n + s.unannounced))
    go (inl e) = inl e
    go (inr (inl e)) = inr (inl (f ∙ e))
    go (inr (inr k)) = inr (inr (omega arith))

Step-Inv : {s t : System} → Step s t → Inv s → Inv t
unfolding begin_loop begin_events end_events end_loop swap_functors end_functors handle_read
    set_quit wake_to_quit quit_loop push_functor wakeup wake_after needs_wakeup
Step-Inv (outside_queues s f e) i =
    subst
      (λ w.
        Inv (record s { worker = w; unannounced = suc s.unannounced; queued = s.queued ++ f ∷ [] }))
      (sym (queue_quiet f s.worker (flag_at s outside e i)))
      (record {
        order = append_last s.queued s.called (left s.phase) s.worker.pending_functors f i.order;
        flag = i.flag;
        noticed = inr (inr (unsaid (s.worker.wakeups + s.owed) s.unannounced));
      })
Step-Inv (outside_quits s e) i = record { order = i.order; flag = i.flag; noticed = i.noticed }
Step-Inv (starts s e) i =
    move-Inv s outside testing (begin_loop s.worker) e refl refl refl refl (flag_at s outside e i)
      refl refl i
Step-Inv (goes_on s e f) i =
    move-Inv s testing polling s.worker e refl refl refl refl (flag_at s testing e i) refl refl i
Step-Inv (stops s e f) i =
    move-Inv s testing outside (end_loop s.worker) e refl refl refl refl (flag_at s testing e i)
      refl refl i
Step-Inv (returns s e) i =
    move-Inv s polling handling (begin_events s.worker) e refl refl refl refl
      (flag_at s polling e i) refl refl i
Step-Inv (reads s e) i = record { order = i.order; flag = i.flag; noticed = inl e }
Step-Inv (handler_queues s f e) i =
    subst (λ w. Inv (record s { worker = w; queued = s.queued ++ f ∷ [] }))
      (sym (queue_quiet f s.worker (flag_at s handling e i)))
      (record {
        order = append_last s.queued s.called (left s.phase) s.worker.pending_functors f i.order;
        flag = i.flag;
        noticed = inl e;
      })
Step-Inv (handler_quits s e) i = record { order = i.order; flag = i.flag; noticed = inl e }
Step-Inv (swaps s e) i = record {
  order =
      order_at s handling e i
      ∙ ap (λ l. s.called ++ l) (sym (append-nil s.worker.pending_functors));
  flag = refl;
  noticed = inr (inl refl);
}
Step-Inv (calls s f fs e) i = record {
  order =
      order_at s (calling (f ∷ fs)) e i
      ∙ sym (append_assoc s.called (f ∷ []) (fs ++ s.worker.pending_functors));
  flag = flag_at s (calling (f ∷ fs)) e i;
  noticed = inr (IsNoticed-at s (calling (f ∷ fs)) e refl i);
}
Step-Inv (functor_queues s f fs e) i =
    subst (λ w. Inv (record s { worker = w; queued = s.queued ++ f ∷ [] }))
      (sym (queue_calling f s.worker (flag_at s (calling fs) e i)))
      (record {
        order = append_last s.queued s.called (left s.phase) s.worker.pending_functors f i.order;
        flag = i.flag;
        noticed = inr (inr (woken s.worker.wakeups s.owed s.unannounced));
      })
Step-Inv (functor_quits s fs e) i = record { order = i.order; flag = i.flag; noticed = i.noticed }
Step-Inv (ends s e) i = record {
  order = order_at s (calling []) e i;
  flag = refl;
  noticed = inr (IsNoticed-at s (calling []) e refl i);
}
Step-Inv (other_pushes s f) i = record {
  order = append_last s.queued s.called (left s.phase) s.worker.pending_functors f i.order;
  flag = i.flag;
  noticed = inr (inr (owing s.worker.wakeups s.owed s.unannounced));
}
Step-Inv (other_sets_quit s) i =
    quiet-Inv s (set_quit s.worker) (suc s.owed) refl refl (omega arith) i
Step-Inv (other_wakes s n e) i = quiet-Inv s (wakeup s.worker) n refl refl (omega arith) i

pub Reach-Inv : {s t : System} → Inv s → Reach s t → Inv t
Reach-Inv i here = i
Reach-Inv i (next r st) = Step-Inv st (Reach-Inv i r)

-- Whatever the loop, its functors and other threads do, in any order: the functors called so far, those
-- that the loop's thread has taken and those that wait are the functors queued, in their order, so that
-- none is lost or called twice; and when functors wait, the loop's thread is among the handlers of the
-- events, from where it goes on to take them, or the eventfd has been written or a thread is about to
-- write to it, so that the next poll returns, or the loop's own thread has queued functors outside of
-- Loop() since they were last taken, for which nothing is written.
pub queued-called :
    (s : System)
    → Reach initial s
    → (s.queued ≡ s.called ++ (left s.phase ++ s.worker.pending_functors))
      × ((s.phase ≡ handling)
          ⊎ ((s.worker.pending_functors ≡ []) ⊎ (0 < s.worker.wakeups + s.owed + s.unannounced)))
queued-called s r = let i = Reach-Inv initial-Inv r in (i.order, i.noticed)
