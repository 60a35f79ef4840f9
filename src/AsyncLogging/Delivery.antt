-- ===== src/AsyncLogging/Delivery.antt =====
-- Lines appended to the asynchronous log of base/AsyncLogging.cc are written in order, and the assertions
-- of its thread hold.
use cobra.Base.{
  ℕ, ◌<◌, ◌≡◌, refl, ap, sym, ◌∙◌, true, List, [], ◌∷◌, ◌++◌, append-nil, append_assoc, Option,
  some, ◌>>=◌, Bool-cases, ◌⊎◌, inl, inr,
}
use cobra.LogStream.{as_string}
use cobra.AsyncLogging.{contents}
use cobra.AsyncLogging.Invariant.{
  Event, line, writes, System, initial, accept, step, run, Inv, initial-Inv,
}
use cobra.AsyncLogging.Lines.{line-Inv}
use cobra.AsyncLogging.Turns.{writes-Inv}

abbrev of_event : ℕ → Event → List ℕ
of_event size (line l) = accept size l
of_event size writes = []

-- The lines of a run that a buffer can hold, one after the other.
abbrev pub appended : ℕ → List Event → List ℕ
appended size [] = []
appended size (line l ∷ es) = accept size l ++ appended size es
appended size (writes ∷ es) = appended size es

appended_cons :
    (size : ℕ) (e : Event) (es : List Event)
    → of_event size e ++ appended size es ≡ appended size (e ∷ es)
appended_cons size (line l) es = refl
appended_cons size writes es = refl

step-Inv :
    (size : ℕ) (message : List ℕ) (e : Event) (s : System)
    → 0 < size
    → Inv size s
    → (t : System) × (step size message e s ≡ some t)
      × (t.accepted ≡ s.accepted ++ of_event size e)
      × Inv size t
step-Inv size message (line l) s h i = line-Inv size message l s h i
step-Inv size message writes s h i = writes-Inv size message s i

run-step :
    (size : ℕ) (message : List ℕ) (e : Event) (es : List Event) (s t : System) (o : Option System)
    → step size message e s ≡ some t
    → run size message es t ≡ o
    → run size message (e ∷ es) s ≡ o
run-step size message e es s t o f g = ap (λ x. x >>= run size message es) f ∙ g

run-Inv :
    (size : ℕ) (message : List ℕ) (es : List Event) (s : System)
    → 0 < size
    → Inv size s
    → (t : System) × (run size message es s ≡ some t)
      × (t.accepted ≡ s.accepted ++ appended size es)
      × Inv size t
run-Inv size message [] s h i = (s, refl, sym (append-nil s.accepted), i)
run-Inv size message (e ∷ es) s h i =
    let (t, f, a, j) = step-Inv size message e s h i in
    let (u, g, b, k) = run-Inv size message es t h j in
    (
      u,
      run-step size message e es s t (some u) f g,
      b
          ∙ ap (λ x. x ++ appended size es) a
          ∙ append_assoc s.accepted (of_event size e) (appended size es)
          ∙ ap (λ x. s.accepted ++ x) (appended_cons size e es),
      k,
    )

-- With buffers of at least one byte, whatever lines are appended and whenever the thread writes, no
-- assertion of the thread fails and no buffer is missing or overrun; and unless it has met more than 25
-- buffers at once and dropped some, what it has written, followed by the full buffers and the current
-- one, is the lines shorter than a buffer, in their order.
pub run-appended :
    (size : ℕ) (message : List ℕ) (es : List Event)
    → 0 < size
    → (t : System) × (run size message es (initial size) ≡ some t)
      × ((t.back.dropped ≡ true)
          ⊎ (t.back.output ++ (contents t.front.buffers ++ as_string t.front.current_buffer)
              ≡ appended size es))
run-appended size message es h =
    let (t, e, a, i) = run-Inv size message es (initial size) h (initial-Inv size h) in
    (t, e, decided t a i)
  where
    decided :
        (t : System)
        → t.accepted ≡ appended size es
        → Inv size t
        → (t.back.dropped ≡ true)
          ⊎ (t.back.output ++ (contents t.front.buffers ++ as_string t.front.current_buffer)
              ≡ appended size es)
    decided t a i = elim (Bool-cases t.back.dropped) [
      | inl d ↦ inl d
      | inr d ↦ inr (i.delivered d ∙ a)
    ]
