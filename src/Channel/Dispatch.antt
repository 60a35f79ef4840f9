-- ===== src/Channel/Dispatch.antt =====
-- cobra/channel.cpp handleEvent and handleEventWithGuard: which callbacks run for the events that the
-- poller found, and in which order.
use cobra.Base.{
  ◌≡◌, refl, sym, ◌∙◌, Bool, true, false, not, ◌&&◌, ◌||◌, List, [], ◌∷◌, if◌then◌else◌, Option,
  none, some, ◌>>=◌, Bool-cases, inl, inr,
}
use cobra.Channel.{
  Channel, Mask, Callback, read_cb, write_cb, close_cb, error_cb, has_callback, run_when,
  handle_event_with_guard, handle_event,
}

-- What asks for each callback, in the names of poll(2).
abbrev pub asked : Mask → Callback → Bool
asked m close_cb = m.pollhup && not m.pollin
asked m error_cb = m.pollerr || m.pollnval
asked m read_cb = m.pollin || (m.pollpri || m.pollrdhup)
asked m write_cb = m.pollout

abbrev pub keep : (Callback → Bool) → List Callback → List Callback
keep p [] = []
keep p (x ∷ xs) = if p x then x ∷ keep p xs else keep p xs

abbrev pub run_all : {S : Type 0} → (Callback → S → Option S) → List Callback → S → Option S
run_all call [] s = some s
run_all call (k ∷ ks) s = call k s >>= run_all call ks

-- The callbacks that are set and asked for: close, error, read, write.
abbrev pub wanted : Channel → List Callback
wanted c =
    keep (λ k. asked c.revents k && has_callback c k)
      (close_cb ∷ error_cb ∷ read_cb ∷ write_cb ∷ [])

module _ {S : Type 0} (call : Callback → S → Option S) where
  bind_congr :
      {A B : Type 0} (x : Option A) {f g : A → Option B}
      → ((a : A) → f a ≡ g a)
      → (x >>= f) ≡ (x >>= g)
  bind_congr none h = refl
  bind_congr (some a) h = h a

  bind_assoc :
      {A B C : Type 0} (x : Option A) (f : A → Option B) (g : B → Option C)
      → ((x >>= f) >>= g) ≡ (x >>= λ a. f a >>= g)
  bind_assoc none f g = refl
  bind_assoc (some a) f g = refl

  -- One optional callback before others.
  run_when-run_all :
      (p : Callback → Bool) (k : Callback) (ks : List Callback) (s : S) (last : S → Option S)
      → (run_when call (p k) k s >>= λ s'. run_all call (keep p ks) s' >>= last)
        ≡ (run_all call (keep p (k ∷ ks)) s >>= last)
  unfolding run_when
  run_when-run_all p k ks s last = elim (Bool-cases (p k)) [
    | inl on ↦ rw on (sym (bind_assoc (call k s) (run_all call (keep p ks)) last))
    | inr off ↦ rw off refl
  ]

  handle_event_with_guard-wanted :
      (mark : Bool → S → S) (c : Channel) (s : S)
      → handle_event_with_guard call mark c s
        ≡ (run_all call (wanted c) (mark true s) >>= λ s'. some (mark false s'))
  unfolding handle_event_with_guard
  handle_event_with_guard-wanted mark c s =
      bind_congr (run_when call (p close_cb) close_cb (mark true s)) (λ s1.
        bind_congr (run_when call (p error_cb) error_cb s1) (λ s2.
          bind_congr (run_when call (p read_cb) read_cb s2)
            (λ s3. run_when-run_all p write_cb [] s3 last)
          ∙ run_when-run_all p read_cb (write_cb ∷ []) s2 last)
        ∙ run_when-run_all p error_cb (read_cb ∷ write_cb ∷ []) s1 last)
      ∙ run_when-run_all p close_cb (error_cb ∷ read_cb ∷ write_cb ∷ []) (mark true s) last
    where
      p : Callback → Bool
      p k = asked c.revents k && has_callback c k

      last : S → Option S
      last s' = some (mark false s')

  -- handleEvent of a channel whose owner is gone changes nothing; else it runs the callbacks that are
  -- both set and asked for by the events, each once, in the order close, error, read, write, between
  -- the two settings of eventHandling_.
  pub handle_event-wanted :
      (mark : Bool → S → S) (alive : Bool) (c : Channel) (s : S)
      → handle_event call mark alive c s ≡ (
          if c.tied && not alive
          then some s
          else run_all call (wanted c) (mark true s) >>= λ s'. some (mark false s'))
  unfolding handle_event
  handle_event-wanted mark alive c s =
      gated c.tied alive (some s) (handle_event_with_guard-wanted mark c s)
    where
      gated :
          (tied up : Bool) {x y : Option S} (z : Option S)
          → x ≡ y
          → (if tied then (if up then x else z) else x) ≡ (if tied && not up then z else y)
      gated false up z e = e
      gated true true z e = e
      gated true false z e = refl
