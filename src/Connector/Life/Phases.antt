-- ===== src/Connector/Life/Phases.antt =====
-- Where each event takes a connector: cobra/connector.cpp.
use cobra.Base.{
  ℕ, zero, suc, ◌*◌, ◌≡◌, refl, Bool, true, false, [], ◌∷◌, none, some, ◌>>=◌, min, arith, ◌⊎◌, inl,
  inr, ==_self, ==_ne,
}
use cobra.Channel.{Channel, with_writing, with_nothing}
use cobra.Channel
use cobra.Connector.{
  State, disconnected, connecting, connected, Errno, verdict, goes_on, tries_again, gives_up,
  Verdict, start_connecting, retry, connect_to, start_in_loop, remove_and_reset_channel,
  reset_channel, retry_removed, stop, stop_in_loop, succeed, handle_write, handle_error,
  max_retry_delay,
}
use cobra.Connector.Life.{
  World, apply_all, Event, fires, writes, fails, resets_channel, stops, stops_in_loop, step,
  IsBounded,
}

-- The worlds that a connector can be in.
pub data Phase : Type 0 where
  idle : Bool → ℕ → Bool → Phase
  resetting : Bool → ℕ → Bool → Channel → Phase
  trying : Bool → ℕ → Channel → Phase
  leaving : Bool → ℕ → Channel → Phase
  finished : Bool → ℕ → Phase

abbrev pub count_of : Bool → ℕ
count_of true = 1
count_of false = 0

abbrev pub world_of : Phase → World
world_of (idle going delay timer) = record {
  conn = record { state = disconnected; connect = going; channel = none; retry_delay = delay };
  owned = [];
  resets = 0;
  timers = count_of timer;
}
world_of (resetting going delay timer ch) = record {
  conn = record { state = disconnected; connect = going; channel = some ch; retry_delay = delay };
  owned = [];
  resets = 1;
  timers = count_of timer;
}
world_of (trying going delay ch) = record {
  conn = record { state = connecting; connect = going; channel = some ch; retry_delay = delay };
  owned = ch.fd ∷ [];
  resets = 0;
  timers = 0;
}
world_of (leaving going delay ch) = record {
  conn = record { state = connected; connect = going; channel = some ch; retry_delay = delay };
  owned = [];
  resets = 1;
  timers = 0;
}
world_of (finished going delay) = record {
  conn = record { state = connected; connect = going; channel = none; retry_delay = delay };
  owned = [];
  resets = 0;
  timers = 0;
}

abbrev pub delay_of : Phase → ℕ
delay_of (idle going delay timer) = delay
delay_of (resetting going delay timer ch) = delay
delay_of (trying going delay ch) = delay
delay_of (leaving going delay ch) = delay
delay_of (finished going delay) = delay

-- One event leads from a phase to a phase, and keeps the delay in its bounds.
abbrev pub Next : Event → Phase → Type 0
Next e p =
    (p' : Phase) × (step e (world_of p) ≡ some (world_of p'))
    × (IsBounded (delay_of p) → IsBounded (delay_of p'))

longer : (d : ℕ) → IsBounded d → IsBounded (min (d * 2) max_retry_delay)
longer d b = omega (arith, b.0, b.1)

watched : ℕ → Channel
watched fd =
    with_writing (let ch = Channel.new fd in record ch { has_write = true; has_error = true })

verdict_cases : (v : Verdict) → (v ≡ goes_on) ⊎ ((v ≡ tries_again) ⊎ (v ≡ gives_up))
verdict_cases goes_on = inl refl
verdict_cases tries_again = inr (inl refl)
verdict_cases gives_up = inr (inr refl)

fires-Next : (fd : ℕ) (errno : Errno) (p : Phase) → Next (fires fd errno) p
unfolding start_in_loop connect_to start_connecting retry watched
fires-Next fd errno (idle going delay false) = (idle going delay false, refl, λ b. b)
fires-Next fd errno (idle false delay true) = (idle false delay false, refl, λ b. b)
fires-Next fd errno (idle true delay true) = elim (verdict_cases (verdict errno)) [
  | inl on ↦ (trying true delay (watched fd), rw (on, connect_to) refl, λ b. b)
  | inr (inl again) ↦ (
    idle true (min (delay * 2) max_retry_delay) true,
    rw (again, connect_to, ==_self fd) refl,
    longer delay,
  )
  | inr (inr over) ↦ (idle true delay false, rw (over, connect_to, ==_self fd) refl, λ b. b)
]
fires-Next fd errno (resetting going delay true ch) = (resetting going delay true ch, refl, λ b. b)
fires-Next fd errno (resetting going delay false ch) =
    (resetting going delay false ch, refl, λ b. b)
fires-Next fd errno (trying going delay ch) = (trying going delay ch, refl, λ b. b)
fires-Next fd errno (leaving going delay ch) = (leaving going delay ch, refl, λ b. b)
fires-Next fd errno (finished going delay) = (finished going delay, refl, λ b. b)

-- An attempt that is given up ends in a retry, or in nothing where the connector was stopped.
after_retry : Bool → ℕ → Channel → Phase
after_retry true delay ch = resetting true (min (delay * 2) max_retry_delay) true (with_nothing ch)
after_retry false delay ch = resetting false delay false (with_nothing ch)

after_retry-IsBounded :
    (going : Bool) (delay : ℕ) (ch : Channel)
    → IsBounded delay
    → IsBounded (delay_of (after_retry going delay ch))
unfolding after_retry
after_retry-IsBounded true delay ch b = longer delay b
after_retry-IsBounded false delay ch b = b

retry_removed_lem :
    (s : State) (going : Bool) (delay : ℕ) (ch : Channel)
    → ((retry_removed
            (record { state = s; connect = going; channel = some ch; retry_delay = delay })
          >>= λ (c, es).
              some ((record { conn = c; owned = ch.fd ∷ []; resets = 0; timers = 0 }), es))
        >>= λ (w, es). apply_all es w)
      ≡ some (world_of (after_retry going delay ch))
unfolding retry_removed remove_and_reset_channel retry after_retry
retry_removed_lem s true delay ch = rw (==_self ch.fd) refl
retry_removed_lem s false delay ch = rw (==_self ch.fd) refl

fails-Next : (p : Phase) → Next fails p
unfolding handle_error
fails-Next (idle going delay timer) = (idle going delay timer, refl, λ b. b)
fails-Next (resetting going delay timer ch) = (resetting going delay timer ch, refl, λ b. b)
fails-Next (trying going delay ch) = (
  after_retry going delay ch,
  retry_removed_lem connecting going delay ch,
  after_retry-IsBounded going delay ch,
)
fails-Next (leaving going delay ch) = (leaving going delay ch, refl, λ b. b)
fails-Next (finished going delay) = (finished going delay, refl, λ b. b)

stops_in_loop-Next : (p : Phase) → Next stops_in_loop p
unfolding stop_in_loop
stops_in_loop-Next (idle going delay timer) = (idle going delay timer, refl, λ b. b)
stops_in_loop-Next (resetting going delay timer ch) = (resetting going delay timer ch, refl, λ b. b)
stops_in_loop-Next (trying going delay ch) = (
  after_retry going delay ch,
  retry_removed_lem disconnected going delay ch,
  after_retry-IsBounded going delay ch,
)
stops_in_loop-Next (leaving going delay ch) = (leaving going delay ch, refl, λ b. b)
stops_in_loop-Next (finished going delay) = (finished going delay, refl, λ b. b)

stops-Next : (p : Phase) → Next stops p
unfolding stop
stops-Next (idle going delay timer) = (idle false delay timer, refl, λ b. b)
stops-Next (resetting going delay timer ch) = (resetting false delay timer ch, refl, λ b. b)
stops-Next (trying going delay ch) = (trying false delay ch, refl, λ b. b)
stops-Next (leaving going delay ch) = (leaving false delay ch, refl, λ b. b)
stops-Next (finished going delay) = (finished false delay, refl, λ b. b)

resets_channel-Next : (p : Phase) → Next resets_channel p
unfolding reset_channel
resets_channel-Next (idle going delay timer) = (idle going delay timer, refl, λ b. b)
resets_channel-Next (resetting going delay timer ch) = (idle going delay timer, refl, λ b. b)
resets_channel-Next (trying going delay ch) = (trying going delay ch, refl, λ b. b)
resets_channel-Next (leaving going delay ch) = (finished going delay, refl, λ b. b)
resets_channel-Next (finished going delay) = (finished going delay, refl, λ b. b)

writes-Next : (err : ℕ) (self : Bool) (p : Phase) → Next (writes err self) p
unfolding handle_write succeed remove_and_reset_channel
writes-Next err self (idle going delay timer) = (idle going delay timer, refl, λ b. b)
writes-Next err self (resetting going delay timer ch) =
    (resetting going delay timer ch, refl, λ b. b)
writes-Next err self (leaving going delay ch) = (leaving going delay ch, refl, λ b. b)
writes-Next err self (finished going delay) = (finished going delay, refl, λ b. b)
writes-Next (suc err) self (trying going delay ch) = (
  after_retry going delay ch,
  rw (==_ne (suc err) 0 (λ e. omega arith)) (retry_removed_lem connecting going delay ch),
  after_retry-IsBounded going delay ch,
)
writes-Next zero true (trying going delay ch) = (
  after_retry going delay ch,
  retry_removed_lem connecting going delay ch,
  after_retry-IsBounded going delay ch,
)
writes-Next zero false (trying true delay ch) =
    (leaving true delay (with_nothing ch), rw (==_self ch.fd) refl, λ b. b)
writes-Next zero false (trying false delay ch) =
    (leaving false delay (with_nothing ch), rw (==_self ch.fd) refl, λ b. b)

pub step-Next : (e : Event) (p : Phase) → Next e p
step-Next (fires fd errno) p = fires-Next fd errno p
step-Next (writes err self) p = writes-Next err self p
step-Next fails p = fails-Next p
step-Next resets_channel p = resets_channel-Next p
step-Next stops p = stops-Next p
step-Next stops_in_loop p = stops_in_loop-Next p
