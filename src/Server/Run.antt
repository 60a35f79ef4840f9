-- ===== src/Server/Run.antt =====
-- Whole histories of a server of cobra/server.cpp: connections are accepted, loops run what waits, and
-- peers and users close connections.

use cobra.Base.{
  arith, ℕ, suc, ◌^◌, ◌≡◌, ◌≢◌, ◌<◌, ◌≤◌, refl, ap, sym, ◌∙◌, List, [], ◌∷◌, ◌++◌, Option, none,
  some, ◌>>=◌, dec_lt, true, if◌then◌else◌,
}
use cobra.Channel.{is_none_event}
use cobra.Server.{
  Functor, established, remove_in_loop, destroyed, TcpConnection, Server, System, conn_name, start,
  set_thread_num, new, take_first, run_functor, close, shut, establish_connection,
}
use cobra.Server.Waiting.{
  target, about, about-append, inhabited, about_ne, about_self, nothing, found, first,
}
use cobra.Server.Life.{stage_of, due, Stage, starting, up, closing, leaving, gone, Fits, Seat, Inv}
use cobra.Server.Moves.{
  Steps, Taken, run_established-Steps, run_destroyed-Steps, shut-Steps,
  remove_connection_in_loop-Steps,
}
use cobra.Server.Handlers.{close-Steps, establish_connection-Makes}

-- A connection is accepted, a loop runs the first functor that waits in it, the channel of a connection
-- reports its end, and a user shuts a connection.
pub data Event : Type 0 where
  accepts : ℕ → Event
  runs : ℕ → Event
  closes : ℕ → Event
  shuts : ℕ → Event

-- A channel reports while it watches for some event: without one the poller ignores it, as it ignores
-- the channel of a connection that was not established yet. There are only connections that were made.
abbrev pub step : (ℕ → List ℕ) → Event → System → Option System
step decimal (accepts fd) s = establish_connection decimal fd s
step decimal (runs l) s = elim (take_first l s.waiting) [
  | none ↦ some s
  | some (f, fs) ↦ run_functor f (record s { waiting = fs })
]
step decimal (closes p) s = elim (s.objects p) [
  | none ↦ some s
  | some o ↦ (if is_none_event o.connection.channel then some s else close p s)
]
step decimal (shuts p) s = elim (s.objects p) [ none ↦ some s | some o ↦ shut p s ]

abbrev pub run : (ℕ → List ℕ) → List Event → System → Option System
run decimal [] s = some s
run decimal (e ∷ es) s = do t ← step decimal e s; run decimal es t

-- A system before its first connection.
abbrev pub opened : Server → System
opened server = record { server = server; objects = λ _. none; made = 0; waiting = [] }

-- A server that is made with its number of threads and started, and what happens to it.
abbrev pub history : (ℕ → List ℕ) → (ℕ → ℕ) → ℕ → ℕ → List ℕ → List ℕ → List Event → Option System
history decimal start_loop threads base name hostport es = do
  server ← start start_loop (set_thread_num threads (new base name hostport))
  run decimal es (opened server)

module _ (decimal : ℕ → List ℕ) (name hostport : List ℕ) (base : ℕ)
    (distinct : (i j : ℕ)
      → i < 2 ^ 31
      → j < 2 ^ 31
      → i ≢ j
      → conn_name decimal name hostport i ≢ conn_name decimal name hostport j) where
  run_functor-Steps :
      (s : System) (f : Functor) (fs : List (ℕ × Functor))
      → s.made ≤ 2 ^ 31
      → target f < s.made
      → Inv decimal name hostport base s
      → (seat : Seat decimal name hostport base s (target f)) → seat.stage ≡ stage_of f
      → Taken decimal name hostport base s (target f) fs
      → Steps decimal name hostport base s (run_functor f (record s { waiting = fs }))
  unfolding run_functor
  run_functor-Steps s (established p) fs bound h inv seat at taken =
      run_established-Steps decimal name hostport base s p fs h inv seat at taken
  run_functor-Steps s (remove_in_loop p) fs bound h inv seat at taken =
      remove_connection_in_loop-Steps decimal name hostport base distinct s p fs bound h inv seat at
        taken
  run_functor-Steps s (destroyed p) fs bound h inv seat at taken =
      run_destroyed-Steps decimal name hostport base s p fs h inv seat at taken

  -- The functor that a loop takes belongs to a connection at the stage for it.
  pub taken-Steps :
      (s : System) (l : ℕ) (f : Functor) (us vs : List (ℕ × Functor))
      → s.made ≤ 2 ^ 31
      → Inv decimal name hostport base s
      → s.waiting ≡ us ++ (l, f) ∷ vs
      → Steps decimal name hostport base s (run_functor f (record s { waiting = us ++ vs }))
  taken-Steps s l f us vs bound inv e =
      let self : about (target f) s.waiting ≡ about (target f) us ++ (l, f) ∷ about (target f) vs =
        ap (about (target f)) e ∙ about_self l f us vs in
      elim (dec_lt (target f) s.made) [
        | yes h ↦
            let seat : Seat decimal name hostport base s (target f) = inv.seats (target f) h in
            let (at, alone) =
              due seat.stage f base l seat.object.loop (about (target f) us) (about (target f) vs)
                (sym self ∙ seat.queued) in
            run_functor-Steps s f (us ++ vs) bound h inv seat at (record {
              others = λ q ne. about_ne q l f us vs (λ k. ne (sym k)) ∙ ap (about q) (sym e);
              alone = about-append (target f) us vs ∙ alone;
            })
        | no n ↦ absurd (
            inhabited (about (target f) us) (l, f) (about (target f) vs)
              (sym self ∙ inv.fresh (target f) (omega (arith, n))))
      ]

  -- A step that succeeds and makes one connection at most.
  abbrev pub Goes : System → Option System → Type 0
  Goes s r = (t : System) × (r ≡ some t) × Inv decimal name hostport base t × (t.made ≤ suc s.made)

  Steps-Goes : (s : System) (r : Option System) → Steps decimal name hostport base s r → Goes s r
  Steps-Goes s r (t, e, inv, same) = (t, e, inv, omega (arith, same))

  close-Goes :
      (s : System) (p : ℕ)
      → s.made ≤ 2 ^ 31
      → p < s.made
      → Inv decimal name hostport base s
      → Goes s (step decimal (closes p) s)
  close-Goes s p bound h inv = rw (step, seat.stands) (go seat.stage seat.fits refl)
    where
      seat : Seat decimal name hostport base s p
      seat = inv.seats p h

      o : TcpConnection
      o = seat.object

      report : Option System
      report = if is_none_event o.connection.channel then some s else close p s

      still : is_none_event o.connection.channel ≡ true → Goes s report
      still e = rw e (s, refl, inv, omega arith)

      go : (st : Stage) → Fits st o → seat.stage ≡ st → Goes s report
      go starting f e = still f.0.1
      go up f e = rw f.0.1 (
          Steps-Goes s (close p s)
            (close-Steps decimal name hostport base distinct s p bound h inv seat e))
      go closing f e = still f.0.1
      go leaving f e = still f.0.1
      go gone f e = still f.0.1

  pub step-Goes :
      (s : System) (e : Event)
      → s.made < 2 ^ 31
      → Inv decimal name hostport base s
      → Goes s (step decimal e s)
  step-Goes s (accepts fd) bound inv =
      let (t, e, sound, more) =
        establish_connection-Makes decimal name hostport base distinct s fd bound inv in
      (t, e, sound, omega (arith, more))
  step-Goes s (runs l) bound inv = elim (first l s.waiting) [
    | nothing e ↦ rw (step, e) (s, refl, inv, omega arith)
    | found f us vs at e ↦
        rw (step, e)
          (Steps-Goes s (run_functor f (record s { waiting = us ++ vs }))
            (taken-Steps s l f us vs (omega (arith, bound)) inv at))
  ]
  step-Goes s (closes p) bound inv = elim (dec_lt p s.made) [
    | yes h ↦ close-Goes s p (omega (arith, bound)) h inv
    | no n ↦ rw (step, inv.empty p (omega (arith, n))) (s, refl, inv, omega arith)
  ]
  step-Goes s (shuts p) bound inv = elim (dec_lt p s.made) [
    | yes h ↦
        rw (step, (inv.seats p h).stands)
          (Steps-Goes s (shut p s) (shut-Steps decimal name hostport base s p h inv))
    | no n ↦ rw (step, inv.empty p (omega (arith, n))) (s, refl, inv, omega arith)
  ]
