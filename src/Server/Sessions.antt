-- ===== src/Server/Sessions.antt =====
-- The connections of a server of cobra/server.cpp over whole histories, in any order of the loops.
use cobra.Base.{
  arith, ℕ, zero, suc, ◌+◌, ◌*◌, ◌^◌, ◌≡◌, ◌≢◌, ◌<◌, ◌≤◌, ◌⊎◌, refl, ap, sym, ◌∙◌, List, [], ◌∷◌,
  map, none, some, inl, inr, length, true,
}
use cobra.Pool.{start_loops}
use cobra.Pool
use cobra.Connection.Turns.{IsUp, IsDown}
use cobra.Server.{TcpConnection, Server, System, find, conn_name, start, set_thread_num, new}
use cobra.Server.Names.{IsDecimal, conn_name_distinct}
use cobra.Server.Life.{
  Stage, starting, up, closing, leaving, gone, Fits, entry, expected, Seat, Inv,
}
use cobra.Server.Waiting.{about}
use cobra.Server.Drain.{all_turns, all_turns-length, Drained, drain}
use cobra.Server.Run.{Event, runs, run, opened, history, step-Goes}

-- A connection that is up, in the map, and of which the user was told once; or one that is down, out of
-- the map, and of which the user was told twice.
abbrev pub IsSettled : System → ℕ → TcpConnection → Type 0
IsSettled s p o =
    (IsUp o.connection × (o.told ≡ 1) × (find o.name s.server.connections ≡ some p))
    ⊎ (IsDown o.connection × (o.told ≡ 2) × (find o.name s.server.connections ≡ none))

-- A system in which nothing waits, with all its connections.
pub record Settled (s : System) : Type 0 where
  pub quiet : s.waiting ≡ []
  pub each : (p : ℕ) → p < s.made → (o : TcpConnection) × (s.objects p ≡ some o) × IsSettled s p o

module _ (decimal : ℕ → List ℕ) (name hostport : List ℕ) (base : ℕ) (good : IsDecimal decimal)
    (room : length hostport ≤ 19) where
  distinct :
      (i j : ℕ)
      → i < 2 ^ 31
      → j < 2 ^ 31
      → i ≢ j
      → conn_name decimal name hostport i ≢ conn_name decimal name hostport j
  distinct i j hi hj = conn_name_distinct decimal name hostport i j good room hi hj

  run-Inv_from :
      (s : System) (es : List Event)
      → s.made + length es ≤ 2 ^ 31
      → Inv decimal name hostport base s
      → (t : System) × (run decimal es s ≡ some t)
        × Inv decimal name hostport base t
        × (t.made ≤ s.made + length es)
  run-Inv_from s [] bound inv = (s, refl, inv, omega arith)
  run-Inv_from s (e ∷ es) bound inv =
      let (t, first, sound, more) =
        step-Goes decimal name hostport base distinct s e (omega (arith, bound)) inv in
      let (u, rest, sound', most) = run-Inv_from t es (omega (arith, bound, more)) sound in
      (u, rw first rest, sound', omega (arith, more, most))

  -- The server that start leaves.
  started : (ℕ → ℕ) → ℕ → Server
  started start_loop threads = record (set_thread_num threads (new base name hostport)) {
    pool = record {
      base_loop = base;
      started = true;
      num_threads = threads;
      next = 0;
      loops = start_loops start_loop 0 threads;
    };
    started = true;
    listening = true;
  }

  start-new :
      (start_loop : ℕ → ℕ) (threads : ℕ)
      → start start_loop (set_thread_num threads (new base name hostport))
        ≡ some (started start_loop threads)
  unfolding started start Pool.start Pool.new
  start-new start_loop threads = refl

  opened-Inv :
      (start_loop : ℕ → ℕ) (threads : ℕ)
      → Inv decimal name hostport base (opened (started start_loop threads))
  unfolding started
  opened-Inv start_loop threads = record {
    name_eq = refl;
    hostport_eq = refl;
    base_eq = refl;
    ready = ready threads;
    counted = refl;
    fresh = λ p _. refl;
    empty = λ p _. refl;
    seats = λ p h. absurd (omega (arith, h));
  }
    where
      ready :
          (n : ℕ) → (start_loops start_loop 0 n ≡ []) ⊎ (0 < length (start_loops start_loop 0 n))
      ready zero = inl refl
      ready (suc n) = inr (omega arith)

  -- While a host and port have at most 19 characters and at most 2 ^ 31 things happen, no assertion of
  -- the server or of a connection fails, in whatever order the loops run what waits and the connections
  -- close, and every connection that was made is at one stage of its life, with its entry in the map, the
  -- functor that waits for it and the number of times its user was told as that stage has them.
  pub history-Inv :
      (start_loop : ℕ → ℕ) (threads : ℕ) (es : List Event)
      → length es ≤ 2 ^ 31
      → (t : System) × (history decimal start_loop threads base name hostport es ≡ some t)
        × Inv decimal name hostport base t
  history-Inv start_loop threads es bound =
      let (t, e, inv, _) =
        run-Inv_from (opened (started start_loop threads)) es (omega (arith, bound))
          (opened-Inv start_loop threads) in
      (t, rw (history, start-new start_loop threads) e, inv)

  settle : (s : System) → s.waiting ≡ [] → Inv decimal name hostport base s → Settled s
  settle s quiet inv = record {
    quiet = quiet;
    each = λ p h.
        let seat : Seat decimal name hostport base s p = inv.seats p h in
        let queued : expected seat.stage base seat.object.loop p ≡ [] =
          sym seat.queued ∙ ap (about p) quiet in
        (
          seat.object,
          seat.stands,
          go p seat.stage seat.object queued seat.fits
              (ap (λ k. find k s.server.connections) seat.named ∙ seat.mapped),
        );
  }
    where
      go :
          (p : ℕ) (st : Stage) (o : TcpConnection)
          → expected st base o.loop p ≡ []
          → Fits st o
          → find o.name s.server.connections ≡ entry st p
          → IsSettled s p o
      go p starting o e f m = cc
      go p up o e f m = inl (f.0, f.1, m)
      go p closing o e f m = cc
      go p leaving o e f m = cc
      go p gone o e f m = inr (f.0, f.1, m)

  -- While a host and port have at most 19 characters and at most 2 ^ 31 things have happened, at most
  -- two turns for each functor that waits, of loops in some order, end with nothing that waits: then the
  -- connections that are up are in the map and their user was told once, and all others are out of it
  -- and their user was told twice.
  pub history-Settled :
      (start_loop : ℕ → ℕ) (threads : ℕ) (es : List Event)
      → length es ≤ 2 ^ 31
      → (t : System) × (loops : List ℕ) × (u : System) × (history decimal start_loop threads base
            name hostport es
          ≡ some t)
        × (length loops ≤ 2 * length t.waiting)
        × (run decimal (map runs loops) t ≡ some u)
        × (u.made ≡ t.made)
        × Settled u
  history-Settled start_loop threads es bound =
      let (t, e, inv, most) =
        run-Inv_from (opened (started start_loop threads)) es (omega (arith, bound))
          (opened-Inv start_loop threads) in
      let d : Drained decimal name hostport base distinct t (all_turns t.waiting) =
        drain decimal name hostport base distinct (all_turns t.waiting) t t.waiting refl
          (omega arith) (omega (arith, most, bound)) inv in
      (
        t,
        d.loops,
        d.end,
        rw (history, start-new start_loop threads) e,
        omega (arith, d.few, all_turns-length t.waiting),
        d.runs_to,
        d.made,
        settle d.end d.quiet d.sound,
      )
