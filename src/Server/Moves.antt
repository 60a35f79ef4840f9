-- ===== src/Server/Moves.antt =====
-- The steps of cobra/server.cpp, each of which leads a connection to its next stage.
use cobra.Base.{
  arith, ℕ, ◌+◌, ◌^◌, ◌≡◌, ◌≢◌, ◌<◌, ◌≤◌, refl, ap, sym, subst, ◌∙◌, List, [], ◌∷◌, ◌++◌, Option,
  some, false,
}
use cobra.Poll.{update}
use cobra.Poll.Invariant.{update_self}
use cobra.Connection.{is_connected, Effect, Connection, connecting}
use cobra.Connection
use cobra.Connection.Output.{calls}
use cobra.Connection.Turns.{
  connection_established-IsUp, connection_destroyed-IsDown, shutdown-IsUp, shutdown_down,
  calls-shutdown,
}
use cobra.Server.{
  Functor, destroyed, TcpConnection, System, find, erase, run_established, run_destroyed,
  remove_connection_in_loop, shut,
}
use cobra.Server.Names.{find-erase_self, find-erase_ne}
use cobra.Server.Waiting.{about, about-queue, about-queue_ne}
use cobra.Server.Life.{
  Stage, starting, up, closing, leaving, gone, entry, Fits, key, Seat, Inv, Inv-Moved, Moved-object,
}

-- TcpConnection::shutdown of an object.
abbrev after_shutdown : TcpConnection → TcpConnection
after_shutdown o = record o {
  connection = (Connection.shutdown o.connection).0;
  told = o.told + calls (Connection.shutdown o.connection).1;
}

unmoved :
    (P : TcpConnection → Type 0) (o : TcpConnection)
    → is_connected o.connection.state ≡ false
    → P (record o { told = o.told + 0 })
    → P (after_shutdown o)
unmoved P o e f =
    subst
      (λ (r : Connection × List Effect).
        P (record o { connection = r.0; told = o.told + calls r.1 }))
      (sym (shutdown_down o.connection e)) f

after_shutdown-Fits : (st : Stage) (o : TcpConnection) → Fits st o → Fits st (after_shutdown o)
after_shutdown-Fits starting o f =
    unmoved (Fits starting) o (ap is_connected f.0.0) (f.0, omega (arith, f.1))
after_shutdown-Fits up o f =
    (shutdown-IsUp o.connection f.0, omega (arith, calls-shutdown o.connection, f.1))
after_shutdown-Fits closing o f =
    unmoved (Fits closing) o (ap is_connected f.0.0) (f.0, omega (arith, f.1))
after_shutdown-Fits leaving o f =
    unmoved (Fits leaving) o (ap is_connected f.0.0) (f.0, omega (arith, f.1))
after_shutdown-Fits gone o f =
    unmoved (Fits gone) o (ap is_connected f.0.0) (f.0, omega (arith, f.1))

module _ (decimal : ℕ → List ℕ) (name hostport : List ℕ) (base : ℕ) where
  -- A step that succeeds and keeps the invariant and the number of connections.
  abbrev pub Steps : System → Option System → Type 0
  Steps s r = (t : System) × (r ≡ some t) × Inv decimal name hostport base t × (t.made ≡ s.made)

  -- A functor of the connection at `p` taken from what waits.
  pub record Taken (s : System) (p : ℕ) (fs : List (ℕ × Functor)) : Type 0 where
    pub others : (q : ℕ) → q ≢ p → about q fs ≡ about q s.waiting
    pub alone : about p fs ≡ []

  pub run_established-Steps :
      (s : System) (p : ℕ) (fs : List (ℕ × Functor))
      → p < s.made
      → Inv decimal name hostport base s
      → (seat : Seat decimal name hostport base s p) → seat.stage ≡ starting
      → Taken s p fs
      → Steps s (run_established p (record s { waiting = fs }))
  unfolding run_established
  run_established-Steps s p fs h inv seat at taken =
      let o : TcpConnection = seat.object in
      let fits : Fits starting o = subst (λ st. Fits st o) at seat.fits in
      let (c, es, e, once, is_up) = connection_established-IsUp o.connection fits.0.0 in
      let o' : TcpConnection = record o { connection = c; told = o.told + calls es } in
      let t : System = record s { objects = update s.objects p (some o'); waiting = fs } in
      (
        t,
        rw (seat.stands, e) refl,
        Inv-Moved decimal name hostport base s t p h inv
            (Moved-object decimal name hostport base s p o' fs taken.others)
            (record {
              stage = up;
              object = o';
              stands = update_self s.objects p (some o');
              named = seat.named;
              mapped = seat.mapped ∙ ap (λ st. entry st p) at;
              queued = taken.alone;
              fits = (is_up, omega (arith, once, fits.1));
            }),
        refl,
      )

  pub run_destroyed-Steps :
      (s : System) (p : ℕ) (fs : List (ℕ × Functor))
      → p < s.made
      → Inv decimal name hostport base s
      → (seat : Seat decimal name hostport base s p) → seat.stage ≡ leaving
      → Taken s p fs
      → Steps s (run_destroyed p (record s { waiting = fs }))
  unfolding run_destroyed
  run_destroyed-Steps s p fs h inv seat at taken =
      let o : TcpConnection = seat.object in
      let fits : Fits leaving o = subst (λ st. Fits st o) at seat.fits in
      let o' : TcpConnection = record o { told = o.told + 0 } in
      let t : System = record s { objects = update s.objects p (some o'); waiting = fs } in
      (
        t,
        rw (seat.stands, connection_destroyed-IsDown o.connection fits.0) refl,
        Inv-Moved decimal name hostport base s t p h inv
            (Moved-object decimal name hostport base s p o' fs taken.others)
            (record {
              stage = gone;
              object = o';
              stands = update_self s.objects p (some o');
              named = seat.named;
              mapped = seat.mapped ∙ ap (λ st. entry st p) at;
              queued = taken.alone;
              fits = (fits.0, omega (arith, fits.1));
            }),
        refl,
      )

  -- TcpConnection::shutdown leaves every stage as it is.
  pub shut-Steps :
      (s : System) (p : ℕ) → p < s.made → Inv decimal name hostport base s → Steps s (shut p s)
  unfolding shut
  shut-Steps s p h inv =
      let o' : TcpConnection = after_shutdown o in
      let t : System = record s { objects = update s.objects p (some o') } in
      (
        t,
        rw seat.stands refl,
        Inv-Moved decimal name hostport base s t p h inv
            (Moved-object decimal name hostport base s p o' s.waiting (λ q _. refl))
            (record {
              stage = seat.stage;
              object = o';
              stands = update_self s.objects p (some o');
              named = seat.named;
              mapped = seat.mapped;
              queued = seat.queued;
              fits = after_shutdown-Fits seat.stage o seat.fits;
            }),
        refl,
      )
    where
      seat : Seat decimal name hostport base s p
      seat = inv.seats p h

      o : TcpConnection
      o = seat.object

  -- The names of the connections that are made so far differ.
  module _
      (distinct : (i j : ℕ)
        → i < 2 ^ 31
        → j < 2 ^ 31
        → i ≢ j
        → key decimal name hostport base i ≢ key decimal name hostport base j) where
    pub remove_connection_in_loop-Steps :
        (s : System) (p : ℕ) (fs : List (ℕ × Functor))
        → s.made ≤ 2 ^ 31
        → p < s.made
        → Inv decimal name hostport base s
        → (seat : Seat decimal name hostport base s p) → seat.stage ≡ closing
        → Taken s p fs
        → Steps s (remove_connection_in_loop p (record s { waiting = fs }))
    unfolding remove_connection_in_loop
    remove_connection_in_loop-Steps s p fs bound h inv seat at taken =
        let o : TcpConnection = seat.object in
        let fits : Fits closing o = subst (λ st. Fits st o) at seat.fits in
        let cs : List (List ℕ × ℕ) = s.server.connections in
        let mapped : find o.name cs ≡ some p =
          ap (λ k. find k cs) seat.named ∙ seat.mapped ∙ ap (λ st. entry st p) at in
        let t : System = record s {
          server = record s.server { connections = erase o.name cs };
          waiting = fs ++ (o.loop, destroyed p) ∷ [];
        } in
        (
          t,
          rw (seat.stands, mapped) refl,
          Inv-Moved decimal name hostport base s t p h inv
              (record {
                server = refl;
                made = refl;
                others = λ q ne. record {
                  objects = refl;
                  mapped = λ k. find-erase_ne o.name (key decimal name hostport base q) cs (λ e.
                      distinct q p (omega (arith, k, bound)) (omega (arith, h, bound)) ne
                        (e ∙ seat.named));
                  waiting =
                      about-queue_ne q o.loop (destroyed p) fs (λ e. ne (sym e))
                      ∙ taken.others q ne;
                };
              })
              (record {
                stage = leaving;
                object = o;
                stands = seat.stands;
                named = seat.named;
                mapped =
                    ap (λ k. find k (erase o.name cs)) (sym seat.named) ∙ find-erase_self o.name cs;
                queued = about-queue p o.loop (destroyed p) fs refl taken.alone;
                fits = fits;
              }),
          refl,
        )
