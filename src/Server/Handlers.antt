-- ===== src/Server/Handlers.antt =====
-- The handlers of cobra/server.cpp for a connection that is accepted and for one that closes.
use cobra.Base.{
  arith, ℕ, suc, ◌+◌, ◌%◌, ◌^◌, ◌≡◌, ◌≢◌, ◌<◌, ◌≤◌, refl, ap, sym, subst, ◌∙◌, List, [], ◌∷◌, ◌++◌,
  Option, some, ℕ_discrete, true, false, Bool-cases, ◌⊎◌, inl, inr, ◌==◌,
}
use cobra.Poll.{update}
use cobra.Poll.Invariant.{update_self, update_ne}
use cobra.Pool.{Pool}
use cobra.Pool.Rounds.{IsReady, get_next_loop-IsReady}
use cobra.Connection.{Connection, Effect, handle_close}
use cobra.Connection
use cobra.Connection.Output.{calls}
use cobra.Connection.Turns.{handle_close-IsDown, new-IsNew}
use cobra.Server.{
  established, remove_in_loop, TcpConnection, System, find, put, conn_name, queue_in_loop,
  remove_connection, close, establish_connection,
}
use cobra.Server.Names.{find-put_self, find-put_ne}
use cobra.Server.Waiting.{about, about-queue, about-queue_ne}
use cobra.Server.Life.{
  due, starting, up, closing, entry, expected, Fits, key, Seat, Inv, Same, Inv-Moved, Moved-object,
  Seat-Same,
}
use cobra.Server.Moves.{Steps, run_established-Steps, remove_connection_in_loop-Steps}

module _ (decimal : ℕ → List ℕ) (name hostport : List ℕ) (base : ℕ)
    (distinct : (i j : ℕ)
      → i < 2 ^ 31
      → j < 2 ^ 31
      → i ≢ j
      → conn_name decimal name hostport i ≢ conn_name decimal name hostport j) where
  -- Server::RemoveConnection for a connection that has just gone down.
  remove_connection-Steps :
      (s : System) (p : ℕ) (o' : TcpConnection)
      → s.made ≤ 2 ^ 31
      → p < s.made
      → Inv decimal name hostport base s
      → (seat : Seat decimal name hostport base s p) → seat.stage ≡ up
      → o'.name ≡ key decimal name hostport base p
      → Fits closing o'
      → Steps decimal name hostport base s
          (remove_connection o'.loop p (record s { objects = update s.objects p (some o') }))
  unfolding remove_connection
  remove_connection-Steps s p o' bound h inv seat at named fits =
      go (Bool-cases (o'.loop == s.server.pool.base_loop))
    where
      l : ℕ
      l = s.server.pool.base_loop

      t : System
      t = record s {
        objects = update s.objects p (some o');
        waiting = s.waiting ++ (l, remove_in_loop p) ∷ [];
      }

      nothing : about p s.waiting ≡ []
      nothing = seat.queued ∙ ap (λ st. expected st base seat.object.loop p) at

      there : Seat decimal name hostport base t p
      there = record {
        stage = closing;
        object = o';
        stands = update_self s.objects p (some o');
        named = named;
        mapped = seat.mapped ∙ ap (λ st. entry st p) at;
        queued =
            about-queue p l (remove_in_loop p) s.waiting refl nothing
            ∙ ap (λ k. (k, remove_in_loop p) ∷ []) inv.base_eq;
        fits = fits;
      }

      sound : Inv decimal name hostport base t
      sound =
          Inv-Moved decimal name hostport base s t p h inv
            (Moved-object decimal name hostport base s p o'
              (s.waiting ++ (l, remove_in_loop p) ∷ [])
              (λ q ne. about-queue_ne q l (remove_in_loop p) s.waiting (λ e. ne (sym e))))
            there

      go :
          ((o'.loop == l) ≡ true) ⊎ ((o'.loop == l) ≡ false)
          → Steps decimal name hostport base s
              (remove_connection o'.loop p (record s { objects = update s.objects p (some o') }))
      go (inl e) = rw e (
          remove_connection_in_loop-Steps decimal name hostport base distinct t p s.waiting bound h
            sound there refl
            (record {
              others =
                  λ q ne. sym (about-queue_ne q l (remove_in_loop p) s.waiting (λ f. ne (sym f)));
              alone = nothing;
            }))
      go (inr e) = (t, rw e refl, sound, refl)

  -- A connection that is up can close.
  pub close-Steps :
      (s : System) (p : ℕ)
      → s.made ≤ 2 ^ 31
      → p < s.made
      → Inv decimal name hostport base s
      → (seat : Seat decimal name hostport base s p) → seat.stage ≡ up
      → Steps decimal name hostport base s (close p s)
  unfolding close
  close-Steps s p bound h inv seat at =
      let o : TcpConnection = seat.object in
      let fits : Fits up o = subst (λ st. Fits st o) at seat.fits in
      let (c, es, e, once, down) = handle_close-IsDown o.connection fits.0 in
      rw (seat.stands, e)
        (remove_connection-Steps s p (record o { connection = c; told = o.told + calls es }) bound h
          inv seat at seat.named (down, omega (arith, once, fits.1)))

  -- A step that makes one more connection.
  abbrev pub Makes : System → Option System → Type 0
  Makes s r = (t : System) × (r ≡ some t) × Inv decimal name hostport base t × (t.made ≡ suc s.made)

  -- The system that Server::EstablishConnection leaves where the connection's loop is `l`.
  abbrev with_new : System → ℕ → ℕ → Pool → System
  with_new s fd l q =
      let n : List ℕ = conn_name decimal s.server.name s.server.hostport s.server.next_conn_id in
      record s {
        server = record s.server {
          pool = q;
          next_conn_id = suc s.server.next_conn_id % 2 ^ 32;
          connections = put n s.made s.server.connections;
        };
        objects =
            update s.objects s.made
              (some (record { loop = l; name = n; connection = Connection.new fd; told = 0 }));
        made = suc s.made;
      }

  with_new-Inv :
      (s : System) (fd l : ℕ) (q : Pool)
      → s.made < 2 ^ 31
      → Inv decimal name hostport base s
      → IsReady q
      → q.base_loop ≡ s.server.pool.base_loop
      → Inv decimal name hostport base (queue_in_loop l (established s.made) (with_new s fd l q))
  with_new-Inv s fd l q bound inv ready same = record {
    name_eq = inv.name_eq;
    hostport_eq = inv.hostport_eq;
    base_eq = same ∙ inv.base_eq;
    ready = ready;
    counted = omega (arith, inv.counted, bound);
    fresh = λ p k.
        about-queue_ne p l (established s.made) s.waiting (λ e. absurd (omega (arith, e, k)))
        ∙ inv.fresh p (omega (arith, k));
    empty = λ p k.
        update_ne s.objects s.made p (some o) (λ e. absurd (omega (arith, e, k)))
        ∙ inv.empty p (omega (arith, k));
    seats = λ p k. elim (ℕ_discrete p s.made) [
      | yes e ↦ subst (Seat decimal name hostport base t) (sym e) new_seat
      | no ne ↦
          Seat-Same decimal name hostport base s t p (below p k ne) (other p (below p k ne) ne)
            (inv.seats p (below p k ne))
    ];
  }
    where
      t : System
      t = queue_in_loop l (established s.made) (with_new s fd l q)

      n : List ℕ
      n = conn_name decimal s.server.name s.server.hostport s.server.next_conn_id

      named : n ≡ key decimal name hostport base s.made
      named = rw (inv.name_eq, inv.hostport_eq, inv.counted) refl

      below : (p : ℕ) → p < suc s.made → p ≢ s.made → p < s.made
      below p k ne = omega (arith, k, ne)

      o : TcpConnection
      o = record { loop = l; name = n; connection = Connection.new fd; told = 0 }

      new_seat : Seat decimal name hostport base t s.made
      new_seat = record {
        stage = starting;
        object = o;
        stands = update_self s.objects s.made (some o);
        named = named;
        mapped =
            ap (λ k. find k (put n s.made s.server.connections)) (sym named)
            ∙ find-put_self n s.made s.server.connections;
        queued =
            about-queue s.made l (established s.made) s.waiting refl
              (inv.fresh s.made (omega arith));
        fits = (new-IsNew fd, refl);
      }

      other : (p : ℕ) → p < s.made → p ≢ s.made → Same decimal name hostport base s t p
      other p k ne = record {
        objects = update_ne s.objects s.made p (some o) (λ e. ne (sym e));
        mapped = λ _.
            find-put_ne n (key decimal name hostport base p) s.made s.server.connections
              (λ e. distinct p s.made (omega (arith, k, bound)) bound ne (e ∙ named));
        waiting = about-queue_ne p l (established s.made) s.waiting (λ e. ne (sym e));
      }

  -- A connection that is accepted becomes the next one.
  pub establish_connection-Makes :
      (s : System) (fd : ℕ)
      → s.made < 2 ^ 31
      → Inv decimal name hostport base s
      → Makes s (establish_connection decimal fd s)
  unfolding establish_connection
  establish_connection-Makes s fd bound inv =
      let (l, q, e, ready, same) = get_next_loop-IsReady s.server.pool inv.ready in
      let sound = with_new-Inv s fd l q bound inv ready same in
      let t : System = queue_in_loop l (established s.made) (with_new s fd l q) in
      let seat : Seat decimal name hostport base t s.made = sound.seats s.made (omega arith) in
      let queued =
        about-queue s.made l (established s.made) s.waiting refl (inv.fresh s.made (omega arith)) in
      let tells : seat.stage ≡ starting =
        (due seat.stage (established s.made) base l seat.object.loop [] []
          (sym queued ∙ seat.queued)).0 in
      rw e (elim (Bool-cases (l == q.base_loop)) [
        | inl at_once ↦ rw at_once (
            run_established-Steps decimal name hostport base t s.made s.waiting (omega arith) sound
              seat tells
              (record {
                others = λ p ne.
                    sym (about-queue_ne p l (established s.made) s.waiting (λ f. ne (sym f)));
                alone = inv.fresh s.made (omega arith);
              }))
        | inr later ↦ (t, rw later refl, sound, refl)
      ])
