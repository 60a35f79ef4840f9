-- ===== src/Server/Life.antt =====
-- The life of a connection of a server, cobra/server.cpp and cobra/tcp_connection.cpp: what a system holds
-- for a connection at each stage, and for all connections together.
use cobra.Base.{
  arith, ℕ_discrete, ℕ, ◌≡◌, ◌≢◌, ◌<◌, ◌≤◌, refl, ap, sym, subst, ◌∙◌, List, [], ◌∷◌, ◌++◌, Option,
  none, some,
}
use cobra.Poll.{update}
use cobra.Poll.Invariant.{update_ne}
use cobra.Pool.Rounds.{IsReady}
use cobra.Connection.Turns.{IsNew, IsUp, IsDown}
use cobra.Server.{
  Functor, established, remove_in_loop, destroyed, TcpConnection, Server, System, find, conn_name,
}
use cobra.Server.Waiting.{target, about, singleton, inhabited}

-- Made and not yet established; up; down and still in the map; out of the map; destroyed.
pub data Stage : Type 0 where
  starting up closing leaving gone : Stage

-- What the map holds for the connection at `p`.
abbrev pub entry : Stage → ℕ → Option ℕ
entry starting p = some p
entry up p = some p
entry closing p = some p
entry leaving p = none
entry gone p = none

-- What waits for it, where `l` is its loop and `base` is the server's.
abbrev pub expected : Stage → ℕ → ℕ → ℕ → List (ℕ × Functor)
expected starting base l p = (l, established p) ∷ []
expected up base l p = []
expected closing base l p = (base, remove_in_loop p) ∷ []
expected leaving base l p = (l, destroyed p) ∷ []
expected gone base l p = []

-- Its state, and how often the user has been told.
abbrev pub Fits : Stage → TcpConnection → Type 0
Fits starting o = IsNew o.connection × (o.told ≡ 0)
Fits up o = IsUp o.connection × (o.told ≡ 1)
Fits closing o = IsDown o.connection × (o.told ≡ 2)
Fits leaving o = IsDown o.connection × (o.told ≡ 2)
Fits gone o = IsDown o.connection × (o.told ≡ 2)

-- The stage of a connection for which a functor waits.
abbrev pub stage_of : Functor → Stage
stage_of (established p) = starting
stage_of (remove_in_loop p) = closing
stage_of (destroyed p) = leaving

-- What waits for a connection tells its stage.
pub due :
    (st : Stage) (f : Functor) (base l k : ℕ) (us vs : List (ℕ × Functor))
    → us ++ (l, f) ∷ vs ≡ expected st base k (target f)
    → (st ≡ stage_of f) × (us ++ vs ≡ [])
due starting f base l k us vs e =
    let (x, nothing) = singleton us (l, f) vs (k, established (target f)) e in
    (sym (ap (λ (y : ℕ × Functor). stage_of y.1) x), nothing)
due up f base l k us vs e = absurd (inhabited us (l, f) vs e)
due closing f base l k us vs e =
    let (x, nothing) = singleton us (l, f) vs (base, remove_in_loop (target f)) e in
    (sym (ap (λ (y : ℕ × Functor). stage_of y.1) x), nothing)
due leaving f base l k us vs e =
    let (x, nothing) = singleton us (l, f) vs (k, destroyed (target f)) e in
    (sym (ap (λ (y : ℕ × Functor). stage_of y.1) x), nothing)
due gone f base l k us vs e = absurd (inhabited us (l, f) vs e)

module _ (decimal : ℕ → List ℕ) (name hostport : List ℕ) (base : ℕ) where
  abbrev pub key : ℕ → List ℕ
  key p = conn_name decimal name hostport p

  -- A connection at one of its stages.
  pub record Seat (s : System) (p : ℕ) : Type 0 where
    pub stage : Stage
    pub object : TcpConnection
    pub stands : s.objects p ≡ some object
    pub named : object.name ≡ key p
    pub mapped : find (key p) s.server.connections ≡ entry stage p
    pub queued : about p s.waiting ≡ expected stage base object.loop p
    pub fits : Fits stage object

  pub record Inv (s : System) : Type 0 where
    pub name_eq : s.server.name ≡ name
    pub hostport_eq : s.server.hostport ≡ hostport
    pub base_eq : s.server.pool.base_loop ≡ base
    pub ready : IsReady s.server.pool
    pub counted : s.server.next_conn_id ≡ s.made
    pub fresh : (p : ℕ) → s.made ≤ p → about p s.waiting ≡ []
    pub empty : (p : ℕ) → s.made ≤ p → s.objects p ≡ none
    pub seats : (p : ℕ) → p < s.made → Seat s p

  -- What two systems hold for the connection at `p` is the same.
  pub record Same (s t : System) (p : ℕ) : Type 0 where
    pub objects : t.objects p ≡ s.objects p
    pub mapped : p < s.made → find (key p) t.server.connections ≡ find (key p) s.server.connections
    pub waiting : about p t.waiting ≡ about p s.waiting

  pub Seat-Same : (s t : System) (p : ℕ) → p < s.made → Same s t p → Seat s p → Seat t p
  Seat-Same s t p h same seat = record {
    stage = seat.stage;
    object = seat.object;
    stands = same.objects ∙ seat.stands;
    named = seat.named;
    mapped = same.mapped h ∙ seat.mapped;
    queued = same.waiting ∙ seat.queued;
    fits = seat.fits;
  }

  -- A step at the connection at `p` that leaves every other one as it is.
  pub record Moved (s t : System) (p : ℕ) : Type 0 where
    pub server : t.server ≡ record s.server { connections = t.server.connections }
    pub made : t.made ≡ s.made
    pub others : (q : ℕ) → q ≢ p → Same s t q

  pub Inv-Moved : (s t : System) (p : ℕ) → p < s.made → Inv s → Moved s t p → Seat t p → Inv t
  Inv-Moved s t p h inv moved seat = record {
    name_eq = ap (λ (x : Server). x.name) moved.server ∙ inv.name_eq;
    hostport_eq = ap (λ (x : Server). x.hostport) moved.server ∙ inv.hostport_eq;
    base_eq = ap (λ (x : Server). x.pool.base_loop) moved.server ∙ inv.base_eq;
    ready = subst IsReady (sym (ap (λ (x : Server). x.pool) moved.server)) inv.ready;
    counted = ap (λ (x : Server). x.next_conn_id) moved.server ∙ inv.counted ∙ sym moved.made;
    fresh = λ q k.
        let far : s.made ≤ q = subst (λ n. n ≤ q) moved.made k in
        (moved.others q (λ e. absurd (omega (arith, h, far, e)))).waiting ∙ inv.fresh q far;
    empty = λ q k.
        let far : s.made ≤ q = subst (λ n. n ≤ q) moved.made k in
        (moved.others q (λ e. absurd (omega (arith, h, far, e)))).objects ∙ inv.empty q far;
    seats = λ q k. elim (ℕ_discrete q p) [
      | yes e ↦ subst (Seat t) (sym e) seat
      | no ne ↦
          (let h' : q < s.made = subst (λ n. q < n) moved.made k in
            Seat-Same s t q h' (moved.others q ne) (inv.seats q h'))
    ];
  }

  -- A step of the object at `p` and of what waits for it.
  pub Moved-object :
      (s : System) (p : ℕ) (o : TcpConnection) (fs : List (ℕ × Functor))
      → ((q : ℕ) → q ≢ p → about q fs ≡ about q s.waiting)
      → Moved s (record s { objects = update s.objects p (some o); waiting = fs }) p
  Moved-object s p o fs h = record {
    server = refl;
    made = refl;
    others = λ q ne. record {
      objects = update_ne s.objects p q (some o) (λ e. ne (sym e));
      mapped = λ _. refl;
      waiting = h q ne;
    };
  }
