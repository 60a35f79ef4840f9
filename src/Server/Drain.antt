-- ===== src/Server/Drain.antt =====
-- The turns that what waits in the loops of a server of cobra/server.cpp still takes.
use cobra.Base.{
  arith, ℕ, zero, suc, ◌+◌, ◌*◌, ◌^◌, ◌≡◌, ◌<◌, ◌≤◌, ◌≢◌, refl, ap, sym, ◌∙◌, List, [], ◌∷◌, ◌++◌,
  map, Option, none, some, ◌>>=◌, ◌>>◌, length, ==_self, Bool, true, false, ◌==◌, check,
}
use cobra.Connection.{connection_established, connection_destroyed, Connection, Effect}
use cobra.Server.{
  Functor, established, remove_in_loop, destroyed, TcpConnection, System, conn_name, find, erase,
  erased, queue_in_loop, store, take_first, run_established, run_destroyed,
  remove_connection_in_loop, run_functor,
}
use cobra.Server.Life.{Inv}
use cobra.Server.Run.{runs, run, step, taken-Steps}

-- How many turns of a loop a functor still takes, with the functor that it queues.
abbrev pub turns : Functor → ℕ
turns (established p) = 1
turns (remove_in_loop p) = 2
turns (destroyed p) = 1

abbrev pub all_turns : List (ℕ × Functor) → ℕ
all_turns [] = 0
all_turns ((l, f) ∷ fs) = turns f + all_turns fs

turns_positive : (f : Functor) → 1 ≤ turns f
turns_positive (established p) = omega arith
turns_positive (remove_in_loop p) = omega arith
turns_positive (destroyed p) = omega arith

all_turns-append : (xs ys : List (ℕ × Functor)) → all_turns (xs ++ ys) ≡ all_turns xs + all_turns ys
all_turns-append [] ys = omega arith
all_turns-append ((l, f) ∷ xs) ys = omega (arith, all_turns-append xs ys)

pub all_turns-length : (fs : List (ℕ × Functor)) → all_turns fs ≤ 2 * length fs
all_turns-length [] = omega arith
all_turns-length ((l, established p) ∷ fs) = omega (arith, all_turns-length fs)
all_turns-length ((l, remove_in_loop p) ∷ fs) = omega (arith, all_turns-length fs)
all_turns-length ((l, destroyed p) ∷ fs) = omega (arith, all_turns-length fs)

abbrev waiting_in : Option System → List (ℕ × Functor)
waiting_in none = []
waiting_in (some s) = s.waiting

stored :
    (s t : System) (p : ℕ) (o : TcpConnection) (r : Option (Connection × List Effect))
    → (do x ← r; some (store p o x s)) ≡ some t
    → t.waiting ≡ s.waiting
stored s t p o none e = cc
stored s t p o (some r) e = sym (ap waiting_in e)

-- A functor that runs takes one turn of those that are left.
run_functor-turns :
    (s t : System) (f : Functor)
    → run_functor f s ≡ some t
    → suc (all_turns t.waiting) ≡ turns f + all_turns s.waiting
unfolding run_functor run_established run_destroyed remove_connection_in_loop
run_functor-turns s t (established p) e = omega (arith, ap all_turns (go (s.objects p) e))
  where
    go :
        (o : Option TcpConnection)
        → (do c ← o; r ← connection_established c.connection; some (store p c r s)) ≡ some t
        → t.waiting ≡ s.waiting
    go none e = cc
    go (some o) e = stored s t p o (connection_established o.connection) e
run_functor-turns s t (destroyed p) e = omega (arith, ap all_turns (go (s.objects p) e))
  where
    go :
        (o : Option TcpConnection)
        → (do c ← o; r ← connection_destroyed c.connection; some (store p c r s)) ≡ some t
        → t.waiting ≡ s.waiting
    go none e = cc
    go (some o) e = stored s t p o (connection_destroyed o.connection) e
run_functor-turns s t (remove_in_loop p) e = omega (arith, go (s.objects p) e)
  where
    queued : TcpConnection → System
    queued o =
        queue_in_loop o.loop (destroyed p) (record s {
          server = record s.server { connections = erase o.name s.server.connections };
        })

    checked :
        (o : TcpConnection) (b : Bool)
        → (do check b; some (queued o)) ≡ some t
        → all_turns t.waiting ≡ suc (all_turns s.waiting)
    checked o true e =
        ap (λ k. all_turns (waiting_in k)) (sym e)
        ∙ all_turns-append s.waiting ((o.loop, destroyed p) ∷ [])
        ∙ omega arith
    checked o false e = cc

    go :
        (o : Option TcpConnection)
        → (do c ← o; check (erased (find c.name s.server.connections) == 1); some (queued c))
          ≡ some t
        → all_turns t.waiting ≡ suc (all_turns s.waiting)
    go none e = cc
    go (some o) e = checked o (erased (find o.name s.server.connections) == 1) e

-- A loop whose functor comes first of all takes that one.
step-runs :
    (decimal : ℕ → List ℕ) (s : System) (l : ℕ) (f : Functor) (fs : List (ℕ × Functor))
    → s.waiting ≡ (l, f) ∷ fs
    → step decimal (runs l) s ≡ run_functor f (record s { waiting = fs })
unfolding take_first
step-runs decimal s l f fs e = rw (step, e, ==_self l) refl

module _ (decimal : ℕ → List ℕ) (name hostport : List ℕ) (base : ℕ)
    (distinct : (i j : ℕ)
      → i < 2 ^ 31
      → j < 2 ^ 31
      → i ≢ j
      → conn_name decimal name hostport i ≢ conn_name decimal name hostport j) where
  -- Turns of the loops `ls` after which nothing waits.
  pub record Drained (s : System) (n : ℕ) : Type 0 where
    pub loops : List ℕ
    pub end : System
    pub few : length loops ≤ n
    pub runs_to : run decimal (map runs loops) s ≡ some end
    pub quiet : end.waiting ≡ []
    pub sound : Inv decimal name hostport base end
    pub made : end.made ≡ s.made

  pub drain :
      (n : ℕ) (s : System) (fs : List (ℕ × Functor))
      → s.waiting ≡ fs
      → all_turns fs ≤ n
      → s.made ≤ 2 ^ 31
      → Inv decimal name hostport base s
      → Drained s n
  drain n s [] e h bound inv = record {
    loops = [];
    end = s;
    few = omega arith;
    runs_to = refl;
    quiet = e;
    sound = inv;
    made = refl;
  }
  drain zero s ((l, f) ∷ fs) e h bound inv = absurd (omega (arith, h, turns_positive f))
  drain (suc n) s ((l, f) ∷ fs) e h bound inv =
      let (t, runs_f, sound, same) =
        taken-Steps decimal name hostport base distinct s l f [] fs bound inv e in
      let one = run_functor-turns (record s { waiting = fs }) t f runs_f in
      let d : Drained t n =
        drain n t t.waiting refl (omega (arith, one, h)) (omega (arith, same, bound)) sound in
      record {
        loops = l ∷ d.loops;
        end = d.end;
        few = omega (arith, d.few);
        runs_to = rw (step-runs decimal s l f fs e ∙ runs_f) d.runs_to;
        quiet = d.quiet;
        sound = d.sound;
        made = d.made ∙ same;
      }
