-- ===== src/Server.antt =====
-- cobra/server.h and cobra/server.cpp: a server with its connections, the workers among which they are
-- dealt, and the functors that wait in the workers' loops. Connections are objects by address, in the order
-- in which they were made; none is freed. A failed assertion is `none`.
pub mod Names
pub mod Waiting
pub mod Life
pub mod Moves
pub mod Handlers
pub mod Run
pub mod Drain
pub mod Sessions
mod Tests
use cobra.Base.{
  ℕ, suc, ◌+◌, ◌%◌, ◌^◌, Bool, true, false, not, ◌&&◌, List, [], ◌∷◌, ◌++◌, Option, none, some,
  if◌then◌else◌, check, ◌>>=◌, ◌>>◌, take, ◌==◌,
}
use cobra.Poll.{update}
use cobra.Pool.{Pool, get_next_loop}
use cobra.Pool
use cobra.Connection.{
  Connection, Effect, connection_established, connection_destroyed, handle_close, shutdown,
}
use cobra.Connection
use cobra.Connection.Output.{calls}

-- What waits in a loop: a member function bound to a connection.
pub data Functor : Type 0 where
  established : ℕ → Functor
  remove_in_loop : ℕ → Functor
  destroyed : ℕ → Functor

-- A connection with its loop and its name, and how often the user's ConnectionCb has been called for it.
pub record TcpConnection : Type 0 where
  pub loop : ℕ
  pub name : List ℕ
  pub connection : Connection
  pub told : ℕ

pub record Server : Type 0 where
  pub name : List ℕ
  pub hostport : List ℕ
  pub pool : Pool
  pub started : Bool
  pub listening : Bool
  -- The static next_conn_id of EstablishConnection.
  pub next_conn_id : ℕ
  pub connections : List (List ℕ × ℕ)

-- A server among its connections, of which `made` exist, and the functors that wait, each with its loop.
pub record System : Type 0 where
  pub server : Server
  pub objects : ℕ → Option TcpConnection
  pub made : ℕ
  pub waiting : List (ℕ × Functor)

-- Server::Server
abbrev pub new : ℕ → List ℕ → List ℕ → Server
new base name hostport = record {
  name = name;
  hostport = hostport;
  pool = Pool.new base;
  started = false;
  listening = false;
  next_conn_id = 0;
  connections = [];
}

-- Server::SetThreadNum
abbrev pub set_thread_num : ℕ → Server → Server
set_thread_num threads s = record s { pool = record s.pool { num_threads = threads } }

-- Server::start; the loop's thread runs Acceptor::Listen at once.
unfoldable pub start : (ℕ → ℕ) → Server → Option Server
start start_loop s = elim (s.started) [
  | true ↦ some s
  | false ↦ (do
    pool ← Pool.start start_loop s.pool
    check (not s.listening)
    some (record s { pool = pool; listening = true; started = true }))
]

-- std::map by name: find, operator[] = and erase, with the count that erase returns.
abbrev pub same_name : List ℕ → List ℕ → Bool
same_name [] [] = true
same_name [] (y ∷ ys) = false
same_name (x ∷ xs) [] = false
same_name (x ∷ xs) (y ∷ ys) = (x == y) && same_name xs ys

abbrev pub find : List ℕ → List (List ℕ × ℕ) → Option ℕ
find n [] = none
find n ((m, p) ∷ cs) = if same_name n m then some p else find n cs

abbrev pub erase : List ℕ → List (List ℕ × ℕ) → List (List ℕ × ℕ)
erase n [] = []
erase n ((m, p) ∷ cs) = if same_name n m then erase n cs else (m, p) ∷ erase n cs

abbrev pub put : List ℕ → ℕ → List (List ℕ × ℕ) → List (List ℕ × ℕ)
put n p cs = (n, p) ∷ erase n cs

abbrev pub erased : Option ℕ → ℕ
erased none = 0
erased (some p) = 1

-- The name of a connection: ":%s#%d" in a buffer of 32 characters, behind the server's name. The text of
-- %d is a parameter.
abbrev pub conn_name : (ℕ → List ℕ) → List ℕ → List ℕ → ℕ → List ℕ
conn_name decimal name hostport id = name ++ take 31 (58 ∷ hostport ++ 35 ∷ decimal id)

-- Worker::queueInLoop of the loop `l`.
abbrev pub queue_in_loop : ℕ → Functor → System → System
queue_in_loop l f s = record s { waiting = s.waiting ++ (l, f) ∷ [] }

-- The outcome of a handler of the connection at `p`.
abbrev pub store : ℕ → TcpConnection → Connection × List Effect → System → System
store p o r s = record s {
  objects = update s.objects p (some (record o { connection = r.0; told = o.told + calls r.1 }));
}

-- TcpConnection::ConnectionEstablished and ConnectionDestroyed as functors.
unfoldable pub run_established : ℕ → System → Option System
run_established p s = do
  o ← s.objects p
  r ← connection_established o.connection
  some (store p o r s)

unfoldable pub run_destroyed : ℕ → System → Option System
run_destroyed p s = do o ← s.objects p; r ← connection_destroyed o.connection; some (store p o r s)

-- Server::EstablishConnection, in the base loop.
unfoldable pub establish_connection : (ℕ → List ℕ) → ℕ → System → Option System
establish_connection decimal fd s = do
  (loop, pool) ← get_next_loop s.server.pool
  let name : List ℕ = conn_name decimal s.server.name s.server.hostport s.server.next_conn_id
  let made : System = record s {
    server = record s.server {
      pool = pool;
      next_conn_id = suc s.server.next_conn_id % 2 ^ 32;
      connections = put name s.made s.server.connections;
    };
    objects =
        update s.objects s.made
          (some (record { loop = loop; name = name; connection = Connection.new fd; told = 0 }));
    made = suc s.made;
  }
  if loop == pool.base_loop
      then run_established s.made made
      else some (queue_in_loop loop (established s.made) made)

-- Server::RemoveConnectionInLoop
unfoldable pub remove_connection_in_loop : ℕ → System → Option System
remove_connection_in_loop p s = do
  o ← s.objects p
  check (erased (find o.name s.server.connections) == 1)
  some (
      queue_in_loop o.loop (destroyed p)
        (record s { server = record s.server { connections = erase o.name s.server.connections } }))

-- Server::RemoveConnection, in the loop `l`.
unfoldable pub remove_connection : ℕ → ℕ → System → Option System
remove_connection l p s =
    if l == s.server.pool.base_loop
    then remove_connection_in_loop p s
    else some (queue_in_loop s.server.pool.base_loop (remove_in_loop p) s)

-- TcpConnection::handleClose in the connection's loop; its close callback is RemoveConnection.
unfoldable pub close : ℕ → System → Option System
close p s = do
  o ← s.objects p
  r ← handle_close o.connection
  remove_connection o.loop p (store p o r s)

-- TcpConnection::shutdown
unfoldable pub shut : ℕ → System → Option System
shut p s = do o ← s.objects p; some (store p o (shutdown o.connection) s)

-- The first functor that waits in the loop `l`, and the others.
pub take_first : ℕ → List (ℕ × Functor) → Option (Functor × List (ℕ × Functor))
take_first l [] = none
take_first l ((k, f) ∷ fs) = elim (k == l) [
  | true ↦ some (f, fs)
  | false ↦ (do (g, gs) ← take_first l fs; some (g, (k, f) ∷ gs))
]

unfoldable pub run_functor : Functor → System → Option System
run_functor (established p) s = run_established p s
run_functor (remove_in_loop p) s = remove_connection_in_loop p s
run_functor (destroyed p) s = run_destroyed p s
