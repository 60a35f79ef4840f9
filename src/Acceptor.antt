-- ===== src/Acceptor.antt =====
-- cobra/acceptor.cpp and Accept of cobra/socket_wrapper.cpp: connections that are accepted, and what
-- happens to descriptors. A failed assertion and LOG_FATAL are `none`.
pub mod Descriptors
mod Tests
use cobra.Base.{ℕ, Bool, true, false, List, [], ◌∷◌, ◌++◌, Option, none, some, if◌then◌else◌, ◌>>=◌}
use cobra.Channel.{Channel, with_reading}
use cobra.Channel

-- The errors of accept(2) that Accept expects, and all others.
pub data Errno : Type 0 where
  e_again e_conn_aborted e_intr e_proto e_perm e_mfile unexpected : Errno

pub data AcceptResult : Type 0 where
  connected : ℕ → AcceptResult
  refused : Errno → AcceptResult

-- What the kernel gives and takes of descriptors, and the call of new_conn_cb_.
pub data Effect : Type 0 where
  got : ℕ → Effect
  closed : ℕ → Effect
  handed : ℕ → Effect

-- Acceptor; `none` for an idle_fd_ of -1.
pub record Acceptor : Type 0 where
  pub listen_fd : ℕ
  pub accept_channel : Channel
  pub has_new_conn_cb : Bool
  pub listenning : Bool
  pub idle_fd : Option ℕ

abbrev pub Outcome : Type 0
Outcome = Option (Acceptor × List Effect)

-- Acceptor::Acceptor; open(2) of /dev/null must succeed.
pub new : ℕ → Option ℕ → Outcome
new listen_fd idle_fd = do
  idle ← idle_fd
  some (
    record {
      listen_fd = listen_fd;
      accept_channel = record (Channel.new listen_fd) { has_read = true };
      has_new_conn_cb = false;
      listenning = false;
      idle_fd = some idle;
    },
    got listen_fd ∷ got idle ∷ [],
  )

-- Acceptor::SetNewConnectionCb
abbrev pub set_new_connection_cb : Acceptor → Acceptor
set_new_connection_cb a = record a { has_new_conn_cb = true }

-- Acceptor::Listen
abbrev pub listen : Acceptor → Acceptor
listen a = record a { listenning = true; accept_channel = with_reading a.accept_channel }

-- Accept: an error that is not expected is fatal.
abbrev pub accept : AcceptResult → Option AcceptResult
accept (refused unexpected) = none
accept r = some r

abbrev pub closes : Option ℕ → List Effect
closes none = []
closes (some fd) = closed fd ∷ []

abbrev pub gets : Option ℕ → List Effect
gets none = []
gets (some fd) = got fd ∷ []

abbrev pub is_mfile : Errno → Bool
is_mfile e_mfile = true
is_mfile _ = false

-- The part of HandleRead for an errno: without descriptors the spare one is given up for the connection
-- that waits, which is closed at once. `second` and `reopened` are what accept(2) and open(2) return.
abbrev pub make_room : Option ℕ → Option ℕ → Errno → Acceptor → Acceptor × List Effect
make_room second reopened e a =
    if is_mfile e
    then (
      record a { idle_fd = reopened },
      closes a.idle_fd ++ gets second ++ closes second ++ gets reopened,
    )
    else (a, [])

-- Acceptor::HandleRead
pub handle_read : AcceptResult → Option ℕ → Option ℕ → Acceptor → Outcome
handle_read first second reopened a = do
  r ← accept first
  some (elim r [
    | connected fd ↦ (a, got fd ∷ (if a.has_new_conn_cb then handed fd else closed fd) ∷ [])
    | refused e ↦ make_room second reopened e a
  ])

-- Acceptor::~Acceptor
abbrev pub destroy : Acceptor → List Effect
destroy a = closes a.idle_fd
