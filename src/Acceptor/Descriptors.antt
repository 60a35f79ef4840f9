-- ===== src/Acceptor/Descriptors.antt =====
-- Where the descriptors of cobra/acceptor.cpp go.
use cobra.Base.{
  arith, ℕ, ◌+◌, ◌≡◌, refl, ap, Bool, true, false, ◌&&◌, List, [], ◌∷◌, ◌++◌, Option, none, some,
  if◌then◌else◌, ◌>>=◌, ◌==◌,
}
use cobra.Channel
use cobra.Acceptor.{
  AcceptResult, connected, refused, e_again, e_conn_aborted, e_intr, e_proto, e_perm, e_mfile,
  unexpected, Effect, got, closed, handed, Acceptor, closes, gets, handle_read, new, destroy,
  set_new_connection_cb, listen,
}

abbrev pub one_if : Bool → ℕ
one_if true = 1
one_if false = 0

-- How often the kernel gave the descriptor `n`.
abbrev pub given : ℕ → List Effect → ℕ
given n [] = 0
given n (got fd ∷ es) = one_if (fd == n) + given n es
given n (_ ∷ es) = given n es

-- How often it was closed or handed on.
abbrev pub released : ℕ → List Effect → ℕ
released n [] = 0
released n (got fd ∷ es) = released n es
released n (closed fd ∷ es) = one_if (fd == n) + released n es
released n (handed fd ∷ es) = one_if (fd == n) + released n es

abbrev held : ℕ → Option ℕ → ℕ
held n none = 0
held n (some fd) = one_if (fd == n)

-- What accept(2) returns to HandleRead, again after the spare descriptor was closed, and open(2).
abbrev pub Event : Type 0
Event = AcceptResult × Option ℕ × Option ℕ

abbrev pub run : List Event → Acceptor → Option (Acceptor × List Effect)
run [] a = some (a, [])
run ((first, second, reopened) ∷ es) a = do
  (b, xs) ← handle_read first second reopened a
  (c, ys) ← run es b
  some (c, xs ++ ys)

-- An acceptor from its making to its end, with or without a callback.
abbrev pub life : ℕ → Option ℕ → Bool → List Event → Option (List Effect)
life listen_fd idle_fd has_cb es = do
  (a, xs) ← new listen_fd idle_fd
  (b, ys) ← run es (listen (if has_cb then set_new_connection_cb a else a))
  some (xs ++ ys ++ destroy b)

-- No error but those that Accept expects.
abbrev is_expected : AcceptResult → Bool
is_expected (refused unexpected) = false
is_expected _ = true

abbrev pub all_expected : List Event → Bool
all_expected [] = true
all_expected ((r, second, reopened) ∷ es) = is_expected r && all_expected es

given-append : (n : ℕ) (xs ys : List Effect) → given n (xs ++ ys) ≡ given n xs + given n ys
given-append n [] ys = omega arith
given-append n (got fd ∷ xs) ys = omega (arith, given-append n xs ys)
given-append n (closed fd ∷ xs) ys = given-append n xs ys
given-append n (handed fd ∷ xs) ys = given-append n xs ys

released-append :
    (n : ℕ) (xs ys : List Effect) → released n (xs ++ ys) ≡ released n xs + released n ys
released-append n [] ys = omega arith
released-append n (got fd ∷ xs) ys = released-append n xs ys
released-append n (closed fd ∷ xs) ys = omega (arith, released-append n xs ys)
released-append n (handed fd ∷ xs) ys = omega (arith, released-append n xs ys)

-- What was given and held is released or held.
abbrev Balance : ℕ → Acceptor → List Effect → Acceptor → Type 0
Balance n a es b = given n es + held n a.idle_fd ≡ released n es + held n b.idle_fd

room-Balance :
    (n : ℕ) (i s r : Option ℕ)
    → given n (closes i ++ gets s ++ closes s ++ gets r) + held n i
      ≡ released n (closes i ++ gets s ++ closes s ++ gets r) + held n r
room-Balance n none none none = refl
room-Balance n none none (some r) = omega arith
room-Balance n none (some s) none = omega arith
room-Balance n none (some s) (some r) = omega arith
room-Balance n (some i) none none = omega arith
room-Balance n (some i) none (some r) = omega arith
room-Balance n (some i) (some s) none = omega arith
room-Balance n (some i) (some s) (some r) = omega arith

handle_read-Balance :
    (n : ℕ) (r : AcceptResult) (second reopened : Option ℕ) (a : Acceptor)
    → is_expected r ≡ true
    → (b : Acceptor) × (es : List Effect) × (handle_read r second reopened a ≡ some (b, es))
      × Balance n a es b
unfolding handle_read
handle_read-Balance n (connected fd) second reopened a h = (
  a,
  got fd ∷ (if a.has_new_conn_cb then handed fd else closed fd) ∷ [],
  refl,
  go a.has_new_conn_cb,
)
  where
    go : (b : Bool) → Balance n a (got fd ∷ (if b then handed fd else closed fd) ∷ []) a
    go true = omega arith
    go false = omega arith
handle_read-Balance n (refused unexpected) second reopened a h = cc
handle_read-Balance n (refused e_mfile) second reopened a h = (
  record a { idle_fd = reopened },
  closes a.idle_fd ++ gets second ++ closes second ++ gets reopened,
  refl,
  room-Balance n a.idle_fd second reopened,
)
handle_read-Balance n (refused e_again) second reopened a h = (a, [], refl, refl)
handle_read-Balance n (refused e_conn_aborted) second reopened a h = (a, [], refl, refl)
handle_read-Balance n (refused e_intr) second reopened a h = (a, [], refl, refl)
handle_read-Balance n (refused e_proto) second reopened a h = (a, [], refl, refl)
handle_read-Balance n (refused e_perm) second reopened a h = (a, [], refl, refl)

first_expected : (b c : Bool) → (b && c) ≡ true → (b ≡ true) × (c ≡ true)
first_expected true c h = (refl, h)
first_expected false c h = cc

run-Balance :
    (n : ℕ) (es : List Event) (a : Acceptor)
    → all_expected es ≡ true
    → (b : Acceptor) × (xs : List Effect) × (run es a ≡ some (b, xs)) × Balance n a xs b
run-Balance n [] a h = (a, [], refl, refl)
run-Balance n ((r, second, reopened) ∷ es) a h =
    let (h₁, h₂) = first_expected (is_expected r) (all_expected es) h in
    let (b, xs, one, balance) = handle_read-Balance n r second reopened a h₁ in
    let (c, ys, rest, balance') = run-Balance n es b h₂ in
    (
      c,
      xs ++ ys,
      rw (one, rest) refl,
      omega (arith, balance, balance', given-append n xs ys, released-append n xs ys),
    )

destroy-released :
    (n : ℕ) (a : Acceptor) → (released n (destroy a) ≡ held n a.idle_fd) × (given n (destroy a) ≡ 0)
destroy-released n a = go a.idle_fd
  where
    go : (i : Option ℕ) → (released n (closes i) ≡ held n i) × (given n (closes i) ≡ 0)
    go none = (refl, refl)
    go (some fd) = (omega arith, refl)

-- An acceptor as its constructor leaves it.
abbrev made : ℕ → ℕ → Acceptor
made listen_fd idle = record {
  listen_fd = listen_fd;
  accept_channel = record (Channel.new listen_fd) { has_read = true };
  has_new_conn_cb = false;
  listenning = false;
  idle_fd = some idle;
}

rest :
    (n listen_fd idle : ℕ) (a : Acceptor) (es : List Event)
    → a.idle_fd ≡ some idle
    → all_expected es ≡ true
    → (xs : List Effect) × ((do
      (b, ys) ← run es a
      some ((got listen_fd ∷ got idle ∷ []) ++ ys ++ destroy b))
        ≡ some xs)
      × (given n xs ≡ released n xs + one_if (listen_fd == n))
rest n listen_fd idle a es e h =
    let (b, ys, runs, balance) = run-Balance n es a h in
    let (closed_last, none_given) = destroy-released n b in
    (
      (got listen_fd ∷ got idle ∷ []) ++ ys ++ destroy b,
      rw runs refl,
      omega (
        arith,
        balance,
        ap (held n) e,
        given-append n ys (destroy b),
        released-append n ys (destroy b),
        closed_last,
        none_given,
      ),
    )

-- From the making of an acceptor to its end, while accept(2) fails only in the ways that Accept expects,
-- whatever connections come and whether or not the spare descriptor is opened again: each descriptor is
-- closed or handed to the callback as often as the kernel gave it, and that of the listening socket once
-- less.
pub life_lem :
    (n listen_fd idle : ℕ) (has_cb : Bool) (es : List Event)
    → all_expected es ≡ true
    → (xs : List Effect) × (life listen_fd (some idle) has_cb es ≡ some xs)
      × (given n xs ≡ released n xs + one_if (listen_fd == n))
unfolding new
life_lem n listen_fd idle true es h =
    rest n listen_fd idle (listen (set_new_connection_cb (made listen_fd idle))) es refl h
life_lem n listen_fd idle false es h =
    rest n listen_fd idle (listen (made listen_fd idle)) es refl h
