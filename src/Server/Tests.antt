-- ===== src/Server/Tests.antt =====
-- Runs of cobra/server.cpp with the decimal texts of base/LogStream.cc for %d.
use cobra.Base.{
  arith, ℕ, ◌+◌, ◌*◌, ◌^◌, ◌≡◌, ◌<◌, ◌≤◌, refl, ap, sym, ◌∙◌, List, [], ◌∷◌, map, Option, none,
  some, pos, length,
}
use cobra.LogStream.{reverse_onto, convert_loop}
use cobra.LogStream.Texts.{number_in, number_in-reverse_onto}
use cobra.LogStream.Digits.{convert_loop-Reads}
use cobra.LogStream.Convert.{length-reverse_onto}
use cobra.Server.{System, conn_name}
use cobra.Server.Names.{IsDecimal}
use cobra.Server.Life.{Inv}
use cobra.Server.Run.{Event, accepts, runs, closes, shuts, run, history}
use cobra.Server.Sessions.{Settled, history-Inv, history-Settled}

abbrev or_empty : Option (List ℕ) → List ℕ
or_empty none = []
or_empty (some ds) = ds

-- Ten digits are enough below 2 ^ 31.
abbrev decimal : ℕ → List ℕ
decimal i = reverse_onto (or_empty (convert_loop 10 (pos i))) []

number_in-decimal : (i : ℕ) → i < 2 ^ 31 → number_in 10 0 (decimal i) ≡ some i
number_in-decimal i h =
    let (ds, e, r, l) = convert_loop-Reads 9 (pos i) (omega arith) in
    ap (λ o. number_in 10 0 (reverse_onto (or_empty o) [])) e ∙ number_in-reverse_onto 10 i ds [] r

decimal-IsDecimal : IsDecimal decimal
decimal-IsDecimal = record {
  short = λ i h.
      let (ds, e, r, l) = convert_loop-Reads 9 (pos i) (omega arith) in
      omega
        (arith, ap (λ o. length (reverse_onto (or_empty o) [])) e, length-reverse_onto ds [], l);
  distinct = λ i j hi hj e.
      value (sym (number_in-decimal i hi) ∙ ap (number_in 10 0) e ∙ number_in-decimal j hj);
}
  where
    value : {i j : ℕ} → some i ≡ some j → i ≡ j
    value e = cc

-- "10.0.0.1:80"
abbrev hostport : List ℕ
hostport = 49 ∷ 48 ∷ 46 ∷ 48 ∷ 46 ∷ 48 ∷ 46 ∷ 49 ∷ 58 ∷ 56 ∷ 48 ∷ []

-- Two threads; one connection is closed by its peer before its loop has run what waits, then again.
abbrev events : List Event
events =
    accepts 5
    ∷ accepts 6
    ∷ closes 0
    ∷ runs 21
    ∷ closes 0
    ∷ shuts 1
    ∷ runs 22
    ∷ runs 9
    ∷ accepts 7
    ∷ shuts 1
    ∷ runs 21
    ∷ closes 0
    ∷ []

history-Inv_example :
    (t : System) × (history decimal (λ i. 21 + i) 2 9 [] hostport events ≡ some t)
    × Inv decimal [] hostport 9 t
history-Inv_example =
    history-Inv decimal [] hostport 9 decimal-IsDecimal (omega arith) (λ i. 21 + i) 2 events
      (omega arith)

history-Settled_example :
    (t : System) × (loops : List ℕ) × (u : System) × (history decimal
        (λ i. 21 + i)
        2
        9
        []
        hostport
        events
      ≡ some t)
    × (length loops ≤ 2 * length t.waiting)
    × (run decimal (map runs loops) t ≡ some u)
    × (u.made ≡ t.made)
    × Settled u
history-Settled_example =
    history-Settled decimal [] hostport 9 decimal-IsDecimal (omega arith) (λ i. 21 + i) 2 events
      (omega arith)

-- "123.123.123.123:12345"
abbrev long : List ℕ
long =
    49 ∷ 50 ∷ 51 ∷ 46 ∷ 49 ∷ 50 ∷ 51 ∷ 46 ∷ 49 ∷ 50 ∷ 51 ∷ 46 ∷ 49 ∷ 50 ∷ 51 ∷ 58 ∷ 49 ∷ 50 ∷ 51
    ∷ 52 ∷ 53 ∷ []

-- The host and port of an address of 15 characters, and numbers of nine digits: the names are the same.
long_names_test : conn_name decimal [] long 100000000 ≡ conn_name decimal [] long 100000001
unfolding convert_loop
long_names_test = refl
