-- ===== src/AsyncLogging/Tests.antt =====
-- The asynchronous log of base/AsyncLogging.cc with buffers of four bytes.
use cobra.Base.{ℕ, ◌≡◌, refl, true, List, [], ◌∷◌, ◌++◌, Option, none, some, ◌⊎◌, arith}
use cobra.LogStream.{as_string}
use cobra.LogStream
use cobra.AsyncLogging.{append, spare, refill, turn, contents}
use cobra.AsyncLogging.Invariant.{Event, line, writes, System, initial, run}
use cobra.AsyncLogging.Delivery.{appended, run-appended}

-- "ab" fits; "cd" goes into the next buffer, for "ab" has filled the first; then the thread writes.
abbrev events : List Event
events = line (97 ∷ 98 ∷ []) ∷ line (99 ∷ 100 ∷ []) ∷ writes ∷ line (101 ∷ []) ∷ []

abbrev output_of : Option System → List ℕ
output_of none = []
output_of (some s) = s.back.output

run_test : output_of (run 4 [] events (initial 4)) ≡ 97 ∷ 98 ∷ 99 ∷ 100 ∷ []
unfolding append spare refill turn LogStream.append LogStream.reset
run_test = refl

run-appended_example :
    (t : System) × (run 4 [] events (initial 4) ≡ some t)
    × ((t.back.dropped ≡ true)
        ⊎ (t.back.output ++ (contents t.front.buffers ++ as_string t.front.current_buffer)
            ≡ appended 4 events))
run-appended_example = run-appended 4 [] events (omega arith)
