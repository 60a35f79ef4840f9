-- ===== src/Acceptor/Tests.antt =====
-- An acceptor that meets its limit of descriptors.
use cobra.Base.{◌+◌, ◌≡◌, refl, true, List, [], ◌∷◌, none, some, ◌==◌}
use cobra.Acceptor.{
  connected, refused, e_mfile, e_again, Effect, got, closed, handed, new, handle_read,
}
use cobra.Acceptor.Descriptors.{Event, life, given, released, one_if, life_lem}

abbrev events : List Event
events =
    (connected 7, none, none)
    ∷ (refused e_mfile, some 4, some 4)
    ∷ (refused e_again, none, none)
    ∷ (refused e_mfile, some 4, none)
    ∷ []

life_lem_example :
    (xs : List Effect) × (life 3 (some 4) true events ≡ some xs)
    × (given 4 xs ≡ released 4 xs + one_if (3 == 4))
life_lem_example = life_lem 4 3 4 true events refl

-- At the limit the connection that waits is closed by way of the spare descriptor.
events-effects :
    life 3 (some 4) true events
    ≡ some (
        got 3
        ∷ got 4
        ∷ got 7
        ∷ handed 7
        ∷ closed 4
        ∷ got 4
        ∷ closed 4
        ∷ got 4
        ∷ closed 4
        ∷ got 4
        ∷ closed 4
        ∷ [])
unfolding new handle_read
events-effects = refl
