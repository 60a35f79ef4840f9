-- ===== src/Server/Waiting.antt =====
-- The functors of cobra/server.cpp that wait for one connection.
use cobra.Base.{
  ℕ, ◌≡◌, ◌≢◌, refl, ap, sym, ◌∙◌, Bool, List, [], ◌∷◌, ◌++◌, none, some, if◌then◌else◌, ◌==◌,
  ==_self, ==_ne, ==_iff, Bool-cases, inl, inr, append-nil,
}
use cobra.Server.{Functor, established, remove_in_loop, destroyed, take_first}

abbrev pub target : Functor → ℕ
target (established p) = p
target (remove_in_loop p) = p
target (destroyed p) = p

abbrev pub about : ℕ → List (ℕ × Functor) → List (ℕ × Functor)
about p [] = []
about p ((l, f) ∷ fs) = if target f == p then (l, f) ∷ about p fs else about p fs

pub about-append :
    (p : ℕ) (xs ys : List (ℕ × Functor)) → about p (xs ++ ys) ≡ about p xs ++ about p ys
about-append p [] ys = refl
about-append p ((l, f) ∷ xs) ys = elim (Bool-cases (target f == p)) [
  | inl e ↦ rw e (ap (◌∷◌ (l, f)) (about-append p xs ys))
  | inr e ↦ rw e (about-append p xs ys)
]

-- A functor that is queued for another connection, and one that is the only one for its own.
pub about-queue_ne :
    (p l : ℕ) (f : Functor) (xs : List (ℕ × Functor))
    → target f ≢ p
    → about p (xs ++ (l, f) ∷ []) ≡ about p xs
about-queue_ne p l f xs ne =
    about-append p xs ((l, f) ∷ []) ∙ rw (==_ne (target f) p ne) (append-nil (about p xs))

pub about-queue :
    (p l : ℕ) (f : Functor) (xs : List (ℕ × Functor))
    → target f ≡ p
    → about p xs ≡ []
    → about p (xs ++ (l, f) ∷ []) ≡ (l, f) ∷ []
about-queue p l f xs e n =
    about-append p xs ((l, f) ∷ [])
    ∙ ap (λ k. k ++ about p ((l, f) ∷ [])) n
    ∙ ap (λ (b : Bool). if b then (l, f) ∷ [] else []) (ap (λ k. k == p) e ∙ ==_self p)

-- A loop that has no functor, or the first of its functors between the others.
pub data First (l : ℕ) (xs : List (ℕ × Functor)) : Type 0 where
  nothing : take_first l xs ≡ none → First l xs
  found :
      (f : Functor) (us vs : List (ℕ × Functor))
      → xs ≡ us ++ (l, f) ∷ vs
      → take_first l xs ≡ some (f, us ++ vs)
      → First l xs

pub first : (l : ℕ) (xs : List (ℕ × Functor)) → First l xs
unfolding take_first
first l [] = nothing refl
first l ((k, g) ∷ xs) = elim (Bool-cases (k == l)) [
  | inl h ↦ found g [] xs (ap (λ j. (j, g) ∷ xs) ((==_iff k l).0 h)) (rw (take_first, h) refl)
  | inr h ↦ elim (first l xs) [
    | nothing n ↦ nothing (rw (take_first, h, n) refl)
    | found f us vs e t ↦ found f ((k, g) ∷ us) vs (ap (◌∷◌ (k, g)) e) (rw (take_first, h, t) refl)
  ]
]

-- The functor of a loop that comes first, and what waits behind for its connection and for another one.
pub about_ne :
    (p l : ℕ) (f : Functor) (us vs : List (ℕ × Functor))
    → target f ≢ p
    → about p (us ++ vs) ≡ about p (us ++ (l, f) ∷ vs)
about_ne p l f us vs ne =
    about-append p us vs ∙ sym (about-append p us ((l, f) ∷ vs) ∙ rw (==_ne (target f) p ne) refl)

pub about_self :
    (l : ℕ) (f : Functor) (us vs : List (ℕ × Functor))
    → about (target f) (us ++ (l, f) ∷ vs) ≡ about (target f) us ++ (l, f) ∷ about (target f) vs
about_self l f us vs = about-append (target f) us ((l, f) ∷ vs) ∙ rw (==_self (target f)) refl

pub singleton :
    (us : List (ℕ × Functor)) (x : ℕ × Functor) (vs : List (ℕ × Functor)) (y : ℕ × Functor)
    → us ++ x ∷ vs ≡ y ∷ []
    → (x ≡ y) × (us ++ vs ≡ [])
singleton [] x vs y e = (cc, cc)
singleton (u ∷ []) x vs y e = cc
singleton (u ∷ w ∷ us) x vs y e = cc

pub inhabited :
    (us : List (ℕ × Functor)) (x : ℕ × Functor) (vs : List (ℕ × Functor)) → us ++ x ∷ vs ≡ [] → ⊥
inhabited [] x vs e = cc
inhabited (u ∷ us) x vs e = cc
