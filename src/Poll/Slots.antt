-- ===== src/Poll/Slots.antt =====
-- The lists behind PollPoller's pollfds_: cobra/poller/poll_poller.cpp.
use cobra.Base.{
  ℕ, zero, suc, ◌<◌, ◌≡◌, refl, ap, List, [], ◌∷◌, ◌++◌, map, some, length, get_elem?, set, arith,
  ◌⊎◌, inl, inr,
}
use cobra.Poll.{pop_back}

module _ {ℓ} {A : Type ℓ} where
  pub get_elem?-pop_back :
      (xs : List A) (i : ℕ) (v : A)
      → get_elem? (pop_back xs) i ≡ some v
      → (suc i < length xs) × (get_elem? xs i ≡ some v)
  get_elem?-pop_back [] i v e = cc
  get_elem?-pop_back (x ∷ []) i v e = cc
  get_elem?-pop_back (x ∷ y ∷ xs) zero v e = (omega arith, e)
  get_elem?-pop_back (x ∷ y ∷ xs) (suc i) v e =
      let (l, g) = get_elem?-pop_back (y ∷ xs) i v e in (omega arith, g)

  pub pop_back-get_elem? :
      (xs : List A) (i : ℕ) → suc i < length xs → get_elem? (pop_back xs) i ≡ get_elem? xs i
  pop_back-get_elem? [] i h = absurd (omega arith)
  pop_back-get_elem? (x ∷ []) i h = absurd (omega arith)
  pop_back-get_elem? (x ∷ y ∷ xs) zero h = refl
  pop_back-get_elem? (x ∷ y ∷ xs) (suc i) h = pop_back-get_elem? (y ∷ xs) i (omega arith)

  pub get_elem?-lt : (xs : List A) (i : ℕ) (v : A) → get_elem? xs i ≡ some v → i < length xs
  get_elem?-lt [] i v e = cc
  get_elem?-lt (x ∷ xs) zero v e = omega arith
  get_elem?-lt (x ∷ xs) (suc i) v e = omega (arith, get_elem?-lt xs i v e)

  pub get_elem?-snoc :
      (xs : List A) (x : A) (i : ℕ) (v : A)
      → get_elem? (xs ++ x ∷ []) i ≡ some v
      → (get_elem? xs i ≡ some v) ⊎ ((i ≡ length xs) × (v ≡ x))
  get_elem?-snoc [] x zero v e = inr (refl, cc)
  get_elem?-snoc [] x (suc i) v e = cc
  get_elem?-snoc (y ∷ xs) x zero v e = inl e
  get_elem?-snoc (y ∷ xs) x (suc i) v e = elim (get_elem?-snoc xs x i v e) [
    | inl old ↦ inl old
    | inr (at, new) ↦ inr (ap suc at, new)
  ]

  pub snoc-get_elem?_old :
      (xs : List A) (x : A) (i : ℕ) (v : A)
      → get_elem? xs i ≡ some v
      → get_elem? (xs ++ x ∷ []) i ≡ some v
  snoc-get_elem?_old [] x i v e = cc
  snoc-get_elem?_old (y ∷ xs) x zero v e = e
  snoc-get_elem?_old (y ∷ xs) x (suc i) v e = snoc-get_elem?_old xs x i v e

  pub snoc-get_elem?_new : (xs : List A) (x : A) → get_elem? (xs ++ x ∷ []) (length xs) ≡ some x
  snoc-get_elem?_new [] x = refl
  snoc-get_elem?_new (y ∷ xs) x = snoc-get_elem?_new xs x

module _ {ℓ κ} {A : Type ℓ} {B : Type κ} (f : A → B) where
  pub map-get_elem? :
      (xs : List A) (i : ℕ) (x : A) → get_elem? xs i ≡ some x → get_elem? (map f xs) i ≡ some (f x)
  map-get_elem? [] i x e = cc
  map-get_elem? (y ∷ xs) zero x e = cc
  map-get_elem? (y ∷ xs) (suc i) x e = map-get_elem? xs i x e

  pub map-set : (xs : List A) (i : ℕ) (x : A) → map f (set xs i x) ≡ set (map f xs) i (f x)
  map-set [] i x = refl
  map-set (y ∷ xs) zero x = refl
  map-set (y ∷ xs) (suc i) x = ap (◌∷◌ (f y)) (map-set xs i x)

  pub map-pop_back : (xs : List A) → map f (pop_back xs) ≡ pop_back (map f xs)
  map-pop_back [] = refl
  map-pop_back (x ∷ []) = refl
  map-pop_back (x ∷ y ∷ xs) = ap (◌∷◌ (f x)) (map-pop_back (y ∷ xs))

  pub map-snoc : (xs : List A) (x : A) → map f (xs ++ x ∷ []) ≡ map f xs ++ f x ∷ []
  map-snoc [] x = refl
  map-snoc (y ∷ xs) x = ap (◌∷◌ (f y)) (map-snoc xs x)

  pub get_elem?-map :
      (xs : List A) (i : ℕ) (y : B)
      → get_elem? (map f xs) i ≡ some y
      → (x : A) × (get_elem? xs i ≡ some x) × (f x ≡ y)
  get_elem?-map [] i y e = cc
  get_elem?-map (x ∷ xs) zero y e = (x, refl, cc)
  get_elem?-map (x ∷ xs) (suc i) y e = get_elem?-map xs i y e

  pub length-map : (xs : List A) → length (map f xs) ≡ length xs
  length-map [] = refl
  length-map (x ∷ xs) = ap suc (length-map xs)

module _ {ℓ} {A : Type ℓ} where
  -- Writing what stands there already changes nothing.
  pub set_same : (xs : List A) (i : ℕ) (x : A) → get_elem? xs i ≡ some x → set xs i x ≡ xs
  set_same [] i x e = refl
  set_same (y ∷ xs) zero x e = cc
  set_same (y ∷ xs) (suc i) x e = ap (◌∷◌ y) (set_same xs i x e)
