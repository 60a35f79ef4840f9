-- ===== src/Pool/Rounds.antt =====
-- The rounds of cobra/worker_thread_pool.cpp getNextLoop.
use cobra.Base.{
  ℕ, zero, suc, ◌≡◌, refl, subst, List, [], ◌∷◌, ◌++◌, Option, some, length, get_elem?, ◌>>=◌,
  arith, length-append, append_assoc, true, ◌⊎◌, inl, inr, ◌<◌,
}
use cobra.Pool.{Pool, get_next_loop, next_index}

-- The workers that `n` calls in a row return.
abbrev pub deal : ℕ → Pool → Option (List ℕ × Pool)
deal zero p = some ([], p)
deal (suc n) p = do (x, p') ← get_next_loop p; (xs, p'') ← deal n p'; some (x ∷ xs, p'')

get_elem?-middle :
    (pre : List ℕ) (x : ℕ) (post : List ℕ) → get_elem? (pre ++ x ∷ post) (length pre) ≡ some x
get_elem?-middle [] x post = refl
get_elem?-middle (y ∷ pre) x post = get_elem?-middle pre x post

-- A pool whose next worker stands behind `before`.
abbrev pub pool_at : ℕ → ℕ → List ℕ → ℕ → Pool
pool_at base threads loops next = record {
  base_loop = base;
  started = true;
  num_threads = threads;
  next = next;
  loops = loops;
}

get_next_loop-middle :
    (base threads : ℕ) (pre : List ℕ) (x : ℕ) (post : List ℕ)
    → get_next_loop (pool_at base threads (pre ++ x ∷ post) (length pre))
      ≡ some (
        x,
        pool_at base threads (pre ++ x ∷ post) (next_index (length (pre ++ x ∷ post)) (length pre)),
      )
unfolding get_next_loop
get_next_loop-middle base threads [] x post = refl
get_next_loop-middle base threads (y ∷ pre) x post = rw (get_elem?-middle pre x post) refl

next_index-last : (pre : List ℕ) (x : ℕ) → next_index (length (pre ++ x ∷ [])) (length pre) ≡ 0
unfolding next_index
next_index-last pre x = ground (arith, length-append pre (x ∷ []))

next_index-inner :
    (pre : List ℕ) (x y : ℕ) (post : List ℕ)
    → next_index (length (pre ++ x ∷ y ∷ post)) (length pre) ≡ length (pre ++ x ∷ [])
unfolding next_index
next_index-inner pre x y post =
    ground (arith, length-append pre (x ∷ y ∷ post), length-append pre (x ∷ []))

deal-rest :
    (base threads : ℕ) (pre : List ℕ) (x : ℕ) (post : List ℕ)
    → deal (suc (length post)) (pool_at base threads (pre ++ x ∷ post) (length pre))
      ≡ some (x ∷ post, pool_at base threads (pre ++ x ∷ post) 0)
deal-rest base threads pre x [] =
    rw (get_next_loop-middle base threads pre x [], next_index-last pre x) refl
deal-rest base threads pre x (y ∷ post) =
    let again =
      subst
        (λ ls.
          deal (suc (length post)) (pool_at base threads ls (length (pre ++ x ∷ [])))
          ≡ some (y ∷ post, pool_at base threads ls 0))
        (append_assoc pre (x ∷ []) (y ∷ post)) (deal-rest base threads (pre ++ x ∷ []) y post) in
    rw (get_next_loop-middle base threads pre x (y ∷ post), next_index-inner pre x y post, again)
      refl

-- As many calls of getNextLoop as there are workers return each worker once, in order, and then it is
-- the first one's turn again.
deal-length :
    (base threads : ℕ) (loops : List ℕ)
    → deal (length loops) (pool_at base threads loops 0)
      ≡ some (loops, pool_at base threads loops 0)
deal-length base threads [] = refl
deal-length base threads (x ∷ loops) = deal-rest base threads [] x loops

-- A pool whose next worker is one of its workers.
abbrev pub IsReady : Pool → Type 0
IsReady p = (p.loops ≡ []) ⊎ (p.next < length p.loops)

get_elem?_inside : (xs : List ℕ) (i : ℕ) → i < length xs → (x : ℕ) × (get_elem? xs i ≡ some x)
get_elem?_inside [] i h = absurd (omega arith)
get_elem?_inside (x ∷ xs) zero h = (x, refl)
get_elem?_inside (x ∷ xs) (suc i) h = get_elem?_inside xs i (omega arith)

pub get_next_loop-IsReady :
    (p : Pool)
    → IsReady p
    → (l : ℕ) × (q : Pool) × (get_next_loop p ≡ some (l, q))
      × IsReady q
      × (q.base_loop ≡ p.base_loop)
unfolding get_next_loop next_index
get_next_loop-IsReady p r = go p.loops r
  where
    go :
        (xs : List ℕ)
        → (xs ≡ []) ⊎ (p.next < length xs)
        → (l : ℕ) × (q : Pool) × (get_next_loop (record p { loops = xs }) ≡ some (l, q))
          × IsReady q
          × (q.base_loop ≡ p.base_loop)
    go [] r = (p.base_loop, record p { loops = [] }, refl, inl refl, refl)
    go (x ∷ xs) r =
        let (l, e) = get_elem?_inside (x ∷ xs) p.next (inside r) in
        (
          l,
          record p { loops = x ∷ xs; next = next_index (length (x ∷ xs)) p.next },
          rw e refl,
          inr bound,
          refl,
        )
      where
        inside : (x ∷ xs ≡ []) ⊎ (p.next < length (x ∷ xs)) → p.next < length (x ∷ xs)
        inside (inl e) = cc
        inside (inr h) = h

        bound : next_index (length (x ∷ xs)) p.next < length (x ∷ xs)
        bound = ground arith
