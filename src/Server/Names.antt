-- ===== src/Server/Names.antt =====
-- The names of connections and the map of them: cobra/server.cpp.
use cobra.Base.{
  ℕ, ◌≤◌, ◌<◌, ◌^◌, ◌≡◌, ◌≢◌, refl, ap, sym, ◌∙◌, true, false, List, [], ◌∷◌, ◌++◌, none, some,
  if◌then◌else◌, length, length-append, take, take_all, arith, Bool-cases, inl, inr,
}
use cobra.Server.{same_name, find, erase, put, conn_name}

pub same_name_self : (n : List ℕ) → same_name n n ≡ true
same_name_self [] = refl
same_name_self (x ∷ n) = ground (arith, same_name_self n)

pub same_name_eq : (n m : List ℕ) → same_name n m ≡ true → n ≡ m
same_name_eq [] [] h = refl
same_name_eq [] (y ∷ m) h = cc
same_name_eq (x ∷ n) [] h = cc
same_name_eq (x ∷ n) (y ∷ m) h = ground (arith, same_name_eq n m)

pub same_name_ne : (n m : List ℕ) → n ≢ m → same_name n m ≡ false
same_name_ne n m ne = elim (Bool-cases (same_name n m)) [
  | inl e ↦ absurd (ne (same_name_eq n m e))
  | inr e ↦ e
]

pub find-erase_self : (n : List ℕ) (cs : List (List ℕ × ℕ)) → find n (erase n cs) ≡ none
find-erase_self n [] = refl
find-erase_self n ((m, p) ∷ cs) = elim (Bool-cases (same_name n m)) [
  | inl e ↦ rw e (find-erase_self n cs)
  | inr e ↦ rw (e, e) (find-erase_self n cs)
]

pub find-erase_ne :
    (n k : List ℕ) (cs : List (List ℕ × ℕ)) → k ≢ n → find k (erase n cs) ≡ find k cs
find-erase_ne n k [] ne = refl
find-erase_ne n k ((m, p) ∷ cs) ne = elim (Bool-cases (same_name n m)) [
  | inl e ↦
      rw (e, same_name_ne k m (λ f. ne (f ∙ sym (same_name_eq n m e)))) (find-erase_ne n k cs ne)
  | inr e ↦ rw e (ap (λ o. if same_name k m then some p else o) (find-erase_ne n k cs ne))
]

pub find-put_self : (n : List ℕ) (p : ℕ) (cs : List (List ℕ × ℕ)) → find n (put n p cs) ≡ some p
find-put_self n p cs = rw (same_name_self n) refl

pub find-put_ne :
    (n k : List ℕ) (p : ℕ) (cs : List (List ℕ × ℕ)) → k ≢ n → find k (put n p cs) ≡ find k cs
find-put_ne n k p cs ne = rw (same_name_ne k n ne) (find-erase_ne n k cs ne)

-- What the manual says of %d for numbers below 2 ^ 31: at most ten digits, from which the number can be
-- read.
pub record IsDecimal (decimal : ℕ → List ℕ) : Type 0 where
  pub short : (i : ℕ) → i < 2 ^ 31 → length (decimal i) ≤ 10
  pub distinct : (i j : ℕ) → i < 2 ^ 31 → j < 2 ^ 31 → decimal i ≡ decimal j → i ≡ j

tail : List ℕ → List ℕ
tail [] = []
tail (x ∷ xs) = xs

append-cancel : (xs ys zs : List ℕ) → xs ++ ys ≡ xs ++ zs → ys ≡ zs
unfolding tail
append-cancel [] ys zs e = e
append-cancel (x ∷ xs) ys zs e = append-cancel xs ys zs (ap tail e)

-- A host and a port of at most 19 characters leave room for every number.
pub conn_name_distinct :
    (decimal : ℕ → List ℕ) (name hostport : List ℕ) (i j : ℕ)
    → IsDecimal decimal
    → length hostport ≤ 19
    → i < 2 ^ 31
    → j < 2 ^ 31
    → i ≢ j
    → conn_name decimal name hostport i ≢ conn_name decimal name hostport j
unfolding tail
conn_name_distinct decimal name hostport i j d room hi hj ne e = ne (
    d.distinct i j hi hj (
      ap tail (
        append-cancel hostport (35 ∷ decimal i) (35 ∷ decimal j)
          (ap tail (sym (whole i hi) ∙ append-cancel name (cut i) (cut j) e ∙ whole j hj)))))
  where
    cut : ℕ → List ℕ
    cut k = take 31 (58 ∷ hostport ++ 35 ∷ decimal k)

    whole : (k : ℕ) → k < 2 ^ 31 → cut k ≡ 58 ∷ hostport ++ 35 ∷ decimal k
    whole k h =
        take_all 31 (58 ∷ hostport ++ 35 ∷ decimal k)
          (omega (arith, length-append hostport (35 ∷ decimal k), d.short k h))
