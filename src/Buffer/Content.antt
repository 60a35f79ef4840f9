-- ===== src/Buffer/Content.antt =====
-- What a cobra/buffer.h Buffer holds: the bytes between its two indices.
use cobra.Base.{
  ℕ, zero, suc, ◌+◌, ◌-◌, ◌≤◌, ◌≡◌, refl, ap, sym, ◌∙◌, List, [], ◌∷◌, ◌++◌, length, take, drop,
  length-append, length-take, length-drop, take-append-drop, take-append, drop-append, drop-drop,
  arith,
}
use cobra.Buffer.{Buffer, max_size, copy_to, readable_bytes, bytes_at}
use cobra.Buffer.Space.{IsValid}

abbrev pub contents : Buffer → List ℕ
contents b = bytes_at b.store b.reader_index (readable_bytes b)

-- The vector is `p`, the bytes held, and `s`.
pub record Holds (b : Buffer) (p c s : List ℕ) : Type 0 where
  pub whole : b.store ≡ p ++ (c ++ s)
  pub before : length p ≡ b.reader_index
  pub upto : length p + length c ≡ b.writer_index

pub length-contents :
    {b : Buffer} → IsValid b → length (contents b) ≡ b.writer_index - b.reader_index
length-contents {b} v = omega (
  arith,
  length-take (readable_bytes b) (drop b.reader_index b.store),
  length-drop b.reader_index b.store,
)

pub valid-Holds :
    {b : Buffer}
    → IsValid b
    → Holds b (take b.reader_index b.store) (contents b) (drop b.writer_index b.store)
valid-Holds {b} v = record {
  whole =
      sym (take-append-drop b.reader_index b.store)
      ∙ ap (◌++◌ (take b.reader_index b.store)) (
          sym (take-append-drop (readable_bytes b) (drop b.reader_index b.store))
          ∙ ap (◌++◌ (contents b)) (
              drop-drop b.reader_index (readable_bytes b) b.store
              ∙ ap (λ k. drop k b.store) (omega arith)));
  before = omega (arith, length-take b.reader_index b.store);
  upto = omega (arith, length-take b.reader_index b.store, length-contents v);
}

pub Holds-size :
    {b : Buffer} {p c s : List ℕ} → Holds b p c s → length b.store ≡ length p + length c + length s
Holds-size {b} {p} {c} {s} h =
    ap length h.whole ∙ omega (arith, length-append p (c ++ s), length-append c s)

pub contents_of_Holds :
    {b : Buffer} {p c s : List ℕ} → Holds b p c s → length b.store ≤ max_size → contents b ≡ c
contents_of_Holds {b} {p} {c} {s} h m =
    ap (λ xs. bytes_at xs b.reader_index (readable_bytes b)) h.whole
    ∙ ap (take (readable_bytes b)) (drop-append b.reader_index p (c ++ s) h.before)
    ∙ take-append (readable_bytes b) c s count
  where
    count : length c ≡ readable_bytes b
    count = omega (arith, h.before, h.upto, Holds-size h)

-- std::copy within bounds replaces exactly the bytes that it names.
pub copy_to-eq {ℓ} :
    {A : Type ℓ} (xs : List A) (i : ℕ) (src : List A)
    → i + length src ≤ length xs
    → copy_to xs i src ≡ take i xs ++ (src ++ drop (i + length src) xs)
copy_to-eq [] zero [] h = refl
copy_to-eq [] zero (d ∷ src) h = absurd (omega arith)
copy_to-eq [] (suc i) src h = absurd (omega arith)
copy_to-eq (x ∷ xs) (suc i) src h = ap (◌∷◌ x) (
    copy_to-eq xs i src (omega arith)
    ∙ ap (λ k. take i xs ++ (src ++ drop k (x ∷ xs))) (suc-add i (length src)))
  where
    suc-add : (a b : ℕ) → suc (a + b) ≡ suc a + b
    suc-add a b = omega arith
copy_to-eq (x ∷ xs) zero [] h = refl
copy_to-eq (x ∷ xs) zero (d ∷ src) h = ap (◌∷◌ d) (
    copy_to-eq xs zero src (omega arith) ∙ ap (λ k. src ++ drop k (x ∷ xs)) (suc-zero (length src)))
  where
    suc-zero : (n : ℕ) → suc (zero + n) ≡ zero + suc n
    suc-zero n = omega arith
