-- ===== src/Buffer/Space.antt =====
-- The room of a cobra/buffer.h Buffer: its representation invariant, which no operation leaves.
use cobra.Base.{
  ℕ, zero, suc, ◌+◌, ◌-◌, ◌≤◌, ◌≡◌, refl, ap, some, List, [], ◌∷◌, length, take, replicate,
  length-append, length-take, length-replicate, arith,
}
use cobra.Buffer.{
  Buffer, cheap_prepend, max_size, copy_to, resize, new, retrieve_all, readable_bytes,
  writable_bytes,
}

-- 0 <= readerIndex <= writerIndex <= size, and the size admits an empty buffer.
pub record IsValid (b : Buffer) : Type 0 where
  pub ordered : b.reader_index ≤ b.writer_index
  pub inside : b.writer_index ≤ length b.store
  pub rooted : cheap_prepend ≤ length b.store
  pub bounded : length b.store ≤ max_size

pub length-copy_to {ℓ} :
    {A : Type ℓ} (xs : List A) (i : ℕ) (src : List A) → length (copy_to xs i src) ≡ length xs
length-copy_to [] i src = refl
length-copy_to (x ∷ xs) (suc i) src = ap suc (length-copy_to xs i src)
length-copy_to (x ∷ xs) zero [] = refl
length-copy_to (x ∷ xs) zero (d ∷ src) = ap suc (length-copy_to xs zero src)

-- In a valid buffer the three regions add up to the vector, without wrapping.
pub regions :
    {b : Buffer}
    → IsValid b
    → (readable_bytes b ≡ b.writer_index - b.reader_index)
      × (writable_bytes b ≡ length b.store - b.writer_index)
      × (b.reader_index + readable_bytes b + writable_bytes b ≡ length b.store)
regions v = omega arith

pub new-IsValid : IsValid new
unfolding new
new-IsValid = omega arith

pub retrieve_all-IsValid : {b : Buffer} → IsValid b → IsValid (retrieve_all b)
unfolding retrieve_all
retrieve_all-IsValid v = omega arith

pub length-resize :
    (n : ℕ) (xs ys : List ℕ)
    → length xs ≤ n
    → resize n xs ≡ some ys
    → (length ys ≡ n) × (n ≤ max_size)
unfolding resize
length-resize n xs ys h e = ground (
  arith,
  length-append (take n xs) (replicate (n - length xs) 0),
  length-take n xs,
  length-replicate {A = ℕ} (n - length xs) 0,
)
