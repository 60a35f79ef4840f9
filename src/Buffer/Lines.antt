-- ===== src/Buffer/Lines.antt =====
-- Line ends in a Buffer: cobra/buffer.h findCRLF and findEOL. A pointer is an index into the vector.
-- The outer option of findEOL(start) is `none` where an assertion fails or memchr runs off the vector.
use cobra.Base.{
  ℕ, suc, ◌+◌, ◌-◌, ◌≤◌, ◌≡◌, ◌≢◌, refl, ap, ap₂, sym, subst, ◌∙◌, List, [], ◌∷◌, length, take,
  drop, arith, Option, none, some, ◌>>◌, check, Bool, true, false, ◌&&◌, ◌==◌, leb, le→leb,
  Bool-cases, inl, inr, if◌then◌else◌,
}
use mathlib.Core.Option
use cobra.Buffer.{Buffer, readable_bytes, bytes_at, retrieve_until}
use cobra.Buffer.Space.{IsValid}
use cobra.Buffer.Content.{contents, length-contents}
use cobra.Buffer.Retrieve.{retrieve_lem}

abbrev pub cr : ℕ
cr = 13

abbrev pub lf : ℕ
lf = 10

-- Whether the bytes start with kCRLF.
abbrev pub at_crlf : List ℕ → Bool
at_crlf [] = false
at_crlf (x ∷ []) = false
at_crlf (x ∷ y ∷ rest) = (x == cr) && (y == lf)

-- std::search for kCRLF: the first place where it stands, or the length.
unfoldable pub search_crlf : List ℕ → ℕ
search_crlf [] = 0
search_crlf (x ∷ xs) = let later = suc (search_crlf xs) in if at_crlf (x ∷ xs) then 0 else later

-- memchr: the first place of `c`.
unfoldable pub memchr : ℕ → List ℕ → Option ℕ
memchr c [] = none
memchr c (x ∷ xs) = let later = Option.map suc (memchr c xs) in if x == c then some 0 else later

-- Buffer::findCRLF
unfoldable pub find_crlf : Buffer → Option ℕ
find_crlf b =
    let at = search_crlf (contents b) in
    if at == length (contents b) then none else some (b.reader_index + at)

-- Buffer::findCRLF(start)
unfoldable pub find_crlf_from : ℕ → Buffer → Option (Option ℕ)
find_crlf_from start b = do
  check (leb b.reader_index start)
  check (leb start b.writer_index)
  let rest = bytes_at b.store start (b.writer_index - start)
  let at = search_crlf rest
  some (if at == length rest then none else some (start + at))

-- Buffer::findEOL
unfoldable pub find_eol : Buffer → Option ℕ
find_eol b =
    Option.map (λ i. b.reader_index + i)
      (memchr lf (bytes_at b.store b.reader_index (readable_bytes b)))

-- Buffer::findEOL(start): memchr is given all of readableBytes() from `start` on.
unfoldable pub find_eol_from : ℕ → Buffer → Option (Option ℕ)
find_eol_from start b = do
  check (leb b.reader_index start)
  check (leb start b.writer_index)
  let scanned = bytes_at b.store start (readable_bytes b)
  elim (memchr lf scanned) [
    | some i ↦ some (some (start + i))
    | none ↦ if leb (start + readable_bytes b) (length b.store) then some none else none
  ]

-- No CRLF stands anywhere in the bytes.
abbrev pub NoCrlf : List ℕ → Type 0
NoCrlf [] = Unit {0}
NoCrlf (x ∷ xs) = (at_crlf (x ∷ xs) ≡ false) × NoCrlf xs

search_crlf-here : (x : ℕ) (xs : List ℕ) → at_crlf (x ∷ xs) ≡ true → search_crlf (x ∷ xs) ≡ 0
unfolding search_crlf
search_crlf-here x xs e = rw e

search_crlf-later :
    (x : ℕ) (xs : List ℕ) → at_crlf (x ∷ xs) ≡ false → search_crlf (x ∷ xs) ≡ suc (search_crlf xs)
unfolding search_crlf
search_crlf-later x xs e = rw e

-- A search that reaches the end has met no CRLF.
search_crlf-none : (xs : List ℕ) → search_crlf xs ≡ length xs → NoCrlf xs
search_crlf-none [] e = tt
search_crlf-none (x ∷ xs) e = elim (Bool-cases (at_crlf (x ∷ xs))) [
  | inl here ↦ absurd (omega (arith, search_crlf-here x xs here))
  | inr later ↦ (later, search_crlf-none xs (omega (arith, search_crlf-later x xs later)))
]

search_crlf-le : (xs : List ℕ) → search_crlf xs ≤ length xs
unfolding search_crlf
search_crlf-le [] = omega arith
search_crlf-le (x ∷ xs) = ground (arith, search_crlf-le xs)

at_crlf-values : (x y : ℕ) (xs : List ℕ) → at_crlf (x ∷ y ∷ xs) ≡ true → (x ≡ cr) × (y ≡ lf)
at_crlf-values x y xs e = ground arith

-- A search that stops before the end stands at a CRLF, and none starts before it.
search_crlf-found :
    (xs : List ℕ)
    → search_crlf xs ≢ length xs
    → (post : List ℕ) × (drop (search_crlf xs) xs ≡ cr ∷ lf ∷ post)
      × NoCrlf (take (suc (search_crlf xs)) xs)
search_crlf-found [] h = absurd (h (unfold search_crlf in refl))
search_crlf-found (x ∷ []) h = absurd (h (unfold search_crlf in refl))
search_crlf-found (x ∷ y ∷ xs) h = elim (Bool-cases (at_crlf (x ∷ y ∷ xs))) [
  | inl here ↦
      let (ex, ey) = at_crlf-values x y xs here in
      (
        xs,
        ap (λ k. drop k (x ∷ y ∷ xs)) (search_crlf-here x (y ∷ xs) here)
            ∙ ap₂ (λ a b. a ∷ b ∷ xs) ex ey,
        rw (search_crlf-here x (y ∷ xs) here) (refl, tt),
      )
  | inr further ↦
      let later = search_crlf-later x (y ∷ xs) further in
      let (post, e, clean) = search_crlf-found (y ∷ xs) (λ e. h (later ∙ ap suc e)) in
      (
        post,
        ap (λ k. drop k (x ∷ y ∷ xs)) later ∙ e,
        subst (λ k. NoCrlf (take (suc k) (x ∷ y ∷ xs))) (sym later) (further, clean),
      )
]

-- findCRLF returns the first CRLF of the content: consuming up to the pointer that it returns leaves
-- exactly the CRLF and what follows it, and no CRLF starts in the bytes consumed.
pub find_crlf-retrieve_until :
    {b : Buffer} {p : ℕ}
    → IsValid b
    → find_crlf b ≡ some p
    → (b' : Buffer) × (post : List ℕ) × (retrieve_until p b ≡ some b')
      × IsValid b'
      × (contents b' ≡ cr ∷ lf ∷ post)
      × NoCrlf (take (suc (p - b.reader_index)) (contents b))
unfolding find_crlf retrieve_until
find_crlf-retrieve_until {b} {p} v e =
    let (post, d, clean) = search_crlf-found (contents b) stops in
    let (b', r, v', c, _, _) = retrieve_lem at v bound in
    (
      b',
      post,
      rw (at_p, le→leb b.reader_index (b.reader_index + at) (omega arith), inside, back, r),
      v',
      c ∙ d,
      rw (at_p, back) clean,
    )
  where
    at : ℕ
    at = search_crlf (contents b)

    stops : at ≢ length (contents b)
    stops = ground arith

    at_p : p ≡ b.reader_index + at
    at_p = ground arith

    bound : at ≤ readable_bytes b
    bound = omega (arith, search_crlf-le (contents b), length-contents v)

    inside : leb (b.reader_index + at) b.writer_index ≡ true
    inside = le→leb _ _ (omega (arith, bound))

    back : b.reader_index + at - b.reader_index ≡ at
    back = omega arith

-- findCRLF returns NULL exactly when no CRLF stands in the content.
pub find_crlf-none : (b : Buffer) → find_crlf b ≡ none → NoCrlf (contents b)
unfolding find_crlf
find_crlf-none b e = search_crlf-none (contents b) (ground arith)
