-- ===== src/LogFile/Append.antt =====
-- The loop of LogFile::File::append, base/LogFile.cc, over any fwrite(3).
use cobra.Base.{
  arith, ℕ, zero, suc, ◌+◌, ◌%◌, ◌^◌, ◌≤◌, ◌<◌, ◌≡◌, ◌⊎◌, inl, inr, refl, ap, sym, ◌∙◌, false, List,
  [], ◌∷◌, ◌++◌, some, length, take, drop, length-drop, take-append-drop, append_assoc, append-nil,
  Bool-cases, ==_iff, ◌==◌,
}
use cobra.LogFile.{File, write, append_loop, append_file}

-- What the manual says of fwrite(3) with items of one byte.
abbrev pub IsFwrite : (File → List ℕ → ℕ) → Type 0
IsFwrite fwrite = (f : File) (bytes : List ℕ) → fwrite f bytes ≤ length bytes

-- What of `bytes` went into a file: `front`, and then fwrite(3) took nothing of the rest, if there is any.
pub record Wrote (fwrite : File → List ℕ → ℕ) (bytes : List ℕ) (f f' : File) : Type 0 where
  pub front : List ℕ
  pub rest : List ℕ
  pub split : front ++ rest ≡ bytes
  pub text : f'.text ≡ f.text ++ front
  pub name : f'.name ≡ f.name
  pub flushed : f'.flushed ≡ f.flushed
  pub stops : (rest ≡ []) ⊎ ((g : File) × (fwrite g rest ≡ 0))

-- A write, and what the others did with what it left.
Wrote-write :
    (fwrite : File → List ℕ → ℕ) (bytes : List ℕ) (f f' : File)
    → Wrote fwrite (drop (fwrite f bytes) bytes) (write fwrite bytes f).1 f'
    → Wrote fwrite bytes f f'
Wrote-write fwrite bytes f f' w = record {
  front = took ++ w.front;
  rest = w.rest;
  split =
      append_assoc took w.front w.rest
      ∙ ap (λ k. took ++ k) w.split
      ∙ take-append-drop (fwrite f bytes) bytes;
  text = w.text ∙ append_assoc f.text took w.front;
  name = w.name;
  flushed = w.flushed;
  stops = w.stops;
}
  where
    took : List ℕ
    took = take (fwrite f bytes) bytes

positive : (n : ℕ) → (n == 0) ≡ false → 0 < n
positive n e = ground arith

append_loop_lem :
    (fwrite : File → List ℕ → ℕ) (fuel : ℕ) (bytes : List ℕ) (f : File)
    → IsFwrite fwrite
    → length bytes < fuel
    → (f' : File) × (append_loop fwrite fuel bytes f ≡ some f')
      × Wrote fwrite bytes f f'
      × (f'.writes ≤ f.writes + length bytes)
      × (f'.written_bytes ≡ f.written_bytes)
unfolding append_loop
append_loop_lem fwrite zero bytes f w h = absurd (omega arith)
append_loop_lem fwrite (suc fuel) [] f w h = (
  f,
  refl,
  record {
    front = [];
    rest = [];
    split = refl;
    text = sym (append-nil f.text);
    name = refl;
    flushed = refl;
    stops = inl refl;
  },
  omega arith,
  refl,
)
append_loop_lem fwrite (suc fuel) (c ∷ cs) f w h = elim (Bool-cases (fwrite f (c ∷ cs) == 0)) [
  | inl e ↦ (
    (write fwrite (c ∷ cs) f).1,
    rw e refl,
    record {
      front = [];
      rest = c ∷ cs;
      split = refl;
      text = ap (λ k. f.text ++ take k (c ∷ cs)) ((==_iff (fwrite f (c ∷ cs)) 0).0 e);
      name = refl;
      flushed = refl;
      stops = inr (f, (==_iff (fwrite f (c ∷ cs)) 0).0 e);
    },
    omega arith,
    refl,
  )
  | inr e ↦
      let shorter = length-drop (fwrite f (c ∷ cs)) (c ∷ cs) in
      let (f', run, wrote, few, same) =
        append_loop_lem fwrite fuel (drop (fwrite f (c ∷ cs)) (c ∷ cs)) (write fwrite (c ∷ cs) f).1
          w (omega (arith, h, shorter, positive (fwrite f (c ∷ cs)) e)) in
      (
        f',
        rw e run,
        Wrote-write fwrite (c ∷ cs) f f' wrote,
        omega (arith, few, shorter, positive (fwrite f (c ∷ cs)) e, w f (c ∷ cs)),
        same,
      )
]

-- File::append comes to an end whatever fwrite(3) takes at each call, after at most one call for each byte
-- and one more; what it wrote is a front of the bytes, all of them unless a call took nothing of the rest;
-- the bytes count as written either way.
pub append_file_lem :
    (fwrite : File → List ℕ → ℕ) (bytes : List ℕ) (f : File)
    → IsFwrite fwrite
    → (f' : File) × (append_file fwrite bytes f ≡ some f')
      × Wrote fwrite bytes f f'
      × (f'.writes ≤ suc (f.writes + length bytes))
      × (f'.written_bytes ≡ (f.written_bytes + length bytes) % 2 ^ 64)
unfolding append_file
append_file_lem fwrite bytes f w =
    let n : ℕ = fwrite f bytes in
    let shorter = length-drop n bytes in
    let (f', run, wrote, few, same) =
      append_loop_lem fwrite (suc (length bytes)) (drop n bytes) (write fwrite bytes f).1 w
        (omega (arith, shorter)) in
    let wrote' : Wrote fwrite bytes f f' = Wrote-write fwrite bytes f f' wrote in
    (
      record f' { written_bytes = (f'.written_bytes + length bytes) % 2 ^ 64 },
      rw run refl,
      record {
        front = wrote'.front;
        rest = wrote'.rest;
        split = wrote'.split;
        text = wrote'.text;
        name = wrote'.name;
        flushed = wrote'.flushed;
        stops = wrote'.stops;
      },
      omega (arith, few, shorter),
      ap (λ k. (k + length bytes) % 2 ^ 64) same,
    )
