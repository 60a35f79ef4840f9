-- ===== src/LogFile/Written.antt =====
-- What append_unlocked of base/LogFile.cc leaves in the files of a log.
use cobra.Base.{
  false, arith, ℕ, ◌≤◌, ◌<◌, ◌≡◌, ◌⊎◌, inl, inr, refl, ap, sym, ◌∙◌, false, List, [], ◌∷◌, ◌++◌,
  Option, some, ◌>>=◌, if◌then◌else◌, append_assoc, append-nil, Bool-cases, ltb,
}
use cobra.LogFile.{
  has_slash, File, LogFile, Host, append_file, roll_file, check_time, append_unlocked, new,
}
use cobra.LogFile.Append.{IsFwrite, Wrote, append_file_lem}
use cobra.LogFile.Rolling.{
  Inv, Appended, CanOpen, all_text, replaced, new-Inv, roll_file-Kept, check_time-Kept,
}

-- An fwrite(3) that always takes a byte at least, of some.
abbrev pub IsReliable : (File → List ℕ → ℕ) → Type 0
IsReliable fwrite = (f : File) (c : ℕ) (cs : List ℕ) → 0 < fwrite f (c ∷ cs)

whole :
    (fwrite : File → List ℕ → ℕ) (bytes : List ℕ) (f f' : File)
    → IsReliable fwrite
    → Wrote fwrite bytes f f'
    → f'.text ≡ f.text ++ bytes
whole fwrite bytes f f' r w =
    w.text
    ∙ ap (λ k. f.text ++ k)
        (sym (append-nil w.front)
          ∙ ap (λ k. w.front ++ k) (sym (none_left w.rest w.stops))
          ∙ w.split)
  where
    none_left : (rest : List ℕ) → (rest ≡ []) ⊎ ((g : File) × (fwrite g rest ≡ 0)) → rest ≡ []
    none_left [] s = refl
    none_left (c ∷ cs) (inl e) = e
    none_left (c ∷ cs) (inr (g, e)) = absurd (omega (arith, e, r g c cs))

append_unlocked_run :
    (fwrite : File → List ℕ → ℕ) (host : Host) (now later : ℕ) (bytes : List ℕ) (l : LogFile)
    (f f' : File)
    → l.file ≡ some f
    → append_file fwrite bytes f ≡ some f'
    → append_unlocked fwrite host now later bytes l ≡ (
        if ltb l.roll_size f'.written_bytes
        then roll_file host later (record l { file = some f' })
        else check_time host now later f' (record l { file = some f' }))
unfolding append_unlocked
append_unlocked_run fwrite host now later bytes l f f' e h = rw (e, h) refl

pub append_unlocked-Appended :
    (fwrite : File → List ℕ → ℕ) (host : Host) (now later : ℕ) (bytes : List ℕ) (l : LogFile)
    → IsFwrite fwrite
    → IsReliable fwrite
    → CanOpen host
    → Inv host l
    → (l' : LogFile) × (append_unlocked fwrite host now later bytes l ≡ some l')
      × Appended host bytes later l l'
append_unlocked-Appended fwrite host now later bytes l w r can inv =
    let f : File = inv.file in
    let (f', run, wrote, few, size) = append_file_lem fwrite bytes f w in
    let l₁ : LogFile = record l { file = some f' } in
    let (inv₁, text₁) =
      replaced host f f' bytes l.count l.last_flush l inv.counted inv inv.stands wrote.name
        (whole fwrite bytes f f' r wrote) in
    let runs = append_unlocked_run fwrite host now later bytes l f f' inv.stands run in
    elim (Bool-cases (ltb l.roll_size f'.written_bytes)) [
      | inl e ↦
          let (l', rolled, kept, g, there, size) = roll_file-Kept host later l₁ can inv₁ in
          (
            l',
            runs ∙ rw e rolled,
            record {
              inv = kept.inv;
              text = kept.text ∙ text₁;
              roll_size = kept.roll_size;
              current = g;
              stands = there;
              bounded = rolled_size g size;
            },
          )
      | inr e ↦
          let (l', g, checked, kept, stands, same) =
            check_time-Kept host now later f' l₁ can inv₁ refl in
          (
            l',
            runs ∙ rw e checked,
            record {
              inv = kept.inv;
              text = kept.text ∙ text₁;
              roll_size = kept.roll_size;
              current = g;
              stands = stands;
              bounded = inl (within g f' same e);
            },
          )
    ]
  where
    rolled_size :
        {k : Option File} (g : File)
        → (g.written_bytes ≡ 0) ⊎ ((later ≤ l.last_roll) × (k ≡ some g))
        → (g.written_bytes ≤ l.roll_size) ⊎ (later ≤ l.last_roll)
    rolled_size g (inl e) = inl (omega (arith, e))
    rolled_size g (inr (late, at)) = inr late

    within :
        (g f : File)
        → g.written_bytes ≤ f.written_bytes
        → ltb l.roll_size f.written_bytes ≡ false
        → g.written_bytes ≤ l.roll_size
    within g f s h = ground arith

-- Lines that are appended, each with the times at which append_unlocked asks for the clock.
abbrev pub append_all :
    (File → List ℕ → ℕ) → Host → List (ℕ × ℕ × List ℕ) → LogFile → Option LogFile
append_all fwrite host [] l = some l
append_all fwrite host ((now, later, bytes) ∷ es) l = do
  l' ← append_unlocked fwrite host now later bytes l
  append_all fwrite host es l'

abbrev pub all_bytes : List (ℕ × ℕ × List ℕ) → List ℕ
all_bytes [] = []
all_bytes ((now, later, bytes) ∷ es) = bytes ++ all_bytes es

append_all-Inv :
    (fwrite : File → List ℕ → ℕ) (host : Host) (es : List (ℕ × ℕ × List ℕ)) (l : LogFile)
    → IsFwrite fwrite
    → IsReliable fwrite
    → CanOpen host
    → Inv host l
    → (l' : LogFile) × (append_all fwrite host es l ≡ some l')
      × Inv host l'
      × (all_text l' ≡ all_text l ++ all_bytes es)
append_all-Inv fwrite host [] l w r can inv = (l, refl, inv, sym (append-nil (all_text l)))
append_all-Inv fwrite host ((now, later, bytes) ∷ es) l w r can inv =
    let (l₁, first, a) = append_unlocked-Appended fwrite host now later bytes l w r can inv in
    let (l₂, rest, inv₂, text) = append_all-Inv fwrite host es l₁ w r can a.inv in
    (
      l₂,
      rw first rest,
      inv₂,
      text ∙ ap (λ k. k ++ all_bytes es) a.text ∙ append_assoc (all_text l) bytes (all_bytes es),
    )

-- A log file with a basename without '/' that is made after the first second of 1970 takes any lines at
-- any times, whatever the clock does and however often fwrite(3) takes only a part, where every file can
-- be opened and fwrite(3) takes some of what it is given: the files together hold the lines in their
-- order, nothing lost or twice, and they bear the names of different, ascending times.
pub new-append_all :
    (fwrite : File → List ℕ → ℕ) (host : Host) (basename : List ℕ)
    (roll_size flush_interval start : ℕ) (es : List (ℕ × ℕ × List ℕ))
    → IsFwrite fwrite
    → IsReliable fwrite
    → CanOpen host
    → has_slash basename ≡ false
    → 0 < start
    → (l : LogFile) × (l' : LogFile) × (new host basename roll_size flush_interval start ≡ some l)
      × (append_all fwrite host es l ≡ some l')
      × Inv host l'
      × (all_text l' ≡ all_bytes es)
new-append_all fwrite host basename roll_size flush_interval start es w r can flat h =
    let (l, made, inv, empty) = new-Inv host basename roll_size flush_interval start can flat h in
    let (l', run, inv', text) = append_all-Inv fwrite host es l w r can inv in
    (l, l', made, run, inv', text ∙ ap (λ k. k ++ all_bytes es) empty)
