-- ===== src/LogFile/Rolling.antt =====
-- The files of a log, base/LogFile.cc: their names, their sizes and what stands in them together.
use cobra.Base.{
  false, arith, ℕ, suc, ◌-◌, ◌≤◌, ◌<◌, ◌≡◌, ◌⊎◌, inl, inr, refl, ap, sym, ◌∙◌, true, List, [], ◌∷◌,
  ◌++◌, map, some, append_assoc, append-nil, Bool-cases, ltb, ltb→lt, lt→ltb, ◌==◌,
}
use cobra.LogFile.{
  has_slash, File, LogFile, Host, flush_file, get_log_file_name, period_of, with_old, roll_file,
  check_time, check_time_roll, new,
}

-- The text of files together, of which the last one stands first.
abbrev pub texts : List File → List ℕ
texts [] = []
texts (f ∷ fs) = texts fs ++ f.text

abbrev pub all_text : LogFile → List ℕ
all_text l = texts (with_old l.file l.closed)

-- Times before `t`, each before the one in front of it.
abbrev pub Descends : ℕ → List ℕ → Type 0
Descends t [] = t ≡ t
Descends t (u ∷ us) = (u < t) × Descends u us

-- A log file that is open. Its files bear the names of the times at which they were opened, all different.
pub record Inv (host : Host) (l : LogFile) : Type 0 where
  pub file : File
  pub stands : l.file ≡ some file
  pub older : List ℕ
  pub named :
      map (λ (f : File). f.name) (file ∷ l.closed)
      ≡ map (get_log_file_name host l.basename) (l.last_roll ∷ older)
  pub descends : Descends l.last_roll older
  pub period : l.start_of_period ≡ period_of l.last_roll
  pub counted : l.count ≤ suc check_time_roll

-- What a roll or a flush does not change.
pub record Kept (host : Host) (l l' : LogFile) : Type 0 where
  pub inv : Inv host l'
  pub text : all_text l' ≡ all_text l
  pub roll_size : l'.roll_size ≡ l.roll_size

abbrev pub CanOpen : Host → Type 0
CanOpen host = (name : List ℕ) → host.opens name ≡ true

pub roll_file-Kept :
    (host : Host) (now : ℕ) (l : LogFile)
    → CanOpen host
    → Inv host l
    → (l' : LogFile) × (roll_file host now l ≡ some l')
      × Kept host l l'
      × (g : File) × (l'.file ≡ some g)
      × ((g.written_bytes ≡ 0) ⊎ ((now ≤ l.last_roll) × (l.file ≡ some g)))
unfolding roll_file get_log_file_name
roll_file-Kept host now l can inv = elim (Bool-cases (ltb l.last_roll now)) [
  | inl e ↦
      let f : File = record {
        name = get_log_file_name host l.basename now;
        text = [];
        flushed = 0;
        writes = 0;
        written_bytes = 0;
      } in
      (
        record l {
          last_roll = now;
          last_flush = now;
          start_of_period = period_of now;
          file = some f;
          closed = with_old l.file l.closed;
        },
        rw (roll_file, e, can (get_log_file_name host l.basename now)) refl,
        record {
          inv = record {
            file = f;
            stands = refl;
            older = l.last_roll ∷ inv.older;
            named =
                ap (◌∷◌ f.name) (
                  ap (λ o. map (λ (g : File). g.name) (with_old o l.closed)) inv.stands
                  ∙ inv.named);
            descends = (ltb→lt l.last_roll now e, inv.descends);
            period = refl;
            counted = inv.counted;
          };
          text = append-nil (all_text l);
          roll_size = refl;
        },
        f,
        refl,
        inl refl,
      )
  | inr e ↦ (
    l,
    rw (roll_file, e) refl,
    record { inv = inv; text = refl; roll_size = refl },
    inv.file,
    inv.stands,
    inr (ground arith, inv.stands),
  )
]

-- What append_unlocked leaves of a log to which `bytes` are appended, where it rolls at the time `later`.
pub record Appended (host : Host) (bytes : List ℕ) (later : ℕ) (l l' : LogFile) : Type 0 where
  pub inv : Inv host l'
  pub text : all_text l' ≡ all_text l ++ bytes
  pub roll_size : l'.roll_size ≡ l.roll_size
  pub current : File
  pub stands : l'.file ≡ some current
  pub bounded : (current.written_bytes ≤ l.roll_size) ⊎ (later ≤ l.last_roll)

counted-Kept :
    (host : Host) (n : ℕ) (l : LogFile)
    → n ≤ suc check_time_roll
    → Inv host l
    → Kept host l (record l { count = n })
counted-Kept host n l h inv = record {
  inv = record {
    file = inv.file;
    stands = inv.stands;
    older = inv.older;
    named = inv.named;
    descends = inv.descends;
    period = inv.period;
    counted = h;
  };
  text = refl;
  roll_size = refl;
}

the_same : {f g : File} → some f ≡ some g → f ≡ g
the_same e = cc

-- A current file in place of one with the same name, with `bytes` behind its text.
pub replaced :
    (host : Host) (f g : File) (bytes : List ℕ) (n t : ℕ) (l : LogFile)
    → n ≤ suc check_time_roll
    → Inv host l
    → l.file ≡ some f
    → g.name ≡ f.name
    → g.text ≡ f.text ++ bytes
    → Inv host (record l { count = n; last_flush = t; file = some g })
      × (all_text (record l { count = n; last_flush = t; file = some g }) ≡ all_text l ++ bytes)
replaced host f g bytes n t l h inv stands name text = (
  record {
    file = g;
    stands = refl;
    older = inv.older;
    named =
        ap (λ k. k ∷ map (λ (x : File). x.name) l.closed)
          (name ∙ ap (λ (x : File). x.name) (the_same (sym stands ∙ inv.stands)))
        ∙ inv.named;
    descends = inv.descends;
    period = inv.period;
    counted = h;
  },
  ap (λ k. texts l.closed ++ k) text
      ∙ sym (append_assoc (texts l.closed) f.text bytes)
      ∙ ap (λ o. texts (with_old o l.closed) ++ bytes) (sym stands),
)

pub check_time-Kept :
    (host : Host) (now later : ℕ) (f : File) (l : LogFile)
    → CanOpen host
    → Inv host l
    → l.file ≡ some f
    → (l' : LogFile) × (g : File) × (check_time host now later f l ≡ some l')
      × Kept host l l'
      × (l'.file ≡ some g)
      × (g.written_bytes ≤ f.written_bytes)
unfolding check_time
check_time-Kept host now later f l can inv stands =
    elim (Bool-cases (ltb check_time_roll l.count)) [
      | inr e ↦ (
        record l { count = suc l.count },
        f,
        rw e refl,
        counted-Kept host (suc l.count) l (ground arith) inv,
        stands,
        omega arith,
      )
      | inl e ↦ elim (Bool-cases (period_of now == l.start_of_period)) [
        | inr p ↦
            let zeroed : Kept host l (record l { count = 0 }) =
              counted-Kept host 0 l (omega arith) inv in
            let (l', rolled, kept, g, there, size) =
              roll_file-Kept host later (record l { count = 0 }) can zeroed.inv in
            (
              l',
              g,
              rw (e, p) rolled,
              record { inv = kept.inv; text = kept.text; roll_size = kept.roll_size },
              there,
              smaller g size,
            )
        | inl p ↦ elim (Bool-cases (ltb l.flush_interval (now - l.last_flush))) [
          | inr i ↦ (
            record l { count = 0 },
            f,
            rw (e, p, i) refl,
            counted-Kept host 0 l (omega arith) inv,
            stands,
            omega arith,
          )
          | inl i ↦
              let (inv', text) =
                replaced host f (flush_file f) [] 0 now l (omega arith) inv stands refl
                  (sym (append-nil f.text)) in
              (
                record l { count = 0; last_flush = now; file = some (flush_file f) },
                flush_file f,
                rw (e, p, i) refl,
                record { inv = inv'; text = text ∙ append-nil (all_text l); roll_size = refl },
                refl,
                omega arith,
              )
        ]
      ]
    ]
  where
    smaller :
        (g : File)
        → (g.written_bytes ≡ 0) ⊎ ((later ≤ l.last_roll) × (l.file ≡ some g))
        → g.written_bytes ≤ f.written_bytes
    smaller g (inl e) = omega (arith, e)
    smaller g (inr (e, at)) =
        omega (arith, ap (λ (k : File). k.written_bytes) (the_same (sym at ∙ stands)))

-- LogFile::LogFile opens its first file unless the clock stands at 0.
pub new-Inv :
    (host : Host) (basename : List ℕ) (roll_size flush_interval now : ℕ)
    → CanOpen host
    → has_slash basename ≡ false
    → 0 < now
    → (l : LogFile) × (new host basename roll_size flush_interval now ≡ some l)
      × Inv host l
      × (all_text l ≡ [])
unfolding new roll_file get_log_file_name
new-Inv host basename roll_size flush_interval now can flat h = (
  record {
    basename = basename;
    roll_size = roll_size;
    flush_interval = flush_interval;
    count = 0;
    start_of_period = period_of now;
    last_roll = now;
    last_flush = now;
    file = some (opened (get_log_file_name host basename now));
    closed = [];
  },
  rw (flat, roll_file, lt→ltb 0 now h, can (get_log_file_name host basename now)) refl,
  record {
    file = opened (get_log_file_name host basename now);
    stands = refl;
    older = [];
    named = refl;
    descends = refl;
    period = refl;
    counted = omega arith;
  },
  refl,
)
  where
    opened : List ℕ → File
    opened name = record { name = name; text = []; flushed = 0; writes = 0; written_bytes = 0 }
