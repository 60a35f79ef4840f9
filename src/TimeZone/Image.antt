-- ===== src/TimeZone/Image.antt =====
-- A zone that is written as a file is read back: base/TimeZone.cc.
use cobra.Base.{
  ℕ, suc, ◌-◌, ◌/◌, ◌%◌, ◌^◌, ◌<◌, ◌≡◌, refl, ap, ap₂, sym, ◌∙◌, Bool, true, false, not, List, [],
  ◌∷◌, ◌++◌, map, Option, some, if◌then◌else◌, get_elem?, length, length-append, take-append,
  drop-append, leb, ltb, ◌==◌, ℤ, pos, negsuc, ◌+ℤ◌, arith,
}
use cobra.TimeZone.{Transition, Localtime, Data}
use cobra.TimeZone.File.{
  read_bytes, be32toh, int32, read_int32, read_uint8, magic, Counts, read_header, read_trans,
  read_indices, read_localtime, read_localtimes, make_transitions, read_abbreviation, read_rest,
  read_types, read_times, read_time_zone_file, new,
}

-- An integer of 32 bits, and its bytes with the highest first.
abbrev pub IsInt32 : ℤ → Type 0
IsInt32 (pos n) = n < 2 ^ 31
IsInt32 (negsuc n) = n < 2 ^ 31

abbrev pub word : ℤ → ℕ
word (pos n) = n
word (negsuc n) = 2 ^ 32 - 1 - n

abbrev pub be32 : ℤ → List ℕ → List ℕ
be32 z rest =
    word z / 2 ^ 24 % 256 ∷ word z / 2 ^ 16 % 256 ∷ word z / 2 ^ 8 % 256 ∷ word z % 256 ∷ rest

bytes_back :
    (w : ℕ)
    → w < 2 ^ 32
    → be32toh (w / 2 ^ 24 % 256) (w / 2 ^ 16 % 256) (w / 2 ^ 8 % 256) (w % 256) ≡ w
bytes_back w h = omega arith

word_lt : (z : ℤ) → IsInt32 z → word z < 2 ^ 32
word_lt (pos n) h = omega arith
word_lt (negsuc n) h = omega arith

int32-word : (z : ℤ) → IsInt32 z → int32 (word z) ≡ z
int32-word (pos n) h = ground arith
int32-word (negsuc n) h = rw (test n h) (ap negsuc back)
  where
    back : 2 ^ 32 - 1 - (2 ^ 32 - 1 - n) ≡ n
    back = omega arith

    test : (n : ℕ) → n < 2 ^ 31 → ltb (2 ^ 32 - 1 - n) (2 ^ 31) ≡ false
    test n h = ground arith

read_int32-be32 : (z : ℤ) (rest : List ℕ) → IsInt32 z → read_int32 (be32 z rest) ≡ some (z, rest)
unfolding read_int32
read_int32-be32 z rest h =
    ap (λ w. some (int32 w, rest)) (bytes_back (word z) (word_lt z h))
    ∙ ap (λ y. some (y, rest)) (int32-word z h)

read_bytes-append :
    (n : ℕ) (s rest : List ℕ) → length s ≡ n → read_bytes n (s ++ rest) ≡ some (s, rest)
unfolding read_bytes
read_bytes-append n s rest h =
    rw enough (ap₂ (λ a b. some (a, b)) (take-append n s rest h) (drop-append n s rest h))
  where
    enough : leb n (length (s ++ rest)) ≡ true
    enough = ground (arith, length-append s rest)

-- The parts of a file in front of `rest`.
abbrev pub times_image : List Transition → List ℕ → List ℕ
times_image [] rest = rest
times_image (t ∷ ts) rest = be32 t.gmttime (times_image ts rest)

abbrev pub indices_image : List Transition → List ℕ → List ℕ
indices_image [] rest = rest
indices_image (t ∷ ts) rest = t.localtime_idx ∷ indices_image ts rest

abbrev pub types_image : List Localtime → List ℕ → List ℕ
types_image [] rest = rest
types_image (l ∷ ls) rest =
    be32 l.gmt_offset ((if l.is_dst then 1 else 0) ∷ l.arrb_idx ∷ types_image ls rest)

-- The file of a zone, with the version, 15 bytes that are not used, three counts that are not used, and
-- whatever follows the abbreviations.
abbrev pub image : ℕ → List ℕ → Data → List ℕ → List ℕ
image version unused zone rest =
    magic
    ++ version ∷ unused
    ++ be32 (pos 0) (
        be32 (pos 0) (
          be32 (pos 0) (
            be32 (pos (length zone.transitions)) (
              be32 (pos (length zone.localtimes)) (
                be32 (pos (length zone.abbreviation)) (
                  times_image zone.transitions (
                    indices_image zone.transitions
                      (types_image zone.localtimes (zone.abbreviation ++ rest)))))))))

-- The numbers fit into the fields of the file, and each transition has the local time of its type.
abbrev pub HasType : List Localtime → Transition → Type 0
HasType ls t =
    (l : Localtime) × (get_elem? ls t.localtime_idx ≡ some l)
    × (t.localtime ≡ t.gmttime +ℤ l.gmt_offset)

abbrev pub Fits : List Localtime → List Transition → Type 0
Fits ls [] = Unit {0}
Fits ls (t ∷ ts) = IsInt32 t.gmttime × HasType ls t × Fits ls ts

abbrev pub AllInt32 : List Localtime → Type 0
AllInt32 [] = Unit {0}
AllInt32 (l ∷ ls) = IsInt32 l.gmt_offset × AllInt32 ls

pub record IsFile (zone : Data) : Type 0 where
  pub transitions : Fits zone.localtimes zone.transitions
  pub localtimes : AllInt32 zone.localtimes
  pub timecnt : length zone.transitions < 2 ^ 31
  pub typecnt : length zone.localtimes < 2 ^ 31
  pub charcnt : length zone.abbreviation < 2 ^ 31

read_trans-image :
    (ls : List Localtime) (ts : List Transition) (rest : List ℕ)
    → Fits ls ts
    → read_trans (length ts) (times_image ts rest) ≡ some (map (λ t. t.gmttime) ts, rest)
unfolding read_trans
read_trans-image ls [] rest h = refl
read_trans-image ls (t ∷ ts) rest h =
    rw (read_int32-be32 t.gmttime (times_image ts rest) h.0, read_trans-image ls ts rest h.2) refl

read_indices-image :
    (ts : List Transition) (rest : List ℕ)
    → read_indices (length ts) (indices_image ts rest) ≡ some (map (λ t. t.localtime_idx) ts, rest)
unfolding read_indices read_uint8
read_indices-image [] rest = refl
read_indices-image (t ∷ ts) rest = rw (read_indices-image ts rest) refl

read_localtime-image :
    (l : Localtime) (rest : List ℕ)
    → IsInt32 l.gmt_offset
    → read_localtime (types_image (l ∷ []) rest) ≡ some (l, rest)
unfolding read_localtime read_uint8
read_localtime-image l rest h =
    rw (read_int32-be32 l.gmt_offset ((if l.is_dst then 1 else 0) ∷ l.arrb_idx ∷ rest) h) (
      ap (λ b. some (record { gmt_offset = l.gmt_offset; is_dst = b; arrb_idx = l.arrb_idx }, rest))
        (flag l.is_dst))
  where
    flag : (b : Bool) → not ((if b then 1 else 0) == 0) ≡ b
    flag true = refl
    flag false = refl

read_localtimes_step :
    (n : ℕ) (file rest : List ℕ) (l : Localtime) (ls : List Localtime) (end : Option (List ℕ))
    → read_localtime file ≡ some (l, rest)
    → read_localtimes n rest ≡ (ls, end)
    → read_localtimes (suc n) file ≡ (l ∷ ls, end)
unfolding read_localtimes
read_localtimes_step n file rest l ls end e f = rw (read_localtimes, e, f) refl

read_localtimes-image :
    (ls : List Localtime) (rest : List ℕ)
    → AllInt32 ls
    → read_localtimes (length ls) (types_image ls rest) ≡ (ls, some rest)
unfolding read_localtimes
read_localtimes-image [] rest h = refl
read_localtimes-image (l ∷ ls) rest h =
    read_localtimes_step (length ls) (types_image (l ∷ ls) rest) (types_image ls rest) l ls
      (some rest) (read_localtime-image l (types_image ls rest) h.0)
      (read_localtimes-image ls rest h.1)

make_transitions-image :
    (ls : List Localtime) (ts : List Transition)
    → Fits ls ts
    → make_transitions ls (map (λ t. t.gmttime) ts) (map (λ t. t.localtime_idx) ts) ≡ some ts
unfolding make_transitions
make_transitions-image ls [] h = refl
make_transitions-image ls (t ∷ ts) h =
    let (l, e, f) = h.1 in
    rw (e, make_transitions-image ls ts h.2)
      (ap
        (λ z.
          some
            (record { gmttime = t.gmttime; localtime = z; localtime_idx = t.localtime_idx } ∷ ts))
        (sym f))

read_header-image :
    (version : ℕ) (unused : List ℕ) (a b c : ℤ) (rest : List ℕ)
    → length unused ≡ 15
    → IsInt32 a
    → IsInt32 b
    → IsInt32 c
    → read_header (
        magic
        ++ version ∷ unused
        ++ be32 (pos 0) (be32 (pos 0) (be32 (pos 0) (be32 a (be32 b (be32 c rest))))))
      ≡ some (record { timecnt = a; typecnt = b; charcnt = c }, rest)
unfolding read_header
read_header-image version unused a b c rest h i j k =
    rw
      (
        read_bytes-append 4 magic (version ∷ unused ++ tail) refl,
        read_bytes-append 1 (version ∷ []) (unused ++ tail) refl,
        read_bytes-append 15 unused tail h,
        read_int32-be32 (pos 0) (be32 (pos 0) (be32 (pos 0) counts)) (omega arith),
        read_int32-be32 (pos 0) (be32 (pos 0) counts) (omega arith),
        read_int32-be32 (pos 0) counts (omega arith),
        read_int32-be32 a (be32 b (be32 c rest)) i,
        read_int32-be32 b (be32 c rest) j,
        read_int32-be32 c rest k,
      )
      refl
  where
    counts : List ℕ
    counts = be32 a (be32 b (be32 c rest))

    tail : List ℕ
    tail = be32 (pos 0) (be32 (pos 0) (be32 (pos 0) counts))

new_run :
    (file f1 f2 f3 f4 f5 : List ℕ) (n : ℕ) (zone : Data) (trans : List ℤ) (indices : List ℕ)
    → read_header file
      ≡ some (
        record {
          timecnt = pos n;
          typecnt = pos (length zone.localtimes);
          charcnt = pos (length zone.abbreviation);
        },
        f1,
      )
    → read_trans n f1 ≡ some (trans, f2)
    → read_indices n f2 ≡ some (indices, f3)
    → read_localtimes (length zone.localtimes) f3 ≡ (zone.localtimes, some f4)
    → make_transitions zone.localtimes trans indices ≡ some zone.transitions
    → read_bytes (length zone.abbreviation) f4 ≡ some (zone.abbreviation, f5)
    → new (some file) ≡ some zone
unfolding new read_time_zone_file read_times read_types read_rest read_abbreviation
new_run file f1 f2 f3 f4 f5 n zone trans indices a b c d e f =
    rw (new, read_time_zone_file, read_times, a, b, c)
      (ap (read_rest counts trans indices empty) d ∙ rest)
  where
    empty : Data
    empty = record { transitions = []; localtimes = []; abbreviation = [] }

    counts : Counts
    counts = record {
      timecnt = pos n;
      typecnt = pos (length zone.localtimes);
      charcnt = pos (length zone.abbreviation);
    }

    rest : read_rest counts trans indices empty (zone.localtimes, some f4) ≡ some zone
    rest = rw (read_rest, e, read_abbreviation, f) refl

-- A zone with transitions and types of 32 bits, fewer than 2 ^ 31 of each and of the bytes of its
-- abbreviations, whose transitions have the local time of their type, is
-- what the constructor reads from its file, whatever the version, the unused bytes and the bytes behind
-- the abbreviations.
pub new-image :
    (version : ℕ) (unused : List ℕ) (zone : Data) (rest : List ℕ)
    → length unused ≡ 15
    → IsFile zone
    → new (some (image version unused zone rest)) ≡ some zone
new-image version unused zone rest h f =
    new_run (image version unused zone rest) times indices types (zone.abbreviation ++ rest) rest
      (length zone.transitions) zone (map (λ t. t.gmttime) zone.transitions)
      (map (λ t. t.localtime_idx) zone.transitions)
      (read_header-image version unused (pos (length zone.transitions))
        (pos (length zone.localtimes)) (pos (length zone.abbreviation)) times h f.timecnt f.typecnt
        f.charcnt)
      (read_trans-image zone.localtimes zone.transitions indices f.transitions)
      (read_indices-image zone.transitions types)
      (read_localtimes-image zone.localtimes (zone.abbreviation ++ rest) f.localtimes)
      (make_transitions-image zone.localtimes zone.transitions f.transitions)
      (read_bytes-append (length zone.abbreviation) zone.abbreviation rest refl)
  where
    types : List ℕ
    types = types_image zone.localtimes (zone.abbreviation ++ rest)

    indices : List ℕ
    indices = indices_image zone.transitions types

    times : List ℕ
    times = times_image zone.transitions indices
