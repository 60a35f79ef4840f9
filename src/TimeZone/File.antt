-- ===== src/TimeZone/File.antt =====
-- readTimeZoneFile of base/TimeZone.cc: a zone file is its bytes, none when it cannot be opened. A read
-- that throws a logic_error is `none`, and the data read until then stay.
use cobra.Base.{
  ℕ, zero, suc, ◌+◌, ◌-◌, ◌*◌, ◌^◌, Bool, true, false, not, List, [], ◌∷◌, ◌++◌, Option, none, some,
  if◌then◌else◌, check, ◌>>=◌, ◌>>◌, ◌&&◌, get_elem?, length, take, drop, leb, ltb, ◌==◌, ℤ, pos,
  negsuc, ◌+ℤ◌,
}
use cobra.TimeZone.{Transition, Localtime, Data, natural}

-- File::readBytes
unfoldable pub read_bytes : ℕ → List ℕ → Option (List ℕ × List ℕ)
read_bytes n file = if leb n (length file) then some (take n file, drop n file) else none

-- be32toh of the bytes of a word, as an int32_t.
abbrev pub be32toh : ℕ → ℕ → ℕ → ℕ → ℕ
be32toh a b c d = ((a * 256 + b) * 256 + c) * 256 + d

abbrev pub int32 : ℕ → ℤ
int32 n = if ltb n (2 ^ 31) then pos n else negsuc (2 ^ 32 - 1 - n)

-- File::readInt32
unfoldable pub read_int32 : List ℕ → Option (ℤ × List ℕ)
read_int32 (a ∷ b ∷ c ∷ d ∷ file) = some (int32 (be32toh a b c d), file)
read_int32 (a ∷ b ∷ c ∷ []) = none
read_int32 (a ∷ b ∷ []) = none
read_int32 (a ∷ []) = none
read_int32 [] = none

-- File::readUInt8
unfoldable pub read_uint8 : List ℕ → Option (ℕ × List ℕ)
read_uint8 [] = none
read_uint8 (a ∷ file) = some (a, file)

-- "TZif"
abbrev pub magic : List ℕ
magic = 84 ∷ 90 ∷ 105 ∷ 102 ∷ []

abbrev pub same_text : List ℕ → List ℕ → Bool
same_text [] [] = true
same_text [] (y ∷ ys) = false
same_text (x ∷ xs) [] = false
same_text (x ∷ xs) (y ∷ ys) = (x == y) && same_text xs ys

-- The counts of the header that are used: timecnt, typecnt and charcnt.
pub record Counts : Type 0 where
  pub timecnt : ℤ
  pub typecnt : ℤ
  pub charcnt : ℤ

unfoldable pub read_header : List ℕ → Option (Counts × List ℕ)
read_header file = do
  (head, file) ← read_bytes 4 file
  check (same_text head magic)
  (version, file) ← read_bytes 1 file
  (unused, file) ← read_bytes 15 file
  (isgmtcnt, file) ← read_int32 file
  (isstdcnt, file) ← read_int32 file
  (leapcnt, file) ← read_int32 file
  (timecnt, file) ← read_int32 file
  (typecnt, file) ← read_int32 file
  (charcnt, file) ← read_int32 file
  some (record { timecnt = timecnt; typecnt = typecnt; charcnt = charcnt }, file)

-- The loops over the times and over their indices.
unfoldable pub read_trans : ℕ → List ℕ → Option (List ℤ × List ℕ)
read_trans zero file = some ([], file)
read_trans (suc n) file = do
  (t, file) ← read_int32 file
  (ts, file) ← read_trans n file
  some (t ∷ ts, file)

unfoldable pub read_indices : ℕ → List ℕ → Option (List ℕ × List ℕ)
read_indices zero file = some ([], file)
read_indices (suc n) file = do
  (i, file) ← read_uint8 file
  (is, file) ← read_indices n file
  some (i ∷ is, file)

-- The loop over the types: what it has pushed when it ends or throws.
unfoldable pub read_localtime : List ℕ → Option (Localtime × List ℕ)
read_localtime file = do
  (gmtoff, file) ← read_int32 file
  (isdst, file) ← read_uint8 file
  (abbrind, file) ← read_uint8 file
  some (record { gmt_offset = gmtoff; is_dst = not (isdst == 0); arrb_idx = abbrind }, file)

unfoldable pub read_localtimes : ℕ → List ℕ → List Localtime × Option (List ℕ)
read_localtimes zero file = ([], some file)
read_localtimes (suc n) file = elim (read_localtime file) [
  | none ↦ ([], none)
  | some (l, file) ↦ let (ls, end) = read_localtimes n file in (l ∷ ls, end)
]

-- The loop that makes the transitions; an index past the types is undefined.
unfoldable pub make_transitions : List Localtime → List ℤ → List ℕ → Option (List Transition)
make_transitions ls (t ∷ ts) (i ∷ is) = do
  local ← get_elem? ls i
  rest ← make_transitions ls ts is
  some (record { gmttime = t; localtime = t +ℤ local.gmt_offset; localtime_idx = i } ∷ rest)
make_transitions ls [] is = some []
make_transitions ls (t ∷ ts) [] = some []

-- Of a length below zero the array on the stack is undefined.
unfoldable pub read_abbreviation : ℤ → Data → List ℕ → Option Data
read_abbreviation (negsuc n) zone file = none
read_abbreviation (pos n) zone file = elim (read_bytes n file) [
  | none ↦ some zone
  | some (s, file) ↦ some (record zone { abbreviation = s })
]

abbrev pub turns : ℤ → ℕ
turns (pos n) = n
turns (negsuc n) = 0

-- The rest of the file behind the types that have been read, when there was enough of it for them all.
unfoldable pub read_rest :
    Counts → List ℤ → List ℕ → Data → List Localtime × Option (List ℕ) → Option Data
read_rest counts trans indices zone (ls, none) =
    some (record zone { localtimes = zone.localtimes ++ ls })
read_rest counts trans indices zone (ls, some file) = do
  ts ← make_transitions (zone.localtimes ++ ls) trans indices
  read_abbreviation counts.charcnt
      (record zone { transitions = zone.transitions ++ ts; localtimes = zone.localtimes ++ ls })
      file

unfoldable pub read_types : Counts → List ℤ → List ℕ → List ℕ → Data → Option Data
read_types counts trans indices file zone =
    read_rest counts trans indices zone (read_localtimes (turns counts.typecnt) file)

-- `reserve` of a negative count throws a length_error, which is a logic_error.
unfoldable pub read_times : List ℕ → Option (Counts × List ℤ × List ℕ × List ℕ)
read_times file = do
  (counts, file) ← read_header file
  n ← natural counts.timecnt
  (trans, file) ← read_trans n file
  (indices, file) ← read_indices n file
  some (counts, trans, indices, file)

-- readTimeZoneFile, which returns true in every case.
unfoldable pub read_time_zone_file : Option (List ℕ) → Data → Option Data
read_time_zone_file none zone = some zone
read_time_zone_file (some file) zone = elim (read_times file) [
  | none ↦ some zone
  | some (counts, trans, indices, file) ↦ read_types counts trans indices file zone
]

-- TimeZone::TimeZone
unfoldable pub new : Option (List ℕ) → Option Data
new file =
    read_time_zone_file file (record { transitions = []; localtimes = []; abbreviation = [] })
