-- ===== src/LogFile.antt =====
-- base/LogFile.cc: a log in files of a bounded size and a bounded time. What fwrite(3) takes, which files
-- can be opened, the clock and the host are parameters; a failed assertion and a null pointer are `none`.
pub mod Append
pub mod Rolling
pub mod Written
mod Tests
use cobra.Base.{
  ◌||◌, ℕ, zero, suc, ◌+◌, ◌-◌, ◌*◌, ◌/◌, ◌%◌, ◌^◌, Bool, true, false, not, List, [], ◌∷◌, ◌++◌,
  Option, none, some, if◌then◌else◌, check, ◌>>=◌, ◌>>◌, length, take, drop, ltb, ◌==◌,
}

-- LogFile::File: its name and what fwrite(3) took for it so far, how much of that is flushed, and how often
-- fwrite(3) was called.
pub record File : Type 0 where
  pub name : List ℕ
  pub text : List ℕ
  pub flushed : ℕ
  pub writes : ℕ
  pub written_bytes : ℕ

-- LogFile::File::File; a null pointer from fopen(3) fails the assertion.
abbrev pub new_file : (List ℕ → Bool) → List ℕ → Option File
new_file opens name = do
  check (opens name)
  some (record { name = name; text = []; flushed = 0; writes = 0; written_bytes = 0 })

-- LogFile::File::write
abbrev pub write : (File → List ℕ → ℕ) → List ℕ → File → ℕ × File
write fwrite bytes f = (
  fwrite f bytes,
  record f { text = f.text ++ take (fwrite f bytes) bytes; writes = suc f.writes },
)

-- The loop of File::append over the bytes that remain, on fuel.
pub append_loop : (File → List ℕ → ℕ) → ℕ → List ℕ → File → Option File
append_loop fwrite zero bytes f = none
append_loop fwrite (suc fuel) [] f = some f
append_loop fwrite (suc fuel) (c ∷ cs) f =
    let (x, f') = write fwrite (c ∷ cs) f in
    let again = append_loop fwrite fuel (drop x (c ∷ cs)) f' in if x == 0 then some f' else again

-- LogFile::File::append. Each turn but the last takes a byte at least.
pub append_file : (File → List ℕ → ℕ) → List ℕ → File → Option File
append_file fwrite bytes f = do
  let (n, f') : ℕ × File = write fwrite bytes f
  f'' ← append_loop fwrite (suc (length bytes)) (drop n bytes) f'
  some (record f'' { written_bytes = (f''.written_bytes + length bytes) % 2 ^ 64 })

-- LogFile::File::flush
abbrev pub flush_file : File → File
flush_file f = record f { flushed = length f.text }

abbrev pub check_time_roll : ℕ
check_time_roll = 1024

abbrev pub roll_per_seconds : ℕ
roll_per_seconds = 60 * 60 * 24

-- What a log file takes from outside: the text of a time in a name, the host's name, the process's number
-- as text, and the files that can be opened.
pub record Host : Type 0 where
  pub stamp : ℕ → List ℕ
  pub hostname : List ℕ
  pub pid : List ℕ
  pub opens : List ℕ → Bool

-- LogFile, with the files that it has closed, the last one first.
pub record LogFile : Type 0 where
  pub basename : List ℕ
  pub roll_size : ℕ
  pub flush_interval : ℕ
  pub count : ℕ
  pub start_of_period : ℕ
  pub last_roll : ℕ
  pub last_flush : ℕ
  pub file : Option File
  pub closed : List File

-- LogFile::getLogFileName for the time `now`.
pub get_log_file_name : Host → List ℕ → ℕ → List ℕ
get_log_file_name host basename now =
    basename ++ host.stamp now ++ host.hostname ++ 46 ∷ host.pid ++ 46 ∷ 108 ∷ 111 ∷ 103 ∷ []

abbrev pub period_of : ℕ → ℕ
period_of now = now / roll_per_seconds * roll_per_seconds

abbrev pub with_old : Option File → List File → List File
with_old none fs = fs
with_old (some f) fs = f ∷ fs

-- LogFile::rollFile at the time `now`.
pub roll_file : Host → ℕ → LogFile → Option LogFile
roll_file host now l = elim (ltb l.last_roll now) [
  | true ↦ (do
    f ← new_file host.opens (get_log_file_name host l.basename now)
    some (record l {
      last_roll = now;
      last_flush = now;
      start_of_period = period_of now;
      file = some f;
      closed = with_old l.file l.closed;
    }))
  | false ↦ some l
]

abbrev pub has_slash : List ℕ → Bool
has_slash [] = false
has_slash (c ∷ cs) = (c == 47) || has_slash cs

-- LogFile::LogFile
pub new : Host → List ℕ → ℕ → ℕ → ℕ → Option LogFile
new host basename roll_size flush_interval now = do
  check (not (has_slash basename))
  roll_file host now (record {
    basename = basename;
    roll_size = roll_size;
    flush_interval = flush_interval;
    count = 0;
    start_of_period = 0;
    last_roll = 0;
    last_flush = 0;
    file = none;
    closed = [];
  })

-- The part of append_unlocked behind the size, at the time `now`; where it rolls, it is `later`.
pub check_time : Host → ℕ → ℕ → File → LogFile → Option LogFile
check_time host now later f l =
    let rolled = roll_file host later (record l { count = 0 }) in
    if not (ltb check_time_roll l.count)
    then some (record l { count = suc l.count })
    else if not (period_of now == l.start_of_period)
    then rolled
    else if ltb l.flush_interval (now - l.last_flush)
    then some (record l { count = 0; last_flush = now; file = some (flush_file f) })
    else some (record l { count = 0 })

-- LogFile::append_unlocked
pub append_unlocked : (File → List ℕ → ℕ) → Host → ℕ → ℕ → List ℕ → LogFile → Option LogFile
append_unlocked fwrite host now later bytes l = do
  f ← l.file
  f' ← append_file fwrite bytes f
  let l' : LogFile = record l { file = some f' }
  if ltb l.roll_size f'.written_bytes
      then roll_file host later l'
      else check_time host now later f' l'

-- LogFile::flush
pub flush : LogFile → Option LogFile
flush l = do f ← l.file; some (record l { file = some (flush_file f) })
