-- ===== src/LogFile/Tests.antt =====
-- A log whose fwrite(3) takes two bytes at most.
use cobra.Base.{
  arith, ℕ, suc, ◌+◌, ◌%◌, ◌^◌, ◌≤◌, ◌≡◌, refl, true, List, [], ◌∷◌, some, length, min,
}
use cobra.LogFile.{File, LogFile, Host, append_file, new}
use cobra.LogFile.Append.{IsFwrite, Wrote, append_file_lem}
use cobra.LogFile.Rolling.{Inv, CanOpen, all_text}
use cobra.LogFile.Written.{IsReliable, append_all, all_bytes, new-append_all}

abbrev fwrite : File → List ℕ → ℕ
fwrite f bytes = min 2 (length bytes)

fwrite-IsFwrite : IsFwrite fwrite
fwrite-IsFwrite f bytes = omega arith

fwrite-IsReliable : IsReliable fwrite
fwrite-IsReliable f c cs = omega arith

abbrev host : Host
host = record { stamp = λ t. t ∷ []; hostname = 104 ∷ []; pid = 55 ∷ []; opens = λ _. true }

host-CanOpen : CanOpen host
host-CanOpen name = refl

abbrev file : File
file = record { name = 97 ∷ []; text = 1 ∷ []; flushed = 0; writes = 1; written_bytes = 1 }

append_file_lem_example :
    (f' : File) × (append_file fwrite (5 ∷ 6 ∷ 7 ∷ []) file ≡ some f')
    × Wrote fwrite (5 ∷ 6 ∷ 7 ∷ []) file f'
    × (f'.writes ≤ suc (1 + 3))
    × (f'.written_bytes ≡ (1 + 3) % 2 ^ 64)
append_file_lem_example = append_file_lem fwrite (5 ∷ 6 ∷ 7 ∷ []) file fwrite-IsFwrite

-- A file that is full, at the day's second 5, and the log that it belongs to.
abbrev log : LogFile
log = record {
  basename = 97 ∷ [];
  roll_size = 3;
  flush_interval = 3;
  count = 0;
  start_of_period = 86400;
  last_roll = 86405;
  last_flush = 86405;
  file = some (record {
    name = 97 ∷ 86405 ∷ 104 ∷ 46 ∷ 55 ∷ 46 ∷ 108 ∷ 111 ∷ 103 ∷ [];
    text = 1 ∷ [];
    flushed = 0;
    writes = 1;
    written_bytes = 1;
  });
  closed = [];
}

abbrev lines : List (ℕ × ℕ × List ℕ)
lines =
    (86401, 86401, 5 ∷ 6 ∷ 7 ∷ 8 ∷ []) ∷ (86401, 86402, 9 ∷ []) ∷ (86403, 86403, 10 ∷ 11 ∷ []) ∷ []

new-append_all_example :
    (l : LogFile) × (l' : LogFile) × (new host (97 ∷ []) 3 3 86401 ≡ some l)
    × (append_all fwrite host lines l ≡ some l')
    × Inv host l'
    × (all_text l' ≡ all_bytes lines)
new-append_all_example =
    new-append_all fwrite host (97 ∷ []) 3 3 86401 lines fwrite-IsFwrite fwrite-IsReliable
      host-CanOpen refl (omega arith)
