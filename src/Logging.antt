-- ===== src/Logging.antt =====
-- The log files of src/logging.c. What localtime answers is an argument; fprintf is a fwrite of
-- its text. The messages to the console are left out.
pub mod Files
mod Tests
use a_test.Base.{
  ◌%◌, ◌^◌, ◌-◌, ◌&&◌, ltb, ℕ, zero, suc, Bool, true, false, List, [], ◌∷◌, ◌++◌, Option, none,
  some, leb,
}
use a_test.Clock.{Tm, now_time}
use a_test.Memory.{Run, ok, fault}
use a_test.System.{
  Answer, value, bytes, error, Call, fopen_append, fopen_write, ftell, fclose, fwrite, system, Prog,
  pure, call, ◌>>=◌, ◌>>◌, fd_of,
}

-- "/A_test/debug.log"
abbrev pub debug_log : List ℕ
debug_log =
    47 ∷ 65 ∷ 95 ∷ 116 ∷ 101 ∷ 115 ∷ 116 ∷ 47 ∷ 100 ∷ 101 ∷ 98 ∷ 117 ∷ 103 ∷ 46 ∷ 108 ∷ 111 ∷ 103
    ∷ []

-- "mv /A_test/debug.log /A_test/debug_bak.log"
abbrev pub move_log : List ℕ
move_log =
    109 ∷ 118 ∷ 32 ∷ 47 ∷ 65 ∷ 95 ∷ 116 ∷ 101 ∷ 115 ∷ 116 ∷ 47 ∷ 100 ∷ 101 ∷ 98 ∷ 117 ∷ 103 ∷ 46
    ∷ 108 ∷ 111 ∷ 103 ∷ 32 ∷ 47 ∷ 65 ∷ 95 ∷ 116 ∷ 101 ∷ 115 ∷ 116 ∷ 47 ∷ 100 ∷ 101 ∷ 98 ∷ 117 ∷ 103
    ∷ 95 ∷ 98 ∷ 97 ∷ 107 ∷ 46 ∷ 108 ∷ 111 ∷ 103 ∷ []

-- "/A_test/debug_0.log"
abbrev pub debug_0_log : List ℕ
debug_0_log =
    47 ∷ 65 ∷ 95 ∷ 116 ∷ 101 ∷ 115 ∷ 116 ∷ 47 ∷ 100 ∷ 101 ∷ 98 ∷ 117 ∷ 103 ∷ 95 ∷ 48 ∷ 46 ∷ 108
    ∷ 111 ∷ 103 ∷ []

-- `int val = ftell(fp)`: the 32 bits that are left of the long.
abbrev pub size_of : Answer → ℕ
size_of (value n) = n % 2 ^ 32
size_of (bytes bs) = 0
size_of (error e) = 2 ^ 32 - 1

-- `val >= 50`, where an int with the bits of 2^31 or more is below 0.
abbrev pub is_long : ℕ → Bool
is_long val = ltb val (2 ^ 31) && leb 50 val

-- `return -1` where the file is NULL, and 0 after the rest.
abbrev pub on_file : Option ℕ → (ℕ → Prog (Option ℕ)) → Prog (Option ℕ)
on_file none k = pure none
on_file (some fp) k = k fp

-- A file of 50 bytes or more is moved away, and a new one is opened.
abbrev pub rotate : Bool → ℕ → (ℕ → Prog (Option ℕ)) → Prog (Option ℕ)
rotate false fp k = k fp
rotate true fp k = do
  call (fclose fp)
  call (system move_log)
  again ← call (fopen_append debug_log)
  on_file (fd_of again) k

-- What now_time prints, and the end of the line.
abbrev pub date_line : Tm → List ℕ
date_line now = now_time now ++ 10 ∷ []

abbrev pub log_date : List ℕ → ℕ → Prog (Option ℕ)
log_date date fp = do call (fwrite fp date); call (fclose fp); pure (some 0)

unfoldable pub main_log : Tm → Prog (Option ℕ)
main_log now = do
  f ← call (fopen_append debug_log)
  on_file (fd_of f)
      (λ fp. do val ← call (ftell fp); rotate (is_long (size_of val)) fp (log_date (date_line now)))

-- The result where the file was opened is not defined, and not used.
unfoldable pub debug_logging : List ℕ → Prog (Unit {0})
debug_logging path = do call (fopen_append path); pure tt

-- The path is the first result.
unfoldable pub log_init : Prog (List ℕ)
log_init = do debug_logging debug_0_log; pure debug_0_log

-- g_log_f after log_file_init; the result is TRUE where it is not NULL.
unfoldable pub log_file_init : List ℕ → Prog (Option ℕ)
log_file_init filename = do f ← call (fopen_write filename); pure (fd_of f)

-- g_log_f is not tested; fwrite to NULL is a fault.
unfoldable pub write_file : Option ℕ → List ℕ → Prog (Run (Unit {0}))
write_file none buf = pure fault
write_file (some fp) buf = do call (fwrite fp buf); pure (ok tt)

-- g_log_f afterwards.
unfoldable pub log_file_close : Option ℕ → Prog (Option ℕ)
log_file_close none = pure none
log_file_close (some fp) = do call (fclose fp); pure none
