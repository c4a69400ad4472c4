-- ===== src/Logging/Files.antt =====
-- The files that the functions of src/logging.c leave open, and what they write.
use a_test.Base.{
  ap, ◌%◌, ◌^◌, ◌&&◌, ltb, ℕ, suc, ◌≡◌, refl, ◌⊎◌, Bool, true, false, List, [], ◌∷◌, Option, none,
  some, arith, leb, length,
}
use a_test.System.{
  Answer, value, bytes, error, fopen_append, fopen_write, ftell, fclose, fwrite, system, Trace, Os,
  Prog, fd_of, remove, pure, ◌>>=◌,
}
use a_test.Clock.{Tm}
use a_test.Memory.{Run, ok, fault, spinning}
use a_test.Logging.{
  date_line, move_log, debug_0_log, main_log, debug_logging, log_init, log_file_init, write_file,
  log_file_close,
}

-- The files that are open after a trace.
abbrev pub files : Trace → List ℕ
files [] = []
files ((fopen_append p, value fp) ∷ h) = fp ∷ files h
files ((fopen_append p, bytes bs) ∷ h) = length bs ∷ files h
files ((fopen_write p, value fp) ∷ h) = fp ∷ files h
files ((fopen_write p, bytes bs) ∷ h) = length bs ∷ files h
files ((fclose fp, a) ∷ h) = remove fp (files h)
files (_ ∷ h) = files h

-- The writes, and the commands.
abbrev pub logged : Trace → List (ℕ × List ℕ)
logged [] = []
logged ((fwrite fp bs, a) ∷ h) = (fp, bs) ∷ logged h
logged (_ ∷ h) = logged h

abbrev pub commands : Trace → List (List ℕ)
commands [] = []
commands ((system c, a) ∷ h) = c ∷ commands h
commands (_ ∷ h) = commands h

-- The file that was opened last.
abbrev pub newest : Trace → Option ℕ
newest [] = none
newest ((fopen_append p, value fp) ∷ h) = some fp
newest ((fopen_append p, bytes bs) ∷ h) = some (length bs)
newest ((fopen_append p, error e) ∷ h) = none
newest (_ ∷ h) = newest h

-- The answers of ftell that are from 50 to 2^31 - 1 as an int.
abbrev count_if : Bool → ℕ → ℕ
count_if true n = suc n
count_if false n = n

abbrev pub oversize : Trace → ℕ
oversize [] = 0
oversize ((ftell fp, value n) ∷ h) =
    count_if (leb 50 (n % 2 ^ 32) && ltb (n % 2 ^ 32) (2 ^ 31)) (oversize h)
oversize (_ ∷ h) = oversize h

-- The log is moved away for a size that is too large, and else no command is run.
abbrev pub Moves : Trace → Trace → Type 0
Moves h h' =
    ((oversize h' ≡ oversize h) × (commands h' ≡ commands h))
    ⊎ ((oversize h' ≡ suc (oversize h)) × (commands h' ≡ move_log ∷ commands h))

-- With the result 0, the date and nothing else was written; with -1, nothing.
abbrev pub Logs : List ℕ → Trace → Option ℕ × Trace → Type 0
Logs date h (r, h') =
    (files h' ≡ files h)
    × Moves h h'
    × (((r ≡ none) × (logged h' ≡ logged h))
        ⊎ ((r ≡ some 0) × ((fp : ℕ) × (newest h' ≡ some fp) × (logged h' ≡ (fp, date) ∷ logged h))))

main_log-Logs : (now : Tm) (os : Os) (h : Trace) → Logs (date_line now) h (main_log now os h)
unfolding main_log
main_log-Logs now os h = ground arith

-- What follows where there was no fault.
abbrev pub on_ok {ℓ κ} : {A : Type ℓ} {B : Type κ} → Run A → Prog (Run B) → Prog (Run B)
on_ok fault k = pure fault
on_ok spinning k = pure spinning
on_ok (ok a) k = k

-- log_file_init, write_file for each of the texts, and log_file_close.
abbrev pub write_all : Option ℕ → List (List ℕ) → Prog (Run (Unit {0}))
write_all g_log_f [] = pure (ok tt)
write_all g_log_f (buf ∷ bufs) = do r ← write_file g_log_f buf; on_ok r (write_all g_log_f bufs)

abbrev pub close_all : Option ℕ → Prog (Run (Option ℕ))
close_all g_log_f = do g ← log_file_close g_log_f; pure (ok g)

abbrev pub session : List ℕ → List (List ℕ) → Prog (Run (Option ℕ))
session filename bufs = do
  g_log_f ← log_file_init filename
  r ← write_all g_log_f bufs
  on_ok r (close_all g_log_f)

-- The files after one was opened.
abbrev pub opened : Option ℕ → List ℕ → List ℕ
opened none fs = fs
opened (some fp) fs = fp ∷ fs

opened_lem :
    (filename : List ℕ) (a : Answer) (h : Trace)
    → files ((fopen_write filename, a) ∷ h) ≡ opened (fd_of a) (files h)
opened_lem filename (value n) h = refl
opened_lem filename (bytes bs) h = refl
opened_lem filename (error e) h = refl

append_lem :
    (a : Answer) (h : Trace)
    → files ((fopen_append debug_0_log, a) ∷ h) ≡ opened (fd_of a) (files h)
append_lem (value n) h = refl
append_lem (bytes bs) h = refl
append_lem (error e) h = refl

-- The texts, each written to the file, newest first.
abbrev pub onto : ℕ → List (List ℕ) → List (ℕ × List ℕ) → List (ℕ × List ℕ)
onto fp [] rest = rest
onto fp (buf ∷ bufs) rest = onto fp bufs ((fp, buf) ∷ rest)

-- What a session does with the file `g`: with a file, every text was written to it, it is closed,
-- and g_log_f is NULL again; with NULL, the first text is a fault, and nothing was written.
abbrev pub Sessions : Option ℕ → List (List ℕ) → Trace → Run (Option ℕ) × Trace → Type 0
Sessions none [] h (r, h') = (r ≡ ok none) × (files h' ≡ files h) × (logged h' ≡ logged h)
Sessions none (buf ∷ bufs) h (r, h') = (r ≡ fault) × (files h' ≡ files h) × (logged h' ≡ logged h)
Sessions (some fp) bufs h (r, h') =
    (r ≡ ok none) × (files h' ≡ files h) × (logged h' ≡ onto fp bufs (logged h))

-- What follows log_file_init.
abbrev write_and_close : Option ℕ → List (List ℕ) → Prog (Run (Option ℕ))
write_and_close g bufs = write_all g bufs >>= λ r. on_ok r (close_all g)

-- With the file `fp`, where `rest` was written before.
written :
    (fp : ℕ) (bufs : List (List ℕ)) (os : Os) (h₀ h : Trace) (rest : List (ℕ × List ℕ))
    → files h ≡ fp ∷ files h₀
    → logged h ≡ rest
    → ((write_and_close (some fp) bufs os h).0 ≡ ok none)
      × (files (write_and_close (some fp) bufs os h).1 ≡ files h₀)
      × (logged (write_and_close (some fp) bufs os h).1 ≡ onto fp bufs rest)
unfolding write_file log_file_close
written fp [] os h₀ h rest f l = (refl, rw f (ground arith), l)
written fp (buf ∷ bufs) os h₀ h rest f l =
    written fp bufs os h₀ ((fwrite fp buf, os h (fwrite fp buf)) ∷ h) ((fp, buf) ∷ rest) f
      (ap (◌∷◌ (fp, buf)) l)

write_and_close-Sessions :
    (g : Option ℕ) (bufs : List (List ℕ)) (os : Os) (h₀ h : Trace)
    → files h ≡ opened g (files h₀)
    → logged h ≡ logged h₀
    → Sessions g bufs h₀ (write_and_close g bufs os h)
unfolding write_file log_file_close
write_and_close-Sessions none [] os h₀ h f l = (refl, f, l)
write_and_close-Sessions none (buf ∷ bufs) os h₀ h f l = (refl, f, l)
write_and_close-Sessions (some fp) bufs os h₀ h f l = written fp bufs os h₀ h (logged h₀) f l

session_lem :
    (filename : List ℕ) (bufs : List (List ℕ)) (os : Os) (h : Trace)
    → Sessions (fd_of (os h (fopen_write filename))) bufs h (session filename bufs os h)
unfolding log_file_init
session_lem filename bufs os h =
    let a = os h (fopen_write filename) in
    write_and_close-Sessions (fd_of a) bufs os h ((fopen_write filename, a) ∷ h)
      (opened_lem filename a h) refl

-- Whatever the system answers: main_log leaves no file open, moves the log away exactly when the
-- size that ftell answered is from 50 to 2^31 - 1 as an int, and writes the date once, to the
-- file that it opened last, where it returns 0 and nothing where it returns -1. log_init leaves the file that it opened open. After
-- log_file_init, any number of calls of write_file and log_file_close, no more file is open than
-- before, and every text was written to the file, in order; but where the file could not be opened,
-- the first call of write_file is a fault.
pub logging-Files :
    (now : Tm) (filename : List ℕ) (bufs : List (List ℕ)) (os : Os) (h : Trace)
    → Logs (date_line now) h (main_log now os h)
      × (files (log_init os h).1 ≡ opened (fd_of (os h (fopen_append debug_0_log))) (files h))
      × Sessions (fd_of (os h (fopen_write filename))) bufs h (session filename bufs os h)
unfolding log_init debug_logging
logging-Files now filename bufs os h = (
  main_log-Logs now os h,
  append_lem (os h (fopen_append debug_0_log)) h,
  session_lem filename bufs os h,
)
