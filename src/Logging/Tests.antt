-- ===== src/Logging/Tests.antt =====
-- The log files of src/logging.c with a concrete system.
use a_test.Base.{some, ◌≡◌, refl, [], ◌∷◌}
use a_test.System.{value, fopen_append, fopen_write, ftell, Os, fd_of}
use a_test.Clock.{Tm}
use a_test.Logging.{date_line, move_log, debug_0_log, main_log, log_init}
use a_test.Logging.Files.{files, commands, opened, Logs, session, Sessions, logging-Files}

-- A log of 60 bytes.
abbrev long_log : Os
long_log h (fopen_append p) = value 5
long_log h (fopen_write p) = value 6
long_log h (ftell fp) = value 60
long_log h _ = value 0

-- 2026-11-25 12:00:00
abbrev noon : Tm
noon = record { tm_year = 126; tm_mon = 10; tm_mday = 25; tm_hour = 12; tm_min = 0; tm_sec = 0 }

moved_once : commands (main_log noon long_log []).1 ≡ move_log ∷ []
unfolding main_log
moved_once = refl

logging-Files_example :
    Logs (date_line noon) [] (main_log noon long_log [])
    × (files (log_init long_log []).1
        ≡ opened (fd_of (long_log [] (fopen_append debug_0_log))) (files []))
    × Sessions
        (some 6)
        ((1 ∷ []) ∷ (2 ∷ []) ∷ [])
        []
        (session (108 ∷ []) ((1 ∷ []) ∷ (2 ∷ []) ∷ []) long_log [])
logging-Files_example = logging-Files noon (108 ∷ []) ((1 ∷ []) ∷ (2 ∷ []) ∷ []) long_log []
