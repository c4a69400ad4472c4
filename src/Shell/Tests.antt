-- ===== src/Shell/Tests.antt =====
-- Runs of the functions with calls on a system that answers one thing.
use a_test.Base.{ℕ, some, none, true, false, ◌-◌, ◌^◌, ◌≡◌, ◌⊎◌, refl, List, [], ◌∷◌}
use a_test.Memory.{ok, fault}
use a_test.System.{value, error, fopen_write, open_file, write, failed, Os}
use a_test.Shell.{msg_log, to_file_init, driver_main, device}
use a_test.Shell.Answers.{print_all, logged, to_file_init-Logs}

-- Every call answers 3.
abbrev three : Os
three h c = value 3

abbrev texts : List (List ℕ)
texts = (104 ∷ []) ∷ (105 ∷ []) ∷ []

to_file_init-Logs_example :
    (((to_file_init three []).0 ≡ fault) × (failed (three [] (fopen_write msg_log)) ≡ true)
      ⊎ ((fp : ℕ) × ((to_file_init three []).0 ≡ ok (some fp))
          × (failed (three [] (fopen_write msg_log)) ≡ false)
          × ((print_all (some fp) texts three (to_file_init three []).1).1
              ≡ logged three fp texts
                  ((fopen_write msg_log, three [] (fopen_write msg_log)) ∷ []))))
    × ((print_all none texts three []).1 ≡ [])
to_file_init-Logs_example = to_file_init-Logs three texts []

-- A device that cannot be opened is written to.
writes_anyway :
    (driver_main (λ h c. error 2) []).1
    ≡ (write (2 ^ 32 - 1) (1 ∷ 0 ∷ 0 ∷ 0 ∷ []), error 2) ∷ (open_file device, error 2) ∷ []
unfolding driver_main
writes_anyway = refl
