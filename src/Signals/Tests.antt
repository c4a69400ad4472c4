-- ===== src/Signals/Tests.antt =====
-- Runs of the handlers of src/common.c and src/process_interactive.c.
use a_test.Base.{◌≢◌, ◌⊎◌, ℕ, ◌≤◌, ◌≡◌, refl, inl, Bool, true, [], ◌∷◌, none, some, replicate}
use a_test.Signals.{
  received, killed, running, Delivery, main_dump, sig_handler, deliver_all, begin, sigint, sigsegv,
  dump_backtrace, myfunc3, with_strings, print_symbols, handle, deliver,
}
use a_test.Signals.Trace.{dumps, times}
use a_test.Signals.Dumps.{main_dump_once}
use a_test.Signals.Alarm.{sig_handler_stays}

-- Every signal ends a process by default.
abbrev all_end : ℕ → Bool
all_end n = true

abbrev segv : Delivery
segv = record { signum = sigsegv; nptrs = 2; strings = some (λ j. j ∷ []) }

abbrev interrupt : Delivery
interrupt = record { signum = sigint; nptrs = 0; strings = none }

main_dump_once_example :
    (dumps sigsegv (deliver_all all_end (segv ∷ segv ∷ []) (main_dump 7 begin)).output ≤ 1)
    × (((deliver_all all_end (segv ∷ segv ∷ []) (main_dump 7 begin)).status ≢ running)
        ⊎ (dumps sigsegv (deliver_all all_end (segv ∷ segv ∷ []) (main_dump 7 begin)).output
            ≡ times sigsegv (segv ∷ segv ∷ [])))
main_dump_once_example = main_dump_once all_end sigsegv 7 (segv ∷ segv ∷ []) refl (inl refl)

-- The instruction at fault runs again behind the handler.
second_kills : (deliver_all all_end (segv ∷ segv ∷ []) (main_dump 7 begin)).status ≡ killed sigsegv
unfolding deliver_all deliver main_dump dump_backtrace myfunc3 with_strings print_symbols handle
second_kills = refl

sig_handler_stays_example :
    ((deliver_all all_end (interrupt ∷ interrupt ∷ []) (sig_handler begin)).status ≡ running)
    × ((deliver_all all_end (interrupt ∷ interrupt ∷ []) (sig_handler begin)).output
        ≡ replicate 2 (received sigint))
sig_handler_stays_example =
    sig_handler_stays all_end (interrupt ∷ interrupt ∷ []) (refl, (refl, tt))
