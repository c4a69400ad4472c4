-- ===== src/Shell/Answers.antt =====
-- What the functions of src/common.c and src/driver_module.c do for each answer of the system.
use a_test.Base.{
  ℕ, zero, suc, ◌≡◌, ◌↔◌, ◌⊎◌, inl, inr, refl, ◌∙◌, Bool, true, false, List, [], ◌∷◌, Option, none,
  some, ap,
}
use a_test.Memory.{ok, fault}
use a_test.System.{
  Answer, value, bytes, error, fopen_write, fwrite, system, Prog, pure, ◌>>◌, fd_of, failed, Os,
  Trace,
}
use a_test.Shell.{
  copy_kernel, run_done, report_code, report_exit, report_of, system_ret, msg_log, setbuf,
  to_file_init, msg_printf,
}

-- The messages one after another.
unfoldable pub print_all : Option ℕ → List (List ℕ) → Prog (Unit {0})
print_all g_msg_fp [] = pure tt
print_all g_msg_fp (text ∷ texts) = msg_printf g_msg_fp text >> print_all g_msg_fp texts

-- The writes of the texts to the file, with the answers of the system, newest first.
unfoldable pub logged : Os → ℕ → List (List ℕ) → Trace → Trace
logged os fp [] h = h
logged os fp (text ∷ texts) h = logged os fp texts ((fwrite fp text, os h (fwrite fp text)) ∷ h)

print_all-none : (os : Os) (texts : List (List ℕ)) (h : Trace) → (print_all none texts os h).1 ≡ h
unfolding print_all msg_printf
print_all-none os [] h = refl
print_all-none os (text ∷ texts) h = print_all-none os texts h

print_all-some :
    (os : Os) (fp : ℕ) (texts : List (List ℕ)) (h : Trace)
    → (print_all (some fp) texts os h).1 ≡ logged os fp texts h
unfolding print_all msg_printf logged
print_all-some os fp [] h = refl
print_all-some os fp (text ∷ texts) h = print_all-some os fp texts _

-- What the answer makes of to_file_init.
init_cases :
    (a : Answer)
    → ((setbuf (fd_of a) ≡ fault) × (failed a ≡ true))
      ⊎ ((fp : ℕ) × (setbuf (fd_of a) ≡ ok (some fp)) × (failed a ≡ false))
init_cases (value n) = inr (n, refl, refl)
init_cases (bytes bs) = inr (_, refl, refl)
init_cases (error e) = inl (refl, refl)

-- Whatever the system answers: to_file_init hands setbuf a NULL stream where fopen fails, and opens
-- the file otherwise; with the file, each message is one write to it, in order, and with g_msg_fp
-- NULL there is no call.
pub to_file_init-Logs :
    (os : Os) (texts : List (List ℕ)) (h : Trace)
    → (((to_file_init os h).0 ≡ fault) × (failed (os h (fopen_write msg_log)) ≡ true)
        ⊎ ((fp : ℕ) × ((to_file_init os h).0 ≡ ok (some fp))
            × (failed (os h (fopen_write msg_log)) ≡ false)
            × ((print_all (some fp) texts os (to_file_init os h).1).1
                ≡ logged os fp texts ((fopen_write msg_log, os h (fopen_write msg_log)) ∷ h))))
      × ((print_all none texts os h).1 ≡ h)
unfolding to_file_init
to_file_init-Logs os texts h = (
  elim (init_cases (os h (fopen_write msg_log))) [
    | inl (f, e) ↦ inl (f, e)
    | inr (fp, f, e) ↦ inr (fp, f, e, print_all-some os fp texts _)
  ],
  print_all-none os texts h,
)

-- systemRet returns 0 for every answer, and reports a run without error exactly where the command
-- exited with the status 0.
pub system_ret_lem :
    (wifexited : ℕ → Bool) (wexitstatus : ℕ → ℕ) (os : Os) (h : Trace)
    → ((system_ret wifexited wexitstatus os h).0.1 ≡ 0)
      × (((system_ret wifexited wexitstatus os h).0.0 ≡ run_done) ↔ (
          (stat : ℕ) × (os h (system copy_kernel) ≡ value stat)
          × (wifexited stat ≡ true)
          × (wexitstatus stat ≡ 0)))
unfolding system_ret
system_ret_lem wifexited wexitstatus os h = (
  refl,
  (
    λ r. done-reported (os h (system copy_kernel)) r,
    λ (stat, a, x, z). ap (report_of wifexited wexitstatus) a ∙ rw (x, z) refl,
  ),
)
  where
    code-done : (n : ℕ) → report_code n ≡ run_done → n ≡ 0
    code-done zero e = refl
    code-done (suc n) e = cc

    exit-done :
        (b : Bool) (stat : ℕ)
        → report_exit wifexited wexitstatus b stat ≡ run_done
        → (b ≡ true) × (wexitstatus stat ≡ 0)
    exit-done true stat e = (refl, code-done (wexitstatus stat) e)
    exit-done false stat e = cc

    done-reported :
        (a : Answer)
        → report_of wifexited wexitstatus a ≡ run_done
        → (stat : ℕ) × (a ≡ value stat) × (wifexited stat ≡ true) × (wexitstatus stat ≡ 0)
    done-reported (value stat) e =
        let (x, z) = exit-done (wifexited stat) stat e in (stat, refl, x, z)
    done-reported (bytes bs) e = cc
    done-reported (error n) e = cc
