-- ===== src/Shell.antt =====
-- Calls of the system in src/common.c and src/driver_module.c: systemRet, process_task, to_file_init,
-- the macro msg_printf, and driver_main. What WIFEXITED and WEXITSTATUS make of a status is an
-- argument. The fixed lines on the console are left out.
pub mod Answers
mod Tests
use a_test.Base.{ℕ, zero, suc, ◌-◌, ◌^◌, Bool, true, false, List, [], ◌∷◌, Option, none, some}
use a_test.Memory.{Run, ok, fault}
use a_test.System.{
  Answer, value, bytes, error, Call, fork, open_file, write, fopen_write, fwrite, system, Prog,
  pure, call, ◌>>=◌, ◌>>◌, fd_of,
}

-- "cp -r /workspace/master/linux_kernal ./tmp"
abbrev pub copy_kernel : List ℕ
copy_kernel =
    99 ∷ 112 ∷ 32 ∷ 45 ∷ 114 ∷ 32 ∷ 47 ∷ 119 ∷ 111 ∷ 114 ∷ 107 ∷ 115 ∷ 112 ∷ 97 ∷ 99 ∷ 101 ∷ 47
    ∷ 109 ∷ 97 ∷ 115 ∷ 116 ∷ 101 ∷ 114 ∷ 47 ∷ 108 ∷ 105 ∷ 110 ∷ 117 ∷ 120 ∷ 95 ∷ 107 ∷ 101 ∷ 114
    ∷ 110 ∷ 97 ∷ 108 ∷ 32 ∷ 46 ∷ 47 ∷ 116 ∷ 109 ∷ 112 ∷ []

-- What systemRet reports: system failed, the command ended with 0, with another code, or did not
-- exit.
pub data Report : Type 0 where
  system_failed : Report
  run_done : Report
  exit_code : ℕ → Report
  not_exited : Report

abbrev pub report_code : ℕ → Report
report_code zero = run_done
report_code (suc n) = exit_code (suc n)

module _ (wifexited : ℕ → Bool) (wexitstatus : ℕ → ℕ) where
  abbrev pub report_exit : Bool → ℕ → Report
  report_exit true stat = report_code (wexitstatus stat)
  report_exit false stat = not_exited

  abbrev pub report_of : Answer → Report
  report_of (value stat) = report_exit (wifexited stat) stat
  report_of (bytes bs) = system_failed
  report_of (error e) = system_failed

  -- The report, and the result.
  unfoldable pub system_ret : Prog (Report × ℕ)
  system_ret = do stat ← call (system copy_kernel); pure (report_of stat, 0)

-- The branches of process_task have no body; a child and its parent go the same way on.
abbrev pub task_result : Answer → ℕ
task_result (value pid) = 1
task_result (bytes bs) = 1
task_result (error e) = 2

unfoldable pub process_task : Prog ℕ
process_task = do pid ← call fork; pure (task_result pid)

-- "./msg.log"
abbrev pub msg_log : List ℕ
msg_log = 46 ∷ 47 ∷ 109 ∷ 115 ∷ 103 ∷ 46 ∷ 108 ∷ 111 ∷ 103 ∷ []

-- setbuf(g_msg_fp, NULL); a stream that is NULL is not allowed.
abbrev pub setbuf : Option ℕ → Run (Option ℕ)
setbuf none = fault
setbuf (some fp) = ok (some fp)

-- g_msg_fp afterwards.
unfoldable pub to_file_init : Prog (Run (Option ℕ))
to_file_init = do f ← call (fopen_write msg_log); pure (setbuf (fd_of f))

unfoldable pub msg_printf : Option ℕ → List ℕ → Prog (Unit {0})
msg_printf none text = pure tt
msg_printf (some g_msg_fp) text = do call (fwrite g_msg_fp text); pure tt

-- "/dev/mes"
abbrev pub device : List ℕ
device = 47 ∷ 100 ∷ 101 ∷ 118 ∷ 47 ∷ 109 ∷ 101 ∷ 115 ∷ []

-- The descriptor that write gets: -1 where the device was not opened.
abbrev pub descriptor : Option ℕ → ℕ
descriptor none = 2 ^ 32 - 1
descriptor (some fd) = fd

-- The four bytes of the int 1.
unfoldable pub driver_main : Prog (Unit {0})
driver_main = do
  f ← call (open_file device)
  call (write (descriptor (fd_of f)) (1 ∷ 0 ∷ 0 ∷ 0 ∷ []))
  pure tt
