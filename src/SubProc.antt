-- ===== src/SubProc.antt =====
-- The sub-processes of src/process_interactive.c (lines 468 to 600), and `route_main` of
-- src/route_algo.c, which starts them and waits. Each process has its own copy of the table; a run
-- of a function is the run of one process, in which fork answers 0 to a child.
pub mod Family
pub mod Exit
mod Tests
use a_test.Base.{
  ℕ, zero, suc, ◌+◌, Bool, true, false, List, Option, none, some, ◌==◌, if◌then◌else◌, set,
}
use a_test.System.{
  Answer, value, bytes, error, Call, fork, getpid, sleep, wait_child, Ending, returns, exits,
  runs_on, Prog, pure, call, ◌>>=◌, ◌>>◌,
}

abbrev pub max_sub_proc_num : ℕ
max_sub_proc_num = 20

-- enum SUB_PROC_SN
abbrev pub sub_proc_num : ℕ
sub_proc_num = 5

-- The functions that the table points to.
pub data Func : Type 0 where
  timer_test : Func

-- `none` is NULL; the argument is the field `data`.
pub record SubProc : Type 0 where
  pub valid : Bool
  pub pid : ℕ
  pub func : Option Func
  pub arg : ℕ

-- getpid and fork answer a number; -1 is not below.
abbrev pub pid_of : Answer → ℕ
pid_of (value pid) = pid
pid_of (bytes bs) = 0
pid_of (error e) = 0

-- The switch over the index.
abbrev pub assign : ℕ → SubProc → SubProc
assign zero s = record s { func = some timer_test; arg = 5 }
assign (suc zero) s = record s { func = some timer_test; arg = 10 }
assign (suc (suc zero)) s = record s { func = some timer_test; arg = 15 }
assign (suc (suc (suc zero))) s = record s { func = some timer_test; arg = 20 }
assign (suc (suc (suc (suc zero)))) s = record s { func = some timer_test; arg = 25 }
assign (suc (suc (suc (suc (suc i))))) s = s

-- timer_test sleeps and exits; with no function the loop sleeps on and on.
abbrev pub run_func : Option Func → ℕ → Prog (Ending (Unit {0}))
run_func none arg = do call (sleep 1); pure runs_on
run_func (some timer_test) arg = do call (sleep arg); pure (exits 0)

unfoldable pub sub_proc_exec_func : ℕ → List SubProc → Prog (List SubProc × Ending (Unit {0}))
sub_proc_exec_func i table = do
  p ← call getpid
  let entry = assign i (record { valid = true; pid = pid_of p; func = none; arg = 0 })
  e ← run_func entry.func entry.arg
  pure (set table i entry, e)

-- The break in a child; a parent goes on whether fork failed or not.
abbrev pub after_fork : Answer → ℕ → Prog ℕ → Prog ℕ
after_fork (value zero) i rest = pure i
after_fork (value (suc pid)) i rest = rest
after_fork (bytes bs) i rest = rest
after_fork (error e) i rest = rest

-- for (i = 0; i < SUB_PROC_NUM; i++), with `n` rounds left; the value of `i` after the loop.
unfoldable pub fork_loop : ℕ → ℕ → Prog ℕ
fork_loop zero i = pure i
fork_loop (suc n) i = do r ← call fork; after_fork r i (fork_loop n (suc i))

abbrev pub register : ℕ → List SubProc → Prog (List SubProc × Ending (Unit {0}))
register i table =
    if i == sub_proc_num then pure (table, returns tt) else sub_proc_exec_func i table

unfoldable pub proc_register_init : List SubProc → Prog (List SubProc × Ending (Unit {0}))
proc_register_init table = do i ← fork_loop sub_proc_num 0; register i table

-- The loop ends at the first wait that fails.
abbrev pub after_wait {ℓ} : {A : Type ℓ} → Answer → Prog (Ending A) → Prog (Ending A)
after_wait (error e) rest = pure (exits 0)
after_wait (value pid) rest = rest
after_wait (bytes bs) rest = rest

unfoldable pub proc_wait_handle : ℕ → Prog (Ending (Unit {0}))
proc_wait_handle zero = pure runs_on
proc_wait_handle (suc fuel) = do r ← call wait_child; after_wait r (proc_wait_handle fuel)

abbrev pub after_register : ℕ → List SubProc × Ending (Unit {0}) → Prog (Ending (Unit {0}))
after_register fuel (table, returns u) = proc_wait_handle fuel
after_register fuel (table, exits code) = pure (exits code)
after_register fuel (table, runs_on) = pure runs_on

unfoldable pub route_main : ℕ → List SubProc → Prog (Ending (Unit {0}))
route_main fuel table = proc_register_init table >>= after_register fuel
