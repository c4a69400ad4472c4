-- ===== src/SubProc/Tests.antt =====
-- The sub-processes of src/process_interactive.c, started by a concrete system.
use a_test.Base.{true, ◌≡◌, refl, ◌⊎◌, arith, false, List, [], none, replicate, ◌==◌, if◌then◌else◌}
use a_test.System.{value, error, fork, getpid, wait_child, Ending, exits, Trace, Os}
use a_test.SubProc.{
  SubProc, fork_loop, sub_proc_exec_func, proc_wait_handle, proc_register_init, route_main,
}
use a_test.SubProc.Exit.{waited, IsError, route_main-exits}
use a_test.SubProc.Family.{forks, slept, IsParent, IsChild, proc_register_init-cases}

-- s_subproclist
abbrev no_procs : List SubProc
no_procs = replicate 20 (record { valid = false; pid = 0; func = none; arg = 0 })

-- The process is the child of the third fork.
abbrev third : Os
third h fork = if forks h == 2 then value 0 else value 100
third h getpid = value 102
third h _ = value 0

third_sleeps : slept (proc_register_init no_procs third []).1 ≡ 15
unfolding proc_register_init fork_loop sub_proc_exec_func
third_sleeps = refl

proc_register_init-cases_example :
    IsParent no_procs [] (proc_register_init no_procs third [])
    ⊎ IsChild no_procs [] (proc_register_init no_procs third [])
proc_register_init-cases_example = proc_register_init-cases no_procs third []

-- The parent, with five children to wait for.
abbrev parent : Os
parent h fork = value 100
parent h wait_child = if waited h == 5 then error 10 else value 100
parent h _ = value 0

abbrev all_done : Ending (Unit {0})
all_done = exits 0

parent_exits : (route_main 6 no_procs parent []).0 ≡ all_done
unfolding route_main proc_register_init fork_loop proc_wait_handle
parent_exits = refl

parent_last : (h : Trace) → waited h ≡ 5 → IsError (parent h wait_child)
parent_last h five = let e : (waited h == 5) ≡ true = ground arith in (10, rw e refl)

route_main-exits_example : (route_main 6 no_procs parent []).0 ≡ all_done
route_main-exits_example = route_main-exits 5 6 no_procs parent parent_last (omega arith)
