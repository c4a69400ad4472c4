-- ===== src/SubProc/Exit.antt =====
-- How `route_main` of src/route_algo.c comes to an end.
use a_test.Base.{
  ℕ, zero, suc, ◌+◌, ◌<◌, ◌≡◌, refl, ◌∙◌, inl, inr, Bool-cases, List, [], ◌∷◌, arith, ◌==◌,
}
use a_test.System.{
  Answer, value, bytes, error, fork, wait_child, Ending, returns, exits, runs_on, Trace, Os,
}
use a_test.SubProc.{
  SubProc, sub_proc_num, sub_proc_exec_func, fork_loop, after_fork, register, proc_register_init,
  after_wait, proc_wait_handle, after_register, route_main,
}
use a_test.SubProc.Family.{proc_register_init-cases}

-- How often the process waited for a child.
abbrev pub waited : Trace → ℕ
waited [] = 0
waited ((wait_child, a) ∷ h) = suc (waited h)
waited (_ ∷ h) = waited h

abbrev pub IsError : Answer → Type 0
IsError a = (e : ℕ) × (a ≡ error e)

module _ (os : Os) (n : ℕ) (last : (h : Trace) → waited h ≡ n → IsError (os h wait_child)) where
  after_wait-exits :
      (a : Answer) (fuel k : ℕ) (h : Trace)
      → os h wait_child ≡ a
      → waited h + k ≡ n
      → k < suc fuel
      → ((h' : Trace) (j : ℕ)
          → waited h' + j ≡ n
          → j < fuel
          → (proc_wait_handle fuel os h').0 ≡ exits 0)
      → (after_wait a (proc_wait_handle fuel) os ((wait_child, a) ∷ h)).0 ≡ exits 0
  after_wait-exits (error e) fuel k h at sum lt ih = refl
  after_wait-exits (value pid) fuel zero h at sum lt ih =
      let (e, failed) = last h (omega (arith, sum)) in cc
  after_wait-exits (bytes bs) fuel zero h at sum lt ih =
      let (e, failed) = last h (omega (arith, sum)) in cc
  after_wait-exits (value pid) fuel (suc k) h at sum lt ih =
      ih ((wait_child, value pid) ∷ h) k (omega (arith, sum)) (omega (arith, lt))
  after_wait-exits (bytes bs) fuel (suc k) h at sum lt ih =
      ih ((wait_child, bytes bs) ∷ h) k (omega (arith, sum)) (omega (arith, lt))

  proc_wait_handle-exits :
      (fuel k : ℕ) (h : Trace)
      → waited h + k ≡ n
      → k < fuel
      → (proc_wait_handle fuel os h).0 ≡ exits 0
  unfolding proc_wait_handle
  proc_wait_handle-exits zero k h sum lt = absurd (omega (arith, lt))
  proc_wait_handle-exits (suc fuel) k h sum lt =
      after_wait-exits (os h wait_child) fuel k h refl sum lt
        (λ h' j s l. proc_wait_handle-exits fuel j h' s l)

after_fork-waited :
    (a : Answer) (n i : ℕ) (os : Os) (h : Trace)
    → waited (fork_loop n (suc i) os ((fork, a) ∷ h)).1 ≡ waited h
    → waited (after_fork a i (fork_loop n (suc i)) os ((fork, a) ∷ h)).1 ≡ waited h
after_fork-waited (value zero) n i os h ih = refl
after_fork-waited (value (suc pid)) n i os h ih = ih
after_fork-waited (bytes bs) n i os h ih = ih
after_fork-waited (error e) n i os h ih = ih

fork_loop-waited : (n i : ℕ) (os : Os) (h : Trace) → waited (fork_loop n i os h).1 ≡ waited h
unfolding fork_loop
fork_loop-waited zero i os h = refl
fork_loop-waited (suc n) i os h =
    after_fork-waited (os h fork) n i os h (fork_loop-waited n (suc i) os ((fork, os h fork) ∷ h))

exec-waited :
    (i : ℕ) (table : List SubProc) (os : Os) (h : Trace)
    → waited (sub_proc_exec_func i table os h).1 ≡ waited h
unfolding sub_proc_exec_func
exec-waited zero table os h = refl
exec-waited (suc zero) table os h = refl
exec-waited (suc (suc zero)) table os h = refl
exec-waited (suc (suc (suc zero))) table os h = refl
exec-waited (suc (suc (suc (suc zero)))) table os h = refl
exec-waited (suc (suc (suc (suc (suc i))))) table os h = refl

register-waited :
    (i : ℕ) (table : List SubProc) (os : Os) (h : Trace)
    → waited (register i table os h).1 ≡ waited h
register-waited i table os h = elim (Bool-cases (i == sub_proc_num)) [
  | inl five ↦ rw five refl
  | inr child ↦ rw child (exec-waited i table os h)
]

init-waited :
    (table : List SubProc) (os : Os) (h : Trace)
    → waited (proc_register_init table os h).1 ≡ waited h
unfolding proc_register_init
init-waited table os h =
    let r = fork_loop sub_proc_num 0 os h in
    register-waited r.0 table os r.1 ∙ fork_loop-waited sub_proc_num 0 os h

after_return :
    (fuel : ℕ) (r : List SubProc × Ending (Unit {0})) (os : Os) (h : Trace)
    → r.1 ≡ returns tt
    → (after_register fuel r os h).0 ≡ (proc_wait_handle fuel os h).0
after_return fuel (table, returns u) os h back = refl
after_return fuel (table, exits code) os h back = cc
after_return fuel (table, runs_on) os h back = cc

after_exit :
    (fuel : ℕ) (r : List SubProc × Ending (Unit {0})) (os : Os) (h : Trace)
    → r.1 ≡ exits 0
    → (after_register fuel r os h).0 ≡ exits 0
after_exit fuel (table, returns u) os h gone = cc
after_exit fuel (table, exits code) os h gone = gone
after_exit fuel (table, runs_on) os h gone = cc

-- Let wait fail once `n` children were waited for. Then every process that runs route_main from its
-- start exits with 0, the parent and the children alike, whatever the system answers else: more
-- than `n` rounds of the waiting loop are enough.
pub route_main-exits :
    (n fuel : ℕ) (table : List SubProc) (os : Os)
    → ((h : Trace) → waited h ≡ n → IsError (os h wait_child))
    → n < fuel
    → (route_main fuel table os []).0 ≡ exits 0
unfolding route_main
route_main-exits n fuel table os last enough =
    let r = proc_register_init table os [] in
    elim (proc_register_init-cases table os []) [
      | inl parent ↦
          let start = init-waited table os [] in
          after_return fuel r.0 os r.1 parent.0
          ∙ proc_wait_handle-exits os n last fuel n r.1 (omega (arith, start)) enough
      | inr (k, lt, gone, _, _, _, _) ↦ after_exit fuel r.0 os r.1 gone
    ]
