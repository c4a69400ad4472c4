-- ===== src/SubProc/Family.antt =====
-- Which processes src/process_interactive.c starts, and what each of them does.
use a_test.Base.{
  ℕ, zero, suc, ◌+◌, ◌*◌, ◌<◌, ◌≡◌, refl, ap, ◌∙◌, ◌⊎◌, inl, inr, true, false, List, [], ◌∷◌, some,
  ◌==◌, arith, set,
}
use a_test.System.{
  Answer, value, bytes, error, fork, getpid, sleep, Ending, returns, exits, Trace, Os,
}
use a_test.SubProc.{
  SubProc, pid_of, timer_test, sub_proc_num, sub_proc_exec_func, fork_loop, after_fork, register,
  proc_register_init,
}

-- How often the process called fork, and how often it was told that it is the child.
abbrev pub forks : Trace → ℕ
forks [] = 0
forks ((fork, a) ∷ h) = suc (forks h)
forks (_ ∷ h) = forks h

abbrev pub births : Trace → ℕ
births [] = 0
births ((fork, value zero) ∷ h) = suc (births h)
births (_ ∷ h) = births h

-- The seconds that the process slept.
abbrev pub slept : Trace → ℕ
slept [] = 0
slept ((sleep n, a) ∷ h) = n + slept h
slept (_ ∷ h) = slept h

-- The loop of `n` forks that starts at `i`: a process that is no child counts on to `i + n`, and a
-- child stops at its own number.
abbrev Looped : ℕ → ℕ → Trace → ℕ × Trace → Type 0
Looped n i h (j, h') =
    (slept h' ≡ slept h)
    × (((j ≡ i + n) × (forks h' ≡ n + forks h) × (births h' ≡ births h))
        ⊎ ((k : ℕ) × (k < n)
            × (j ≡ i + k)
            × (forks h' ≡ suc k + forks h)
            × (births h' ≡ suc (births h))))

Looped-parent :
    (n i : ℕ) (h h₁ : Trace) (r : ℕ × Trace)
    → slept h₁ ≡ slept h
    → forks h₁ ≡ suc (forks h)
    → births h₁ ≡ births h
    → Looped n (suc i) h₁ r
    → Looped (suc n) i h r
Looped-parent n i h h₁ r s f b (s', inl (j, f', b')) =
    (s' ∙ s, inl (omega arith, omega arith, b' ∙ b))
Looped-parent n i h h₁ r s f b (s', inr (k, lt, j, f', b')) =
    (s' ∙ s, inr (suc k, omega arith, omega arith, omega arith, omega arith))

after_fork-Looped :
    (a : Answer) (n i : ℕ) (os : Os) (h : Trace)
    → Looped n (suc i) ((fork, a) ∷ h) (fork_loop n (suc i) os ((fork, a) ∷ h))
    → Looped (suc n) i h (after_fork a i (fork_loop n (suc i)) os ((fork, a) ∷ h))
after_fork-Looped (value zero) n i os h ih =
    (refl, inr (0, omega arith, omega arith, omega arith, refl))
after_fork-Looped (value (suc pid)) n i os h ih =
    Looped-parent n i h ((fork, value (suc pid)) ∷ h)
      (fork_loop n (suc i) os ((fork, value (suc pid)) ∷ h)) refl refl refl ih
after_fork-Looped (bytes bs) n i os h ih =
    Looped-parent n i h ((fork, bytes bs) ∷ h) (fork_loop n (suc i) os ((fork, bytes bs) ∷ h)) refl
      refl refl ih
after_fork-Looped (error e) n i os h ih =
    Looped-parent n i h ((fork, error e) ∷ h) (fork_loop n (suc i) os ((fork, error e) ∷ h)) refl
      refl refl ih

fork_loop-Looped : (n i : ℕ) (os : Os) (h : Trace) → Looped n i h (fork_loop n i os h)
unfolding fork_loop
fork_loop-Looped zero i os h = (refl, inl (omega arith, omega arith, refl))
fork_loop-Looped (suc n) i os h =
    after_fork-Looped (os h fork) n i os h (fork_loop-Looped n (suc i) os ((fork, os h fork) ∷ h))

-- What the newest call of getpid answered.
abbrev pub own_pid : Trace → ℕ
own_pid [] = 0
own_pid ((getpid, value pid) ∷ h) = pid
own_pid ((getpid, bytes bs) ∷ h) = 0
own_pid ((getpid, error e) ∷ h) = 0
own_pid (_ ∷ h) = own_pid h

-- The slot of the `k`-th sub-process, with the process's own number.
abbrev pub slot : ℕ → ℕ → SubProc
slot k pid = record { valid = true; pid = pid; func = some timer_test; arg = 5 * suc k }

-- The parent returns with its table unchanged.
abbrev pub IsParent : List SubProc → Trace → (List SubProc × Ending (Unit {0})) × Trace → Type 0
IsParent table h ((table', e), h') =
    (e ≡ returns tt)
    × (table' ≡ table)
    × (forks h' ≡ 5 + forks h)
    × (births h' ≡ births h)
    × (slept h' ≡ slept h)

abbrev pub IsChild : List SubProc → Trace → (List SubProc × Ending (Unit {0})) × Trace → Type 0
IsChild table h ((table', e), h') =
    (k : ℕ) × (k < 5)
    × (e ≡ exits 0)
    × (table' ≡ set table k (slot k (own_pid h')))
    × (forks h' ≡ suc k + forks h)
    × (births h' ≡ suc (births h))
    × (slept h' ≡ 5 * suc k + slept h)

-- The result of a child.
abbrev entered : ℕ → List SubProc → ℕ → List SubProc × Ending (Unit {0})
entered k table pid = (set table k (slot k pid), exits 0)

-- `a` is what getpid answered, and `b` what sleep did.
own_entry :
    (k : ℕ) (table : List SubProc) (a b : Answer) (h : Trace)
    → entered k table (pid_of a)
      ≡ entered k table (own_pid ((sleep (5 * suc k), b) ∷ (getpid, a) ∷ h))
own_entry k table (value pid) b h = refl
own_entry k table (bytes bs) b h = refl
own_entry k table (error e) b h = refl

-- What sleep answers the child `k`.
abbrev slept_answer : ℕ → Os → Trace → Answer
slept_answer k os h = os ((getpid, os h getpid) ∷ h) (sleep (5 * suc k))

exec-child :
    (k : ℕ) (table : List SubProc) (os : Os) (h : Trace)
    → k < 5
    → ((sub_proc_exec_func k table os h).0
        ≡ entered k table (own_pid (sub_proc_exec_func k table os h).1))
      × (forks (sub_proc_exec_func k table os h).1 ≡ forks h)
      × (births (sub_proc_exec_func k table os h).1 ≡ births h)
      × (slept (sub_proc_exec_func k table os h).1 ≡ 5 * suc k + slept h)
unfolding sub_proc_exec_func
exec-child zero table os h lt =
    (own_entry 0 table (os h getpid) (slept_answer 0 os h) h, refl, refl, refl)
exec-child (suc zero) table os h lt =
    (own_entry 1 table (os h getpid) (slept_answer 1 os h) h, refl, refl, refl)
exec-child (suc (suc zero)) table os h lt =
    (own_entry 2 table (os h getpid) (slept_answer 2 os h) h, refl, refl, refl)
exec-child (suc (suc (suc zero))) table os h lt =
    (own_entry 3 table (os h getpid) (slept_answer 3 os h) h, refl, refl, refl)
exec-child (suc (suc (suc (suc zero)))) table os h lt =
    (own_entry 4 table (os h getpid) (slept_answer 4 os h) h, refl, refl, refl)
exec-child (suc (suc (suc (suc (suc k))))) table os h lt = absurd (omega arith)

register-cases :
    (table : List SubProc) (os : Os) (h : Trace) (j : ℕ) (h₁ : Trace)
    → Looped 5 0 h (j, h₁)
    → IsParent table h (register j table os h₁) ⊎ IsChild table h (register j table os h₁)
register-cases table os h j h₁ (s, inl (five, f, b)) =
    let e : j ≡ 5 = omega arith in inl (rw e (refl, refl, f, b, s))
register-cases table os h j h₁ (s, inr (k, lt, own, f, b)) =
    let e : j ≡ k = omega arith in
    let child : (k == sub_proc_num) ≡ false = ground arith in
    let (r, f', b', s') = exec-child k table os h₁ lt in
    inr (
      rw (e, child)
        (k, lt, ap (λ x. x.1) r, ap (λ x. x.0) r, omega arith, omega arith, omega arith))

-- In every process that runs proc_register_init, whatever fork answers: either it was never told
-- that it is a child, has called fork five times and returns with its table unchanged; or it is the
-- child with a number `k` below 5, has called fork `k + 1` times and was told so once, enters itself
-- at place `k` of its own table alone, with the number that getpid answered and the timer, and exits
-- with 0 after 5 (k + 1) seconds.
pub proc_register_init-cases :
    (table : List SubProc) (os : Os) (h : Trace)
    → IsParent table h (proc_register_init table os h)
      ⊎ IsChild table h (proc_register_init table os h)
unfolding proc_register_init
proc_register_init-cases table os h =
    let r = fork_loop 5 0 os h in register-cases table os h r.0 r.1 (fork_loop-Looped 5 0 os h)
