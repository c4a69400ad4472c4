-- ===== src/SemSet/Alternation.antt =====
-- The operations on the semaphore that `sem_PV_handler` of src/process_interactive.c makes.
use a_test.Base.{
  ℕ, zero, suc, ◌≡◌, refl, ap, ◌∙◌, Bool, true, false, List, [], ◌∷◌, ◌++◌, Option, none,
}
use a_test.System.{
  Answer, value, bytes, error, semget, semctl_setval, semctl_rmid, semop, fork, Ending, returns,
  runs_on, Trace, Os, fd_of,
}
use a_test.SemSet.{
  int_of, create_sem_set, init_sem, comm_pv, p, v, pv_rounds, after_fork, sem_pv_handler,
}

-- The calls of semop, newest first: the set, the semaphore, and whether it is V.
abbrev pub ops : Trace → List (ℕ × ℕ × Bool)
ops [] = []
ops ((semop semid who up, a) ∷ h) = (semid, who, up) ∷ ops h
ops (_ ∷ h) = ops h

-- So many rounds of P and V on the first semaphore of the set.
abbrev pub pairs : ℕ → ℕ → List (ℕ × ℕ × Bool)
pairs zero semid = []
pairs (suc n) semid = (semid, 0, true) ∷ (semid, 0, false) ∷ pairs n semid

pairs-append :
    (n semid : ℕ) (ys : List (ℕ × ℕ × Bool))
    → pairs n semid ++ (semid, 0, true) ∷ (semid, 0, false) ∷ ys ≡ pairs (suc n) semid ++ ys
pairs-append zero semid ys = refl
pairs-append (suc n) semid ys =
    ap (λ l. (semid, 0, true) ∷ (semid, 0, false) ∷ l) (pairs-append n semid ys)

-- The sets that were asked for, and the sets that were removed.
abbrev pub gets : Trace → ℕ
gets [] = 0
gets ((semget n, a) ∷ h) = suc (gets h)
gets (_ ∷ h) = gets h

abbrev pub removals : Trace → ℕ
removals [] = 0
removals ((semctl_rmid i, a) ∷ h) = suc (removals h)
removals (_ ∷ h) = removals h

-- What `n` rounds do.
abbrev pub Rounds : ℕ → ℕ → Trace → Ending (Option ℕ) × Trace → Type 0
Rounds n semid h (e, h') =
    (e ≡ runs_on)
    × (ops h' ≡ pairs n semid ++ (ops h))
    × (gets h' ≡ gets h)
    × (removals h' ≡ removals h)

pv_rounds-Rounds : (n semid : ℕ) (os : Os) (h : Trace) → Rounds n semid h (pv_rounds n semid os h)
unfolding pv_rounds p v comm_pv
pv_rounds-Rounds zero semid os h = (refl, refl, refl, refl)
pv_rounds-Rounds (suc n) semid os h =
    let h₁ : Trace = (semop semid 0 false, os h (semop semid 0 false)) ∷ h in
    let (e, o, g, r) =
      pv_rounds-Rounds n semid os ((semop semid 0 true, os h₁ (semop semid 0 true)) ∷ h₁) in
    (e, o ∙ pairs-append n semid (ops h), g, r)

-- How the process ends after fork's answer, and its operations; the trace ends with the call of fork.
abbrev pub Forks : Os → ℕ → ℕ → Answer → Trace → Ending (Option ℕ) × Trace → Type 0
Forks os n semid (error e) h (r, h') =
    (r ≡ returns none) × (ops h' ≡ ops h) × (gets h' ≡ gets h) × (removals h' ≡ removals h)
Forks os n semid (value zero) h (r, h') =
    (r ≡ runs_on)
    × (ops h' ≡ pairs n (int_of (fd_of (os h (semget 0)))) ++ (ops h))
    × (gets h' ≡ suc (gets h))
    × (removals h' ≡ removals h)
Forks os n semid (value (suc pid)) h r = Rounds n semid h r
Forks os n semid (bytes bs) h r = Rounds n semid h r

after_fork-Forks :
    (n semid : ℕ) (a : Answer) (os : Os) (h : Trace)
    → Forks os n semid a h (after_fork n semid a os h)
unfolding after_fork create_sem_set
after_fork-Forks n semid (error e) os h = (refl, refl, refl, refl)
after_fork-Forks n semid (value zero) os h =
    let a = os h (semget 0) in pv_rounds-Rounds n (int_of (fd_of a)) os ((semget 0, a) ∷ h)
after_fork-Forks n semid (value (suc pid)) os h = pv_rounds-Rounds n semid os h
after_fork-Forks n semid (bytes bs) os h = pv_rounds-Rounds n semid os h

-- The number of the set that is asked for first, and the trace up to the call of fork.
abbrev pub set_of : Os → Trace → ℕ
set_of os h = int_of (fd_of (os h (semget 1)))

abbrev pub set_up : Os → Trace → Trace
set_up os h =
    let asked = (semget 1, os h (semget 1)) ∷ h in
    let start = semctl_setval (set_of os h) 0 1 in (start, os asked start) ∷ asked

abbrev pub forked : Os → Trace → Trace
forked os h = (fork, os (set_up os h) fork) ∷ set_up os h

-- Whatever the system answers, failures included: where fork fails, sem_PV_handler returns -1 and
-- makes no operation; the parent goes on with P and V in turn, on the first semaphore of the set that
-- it created or, where that failed, of the set with the number -1; the child does so on the set that
-- it asked for itself. In `n` rounds each makes `n` operations P and `n` operations V, and neither
-- removes the set.
pub sem_pv_handler-Forks :
    (n : ℕ) (os : Os) (h : Trace)
    → Forks os n (set_of os h) (os (set_up os h) fork) (forked os h) (sem_pv_handler n os h)
unfolding sem_pv_handler create_sem_set init_sem
sem_pv_handler-Forks n os h =
    after_fork-Forks n (set_of os h) (os (set_up os h) fork) os (forked os h)
