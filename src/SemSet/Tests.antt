-- ===== src/SemSet/Tests.antt =====
-- The semaphore of src/process_interactive.c with a concrete system.
use a_test.Base.{ℕ, ◌≡◌, refl, Bool, true, false, List, [], ◌∷◌}
use a_test.System.{value, error, semget, semop, fork, Os}
use a_test.SemSet.{create_sem_set, init_sem, comm_pv, p, v, pv_rounds, after_fork, sem_pv_handler}
use a_test.SemSet.Alternation.{ops, Forks, set_up, forked, sem_pv_handler-Forks}

-- The parent; every second operation is interrupted by a signal.
abbrev interrupted : Os
interrupted h (semget n) = value 8
interrupted h fork = value 100
interrupted h (semop semid who false) = error 4
interrupted h _ = value 0

abbrev two_rounds : List (ℕ × ℕ × Bool)
two_rounds = (8, 0, true) ∷ (8, 0, false) ∷ (8, 0, true) ∷ (8, 0, false) ∷ []

interrupted_goes_on : ops (sem_pv_handler 2 interrupted []).1 ≡ two_rounds
unfolding sem_pv_handler create_sem_set init_sem after_fork pv_rounds p v comm_pv
interrupted_goes_on = refl

sem_pv_handler-Forks_example :
    Forks interrupted 2 8
      (interrupted (set_up interrupted []) fork)
      (forked interrupted [])
      (sem_pv_handler 2 interrupted [])
sem_pv_handler-Forks_example = sem_pv_handler-Forks 2 interrupted []
