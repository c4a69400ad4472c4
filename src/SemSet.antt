-- ===== src/SemSet.antt =====
-- The calls for semaphores of src/process_interactive.c (lines 357 to 464) with their results, and
-- `sem_PV_handler` with the failures that it does not test. The letters that it prints, which
-- Semaphore models, and its short sleeps are left out.
pub mod Alternation
mod Tests
use a_test.Base.{ℕ, zero, suc, Bool, true, false, Option, none, some}
use a_test.System.{
  Answer, value, bytes, error, Call, semget, semctl_setval, semctl_rmid, semop, fork, Ending,
  returns, runs_on, Prog, pure, call, ◌>>=◌, ◌>>◌, fd_of,
}

-- 0, or -1 where the call failed.
abbrev pub zero_or : Answer → Option ℕ
zero_or (value n) = some 0
zero_or (bytes bs) = some 0
zero_or (error e) = none

-- The 32 bits of a result.
abbrev pub int_of : Option ℕ → ℕ
int_of none = 0xFFFFFFFF
int_of (some n) = n

unfoldable pub create_sem_set : ℕ → Prog (Option ℕ)
create_sem_set nums = do semid ← call (semget nums); pure (fd_of semid)

unfoldable pub init_sem : ℕ → ℕ → ℕ → Prog (Option ℕ)
init_sem semid nums init_val = do r ← call (semctl_setval semid nums init_val); pure (zero_or r)

-- The operation is -1 or, with `true`, 1.
unfoldable pub comm_pv : ℕ → ℕ → Bool → Prog (Option ℕ)
comm_pv semid who up = do r ← call (semop semid who up); pure (zero_or r)

unfoldable pub p : ℕ → ℕ → Prog (Option ℕ)
p semid who = comm_pv semid who false

unfoldable pub v : ℕ → ℕ → Prog (Option ℕ)
v semid who = comm_pv semid who true

unfoldable pub destroy_sem_set : ℕ → Prog (Option ℕ)
destroy_sem_set semid = do r ← call (semctl_rmid semid); pure (zero_or r)

-- while (1), for so many rounds.
unfoldable pub pv_rounds : ℕ → ℕ → Prog (Ending (Option ℕ))
pv_rounds zero semid = pure runs_on
pv_rounds (suc n) semid = do p semid 0; v semid 0; pv_rounds n semid

unfoldable pub after_fork : ℕ → ℕ → Answer → Prog (Ending (Option ℕ))
after_fork n semid (error e) = pure (returns none)
after_fork n semid (value zero) = do child ← create_sem_set 0; pv_rounds n (int_of child)
after_fork n semid (value (suc pid)) = pv_rounds n semid
after_fork n semid (bytes bs) = pv_rounds n semid

unfoldable pub sem_pv_handler : ℕ → Prog (Ending (Option ℕ))
sem_pv_handler n = do
  semid ← create_sem_set 1
  init_sem (int_of semid) 0 1
  pid ← call fork
  after_fork n (int_of semid) pid
