-- ===== src/Segment.antt =====
-- How `producer` and `customer` of src/process_interactive.c (lines 8 to 123) get the shared memory
-- and give it back. Their loops, which Exchange models, are here the seconds that they sleep.
pub mod Effects
pub mod Release
mod Tests
use a_test.Base.{ℕ, List, [], ◌∷◌}
use a_test.System.{
  Answer, value, bytes, error, Call, shmget, shmat, shmdt, shmctl_rmid, getpid, sleep, Ending,
  exits, Prog, pure, call, ◌>>=◌, ◌>>◌,
}

abbrev pub shm_key : ℕ
shm_key = 1234

-- `exit(EXIT_FAILURE)` where the call failed.
abbrev pub or_exit : Answer → (ℕ → Prog (Ending (Unit {0}))) → Prog (Ending (Unit {0}))
or_exit (error e) k = pure (exits 1)
or_exit (value n) k = k n
or_exit (bytes bs) k = k 0

-- The calls of sleep in a loop.
unfoldable pub loop : List ℕ → Prog (Unit {0})
loop [] = pure tt
loop (n ∷ ns) = do call (sleep n); loop ns

-- What both functions do, with what comes after the loop: `finish` is given the identifier and the
-- address of the memory.
abbrev pub after_attach :
    List ℕ → (ℕ → ℕ → Prog (Ending (Unit {0}))) → ℕ → Answer → Prog (Ending (Unit {0}))
after_attach naps finish shmid a = or_exit a (λ shm. loop naps >> finish shmid shm)

abbrev pub after_get :
    List ℕ → (ℕ → ℕ → Prog (Ending (Unit {0}))) → Answer → Prog (Ending (Unit {0}))
after_get naps finish g =
    or_exit g (λ shmid. do a ← call (shmat shmid); after_attach naps finish shmid a)

unfoldable pub with_memory : List ℕ → (ℕ → ℕ → Prog (Ending (Unit {0}))) → Prog (Ending (Unit {0}))
with_memory naps finish = do g ← call (shmget shm_key); after_get naps finish g

unfoldable pub producer_end : ℕ → ℕ → Prog (Ending (Unit {0}))
producer_end shmid shm = do d ← call (shmdt shm); or_exit d (λ _. pure (exits 0))

unfoldable pub producer : List ℕ → Prog (Ending (Unit {0}))
producer naps = with_memory naps producer_end

-- `customer` removes the memory as well.
unfoldable pub customer_end : ℕ → ℕ → Prog (Ending (Unit {0}))
customer_end shmid shm = do
  d ← call (shmdt shm)
  or_exit d (λ _. do c ← call (shmctl_rmid shmid); or_exit c (λ _. pure (exits 0)))

-- The process id is the seed of rand.
unfoldable pub customer : List ℕ → Prog (Ending (Unit {0}))
customer naps = do call getpid; with_memory naps customer_end
