-- ===== src/Semaphore.antt =====
-- The two processes of `sem_PV_handler` of src/process_interactive.c, which print in turns under a
-- semaphore. What `semop` does to the semaphore's value is a parameter.
pub mod Exclusion
pub mod Turns
mod Tests
use a_test.Base.{ℕ, List, [], ◌∷◌, ◌++◌}

-- The field sem_op that P and V pass: -1 or 1.
pub data Op : Type 0 where
  down up : Op

-- What the child prints and what the parent prints.
pub data Letter : Type 0 where
  a b : Letter

-- Where a process stands in its loop: before P, before each of the two prints, and before V.
pub data Place : Type 0 where
  outside first second leaving : Place

-- `semop v op w`: a call with `op` may take the value from `v` to `w` and return.
abbrev pub Semop : Type 1
Semop = ℕ → Op → ℕ → Type 0

-- A statement of a process: its places, the semaphore's values, and what is printed.
pub data Move (semop : Semop) (me : Letter) : Place → ℕ → Place → ℕ → List Letter → Type 0 where
  takes : {v w : ℕ} → semop v down w → Move semop me outside v first w []
  prints : {v : ℕ} → Move semop me first v second v (me ∷ [])
  prints_again : {v : ℕ} → Move semop me second v leaving v (me ∷ [])
  gives : {v w : ℕ} → semop v up w → Move semop me leaving v outside w []

pub record State : Type 0 where
  pub value : ℕ
  pub child : Place
  pub parent : Place
  pub printed : List Letter

-- After createSemSet, initSem(semid, 0, 1) and fork.
unfoldable pub sem_init : State
sem_init = record { value = 1; child = outside; parent = outside; printed = [] }

pub data Step (semop : Semop) : State → State → Type 0 where
  child_moves :
      (s : State) (to : Place) (w : ℕ) (out : List Letter)
      → Move semop a s.child s.value to w out
      → Step semop s (record s { value = w; child = to; printed = s.printed ++ out })
  parent_moves :
      (s : State) (to : Place) (w : ℕ) (out : List Letter)
      → Move semop b s.parent s.value to w out
      → Step semop s (record s { value = w; parent = to; printed = s.printed ++ out })

pub data Reach (semop : Semop) (s : State) : State → Type 0 where
  here : Reach semop s s
  next : {t u : State} → Reach semop s t → Step semop t u → Reach semop s u
