-- ===== src/Semaphore/Tests.antt =====
-- Runs of the two processes of src/process_interactive.c under a concrete semaphore.
use a_test.Base.{suc, ◌+◌, ◌≤◌, ◌≡◌, refl, [], ◌∷◌, some, none}
use a_test.Semaphore.{
  down, up, a, b, outside, first, second, leaving, Semop, takes, prints, prints_again, gives, State,
  sem_init, Step, child_moves, parent_moves, Reach, here, next,
}
use a_test.Semaphore.Exclusion.{IsSemop, held, opened, either, pairs}
use a_test.Semaphore.Turns.{sem_exclusive}

-- A semaphore that counts.
abbrev counting : Semop
counting v down w = v ≡ suc w
counting v up w = w ≡ suc v

counting-IsSemop : IsSemop counting
counting-IsSemop = record {
  takes_one = λ v w e. e;
  adds_one = λ v w e. e;
  takes_any = λ w. refl;
  adds_any = λ v. refl;
}

-- The child has printed its pair and the parent its first letter.
abbrev halfway : State
halfway = record { value = 0; child = outside; parent = second; printed = a ∷ a ∷ b ∷ [] }

run : Reach counting sem_init halfway
unfolding sem_init
run =
    next
      (next
        (next
          (next
            (next (next here (child_moves _ first 0 [] (takes refl)))
              (child_moves _ second 0 (a ∷ []) prints))
            (child_moves _ leaving 0 (a ∷ []) prints_again))
          (child_moves _ outside 1 [] (gives refl)))
        (parent_moves _ first 0 [] (takes refl)))
      (parent_moves _ second 0 (b ∷ []) prints)

sem_exclusive_example :
    (held outside + held second ≤ 1)
    × (pairs none (a ∷ a ∷ b ∷ []) ≡ some (either (opened a outside) (opened b second)))
    × ((u : State) × (t : State) × (Reach counting halfway u)
        × (Step counting u t)
        × (u.child ≡ outside)
        × (t.child ≡ first))
    × ((u : State) × (t : State) × (Reach counting halfway u)
        × (Step counting u t)
        × (u.parent ≡ outside)
        × (t.parent ≡ first))
sem_exclusive_example = sem_exclusive counting halfway counting-IsSemop run
