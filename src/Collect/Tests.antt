-- ===== src/Collect/Tests.antt =====
-- The threads of src/collectData.c at the start.
use a_test.Base.{Option, none, some, ◌⊎◌, ◌≡◌, ◌≢◌, refl, arith}
use a_test.Memory.{}
use a_test.System.{eagain}
use a_test.Words.{}
use a_test.Collect.{overrun, closed, finished, State, spins, Reach, here, next, start}
use a_test.Collect.Bounds.{collect_overruns}
use a_test.Collect.Hang.{IsStuck, unopened, collect_hangs}
use a_test.Collect.Thread.{ThreadCollect, create_err, ThreadCollect-returns}

collect_overruns_example :
    (t : State) × (Reach 0 3 start t) × (t.collector ≡ closed) × (t.writer ≡ overrun)
collect_overruns_example = collect_overruns 0 3 (omega arith) (omega arith) (omega arith)

unopened-IsStuck : IsStuck unopened
unopened-IsStuck = record { ended = refl; tests = refl; none_left = refl }

unopened-Reach : Reach 7 3 unopened unopened
unopened-Reach = next here (spins unopened refl refl)

collect_hangs_example :
    (unopened ≡ unopened)
    × (unopened.writer ≢ finished)
    × (Reach 7 3 start unopened)
    × (IsStuck unopened)
collect_hangs_example = collect_hangs 7 3 unopened unopened unopened-IsStuck unopened-Reach

abbrev no_state : Option State
no_state = none

no_thread : ThreadCollect eagain no_state
no_thread = create_err (λ e. absurd (omega (arith, e)))

ThreadCollect-returns_example :
    (((eagain ≢ 0) × (no_state ≡ none))
      ⊎ ((eagain ≡ 0) × ((s : State) × (no_state ≡ some s) × (s.count ≡ 0))))
    × ((r' : Option State) × (ThreadCollect 0 r'))
ThreadCollect-returns_example = ThreadCollect-returns eagain no_state 0 no_thread
