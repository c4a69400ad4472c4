-- ===== src/Segment/Tests.antt =====
-- The shared memory of src/process_interactive.c with a concrete system.
use a_test.Base.{true, false, ◌≡◌, refl, [], ◌∷◌}
use a_test.System.{value, error, shmctl_rmid, Ending, exits, Os}
use a_test.Segment.{loop, with_memory, producer, customer_end, customer}
use a_test.Segment.Effects.{Releases}
use a_test.Segment.Release.{segment-Releases}

-- The memory cannot be removed.
abbrev not_owner : Os
not_owner h (shmctl_rmid i) = error 1
not_owner h _ = value 7

abbrev failure : Ending (Unit {0})
failure = exits 1

not_removed : (customer (1 ∷ 3 ∷ []) not_owner []).0 ≡ failure
unfolding customer customer_end with_memory loop
not_removed = refl

segment-Releases_example :
    Releases false [] (producer (1 ∷ 3 ∷ []) not_owner [])
    × Releases true [] (customer (1 ∷ 3 ∷ []) not_owner [])
segment-Releases_example = segment-Releases (1 ∷ 3 ∷ []) not_owner []
