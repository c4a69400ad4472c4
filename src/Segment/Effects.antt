-- ===== src/Segment/Effects.antt =====
-- What a trace of `producer` or `customer` of src/process_interactive.c did with shared memory.
use a_test.Base.{ℕ, suc, ◌≡◌, ◌⊎◌, Bool, true, false, List, [], ◌∷◌}
use a_test.System.{
  Answer, value, bytes, error, shmget, shmat, shmdt, shmctl_rmid, Ending, exits, Trace,
}

-- The answers of the calls that went well: an identifier, and an address.
abbrev add_answer : Answer → List ℕ → List ℕ
add_answer (value n) ns = n ∷ ns
add_answer (bytes bs) ns = 0 ∷ ns
add_answer (error e) ns = ns

abbrev pub gotten : Trace → List ℕ
gotten [] = []
gotten ((shmget k, a) ∷ h) = add_answer a (gotten h)
gotten (_ ∷ h) = gotten h

-- The identifier that was attached, with the address.
abbrev add_pair : ℕ → Answer → List (ℕ × ℕ) → List (ℕ × ℕ)
add_pair i (value p) ps = (i, p) ∷ ps
add_pair i (bytes bs) ps = (i, 0) ∷ ps
add_pair i (error e) ps = ps

abbrev pub attached : Trace → List (ℕ × ℕ)
attached [] = []
attached ((shmat i, a) ∷ h) = add_pair i a (attached h)
attached (_ ∷ h) = attached h

-- What the call was given, if it went well.
abbrev add_given : ℕ → Answer → List ℕ → List ℕ
add_given n (value z) ns = n ∷ ns
add_given n (bytes bs) ns = n ∷ ns
add_given n (error e) ns = ns

abbrev pub detached : Trace → List ℕ
detached [] = []
detached ((shmdt p, a) ∷ h) = add_given p a (detached h)
detached (_ ∷ h) = detached h

abbrev pub removed : Trace → List ℕ
removed [] = []
removed ((shmctl_rmid i, a) ∷ h) = add_given i a (removed h)
removed (_ ∷ h) = removed h

abbrev count_bad : Answer → ℕ → ℕ
count_bad (value n) k = k
count_bad (bytes bs) k = k
count_bad (error e) k = suc k

abbrev pub failures : Trace → ℕ
failures [] = 0
failures ((shmget k, a) ∷ h) = count_bad a (failures h)
failures ((shmat i, a) ∷ h) = count_bad a (failures h)
failures ((shmdt p, a) ∷ h) = count_bad a (failures h)
failures ((shmctl_rmid i, a) ∷ h) = count_bad a (failures h)
failures (_ ∷ h) = failures h

abbrev pub removed_if : Bool → ℕ → List ℕ → List ℕ
removed_if true i ids = i ∷ ids
removed_if false i ids = ids

-- The memory `i` was attached at `p` and detached from there, and removed where that is asked for.
abbrev pub Released : Bool → ℕ → ℕ → Trace → Trace → Type 0
Released removes i p h h' =
    (failures h' ≡ failures h)
    × (gotten h' ≡ i ∷ gotten h)
    × (attached h' ≡ (i, p) ∷ attached h)
    × (detached h' ≡ p ∷ detached h)
    × (removed h' ≡ removed_if removes i (removed h))

-- The one call that failed was shmget, shmat, shmdt or shmctl.
abbrev pub NotGot : Trace → Trace → Type 0
NotGot h h' = (gotten h' ≡ gotten h) × (attached h' ≡ attached h) × (detached h' ≡ detached h)

abbrev pub NotAttached : Trace → Trace → Type 0
NotAttached h h' =
    (i : ℕ) × (gotten h' ≡ i ∷ gotten h) × (attached h' ≡ attached h) × (detached h' ≡ detached h)

abbrev pub NotDetached : Trace → Trace → Type 0
NotDetached h h' =
    (i : ℕ) × (p : ℕ) × (gotten h' ≡ i ∷ gotten h)
    × (attached h' ≡ (i, p) ∷ attached h)
    × (detached h' ≡ detached h)

abbrev pub NotRemoved : Trace → Trace → Type 0
NotRemoved h h' =
    (i : ℕ) × (p : ℕ) × (gotten h' ≡ i ∷ gotten h)
    × (attached h' ≡ (i, p) ∷ attached h)
    × (detached h' ≡ p ∷ detached h)

abbrev pub Fails : Bool → Trace → Trace → Type 0
Fails removes h h' =
    (failures h' ≡ suc (failures h))
    × (removed h' ≡ removed h)
    × (NotGot h h' ⊎ NotAttached h h' ⊎ NotDetached h h' ⊎ (NotRemoved h h' × (removes ≡ true)))

-- With exit code 0 the memory was released; with exit code 1 one call failed.
abbrev pub Releases : Bool → Trace → Ending (Unit {0}) × Trace → Type 0
Releases removes h (e, h') =
    ((e ≡ exits 0) × ((i : ℕ) × (p : ℕ) × Released removes i p h h'))
    ⊎ ((e ≡ exits 1) × Fails removes h h')
