-- ===== src/Semaphore/Turns.antt =====
-- That both processes of `sem_PV_handler` in src/process_interactive.c get their turns.
use a_test.Base.{
  ap, subst, ℕ, suc, ◌+◌, ◌≤◌, ◌≡◌, refl, sym, ◌∙◌, List, [], ◌∷◌, ◌++◌, arith, none, some,
}
use a_test.Semaphore.{
  Letter, a, b, Place, outside, first, second, leaving, Semop, Move, takes, prints, prints_again,
  gives, State, sem_init, Step, child_moves, parent_moves, Reach, here, next,
}
use a_test.Semaphore.Exclusion.{
  IsSemop, held, opened, either, pairs, IsExclusive, Reach-IsExclusive, init-IsExclusive,
}

Reach-then : {semop : Semop} {s t u : State} → Reach semop s t → Reach semop t u → Reach semop s u
Reach-then r here = r
Reach-then r (next q m) = next (Reach-then r q) m

-- The process that prints the letter, and the other one.
abbrev pub place_of : Letter → State → Place
place_of a s = s.child
place_of b s = s.parent

abbrev other : Letter → Letter
other a = b
other b = a

abbrev moved : Letter → State → Place → ℕ → List Letter → State
moved a s q w out = record s { value = w; child = q; printed = s.printed ++ out }
moved b s q w out = record s { value = w; parent = q; printed = s.printed ++ out }

place_of-moved :
    (me : Letter) (s : State) (q : Place) (w : ℕ) (out : List Letter)
    → (place_of me (moved me s q w out) ≡ q)
      × (place_of (other me) (moved me s q w out) ≡ place_of (other me) s)
      × ((moved me s q w out).value ≡ w)
place_of-moved a s q w out = (refl, refl, refl)
place_of-moved b s q w out = (refl, refl, refl)

shared :
    (me : Letter) (s : State)
    → IsExclusive s
    → s.value + held (place_of me s) + held (place_of (other me) s) ≡ 1
shared a s h = h.one
shared b s h = omega (arith, h.one)

module _ {semop : Semop} (law : IsSemop semop) (me : Letter) where
  makes_move :
      (s : State) (p q : Place) (w : ℕ) (out : List Letter)
      → place_of me s ≡ p
      → Move semop me p s.value q w out
      → Step semop s (moved me s q w out)
  makes_move = by_letter me
    where
      by_letter :
          (me : Letter) (s : State) (p q : Place) (w : ℕ) (out : List Letter)
          → place_of me s ≡ p
          → Move semop me p s.value q w out
          → Step semop s (moved me s q w out)
      by_letter a s p q w out at m =
          child_moves s q w out (subst (λ r. Move semop a r s.value q w out) (sym at) m)
      by_letter b s p q w out at m =
          parent_moves s q w out (subst (λ r. Move semop b r s.value q w out) (sym at) m)

  -- A state that follows, in which the process stands before P and the other one where it stood.
  abbrev Leaves : State → Type 0
  Leaves s =
      (u : State) × (Reach semop s u)
      × (place_of me u ≡ outside)
      × (place_of (other me) u ≡ place_of (other me) s)

  from_leaving : (s : State) → place_of me s ≡ leaving → Leaves s
  from_leaving s at =
      let (mine, yours, v) = place_of-moved me s outside (suc s.value) [] in
      (
        _,
        next here (makes_move s leaving outside _ [] at (gives (law.adds_any s.value))),
        mine,
        yours,
      )

  from_second : (s : State) → place_of me s ≡ second → Leaves s
  from_second s at =
      let (mine, yours, v) = place_of-moved me s leaving s.value (me ∷ []) in
      let (u, r, c, o) = from_leaving _ mine in
      (u, Reach-then (next here (makes_move s second leaving _ _ at prints_again)) r, c, o ∙ yours)

  from_first : (s : State) → place_of me s ≡ first → Leaves s
  from_first s at =
      let (mine, yours, v) = place_of-moved me s second s.value (me ∷ []) in
      let (u, r, c, o) = from_second _ mine in
      (u, Reach-then (next here (makes_move s first second _ _ at prints)) r, c, o ∙ yours)

  leaves : (p : Place) (s : State) → place_of me s ≡ p → Leaves s
  leaves outside s at = (s, here, at, refl)
  leaves first s at = from_first s at
  leaves second s at = from_second s at
  leaves leaving s at = from_leaving s at

  -- With both processes before P the value is 1, and the process can take it.
  enters :
      (s : State)
      → IsExclusive s
      → place_of me s ≡ outside
      → place_of (other me) s ≡ outside
      → (t : State) × (Step semop s t) × (place_of me t ≡ first)
  enters s h mine yours =
      let one : s.value ≡ 1 = omega (arith, shared me s h, ap held mine, ap held yours) in
      let m : Move semop me outside s.value first 0 [] =
        subst (λ v. Move semop me outside v first 0 []) (sym one) (takes (law.takes_any 0)) in
      (_, makes_move s outside first 0 [] mine m, (place_of-moved me s first 0 []).0)

-- From every state that is reached the process can still come to its P and pass it.
gets_turn :
    {semop : Semop} (law : IsSemop semop) (me : Letter) (s : State)
    → IsExclusive s
    → (u : State) × (t : State) × (Reach semop s u)
      × (Step semop u t)
      × (place_of me u ≡ outside)
      × (place_of me t ≡ first)
gets_turn law me s h =
    let (u, r, mine, kept) = leaves law me (place_of me s) s refl in
    let (v, q, yours, same) = leaves law (other me) (place_of (other me) u) u refl in
    let both = Reach-then r q in
    let own : place_of me v ≡ outside = twice me v u same ∙ mine in
    let (t, m, first_of) = enters law me v (Reach-IsExclusive law h both) own yours in
    (v, t, both, m, own, first_of)
  where
    twice :
        (me : Letter) (v u : State)
        → place_of (other (other me)) v ≡ place_of (other (other me)) u
        → place_of me v ≡ place_of me u
    twice a v u e = e
    twice b v u e = e

-- With a semop that does what its documentation says and returns no error, however the child and
-- the parent interleave: at most one of them is between P and V; the letters that were printed are
-- pairs of equal ones, but for the letter that the one inside has printed once; and from every state
-- the processes can go on so that the child passes its P, and so that the parent does.
pub sem_exclusive :
    (semop : Semop) (s : State)
    → IsSemop semop
    → Reach semop sem_init s
    → (held s.child + held s.parent ≤ 1)
      × (pairs none s.printed ≡ some (either (opened a s.child) (opened b s.parent)))
      × ((u : State) × (t : State) × (Reach semop s u)
          × (Step semop u t)
          × (u.child ≡ outside)
          × (t.child ≡ first))
      × ((u : State) × (t : State) × (Reach semop s u)
          × (Step semop u t)
          × (u.parent ≡ outside)
          × (t.parent ≡ first))
sem_exclusive semop s law r =
    let h = Reach-IsExclusive law init-IsExclusive r in
    (omega (arith, h.one), h.paired, gets_turn law a s h, gets_turn law b s h)
