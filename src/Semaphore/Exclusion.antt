-- ===== src/Semaphore/Exclusion.antt =====
-- Mutual exclusion in `sem_PV_handler` of src/process_interactive.c, and what it prints.
use a_test.Base.{
  ℕ, suc, ◌+◌, ◌≤◌, ◌≡◌, refl, ap, ◌∙◌, List, [], ◌∷◌, ◌++◌, arith, Option, none, some,
}
use a_test.Semaphore.{
  down, up, Letter, a, b, Place, outside, first, second, leaving, Semop, Move, takes, prints,
  prints_again, gives, State, sem_init, Step, child_moves, parent_moves, Reach, here, next,
}

-- What the documentation says of semop: -1 waits for a value above 0 and takes one off, and 1 adds
-- one and does not wait.
pub record IsSemop (semop : Semop) : Type 0 where
  pub takes_one : (v w : ℕ) → semop v down w → v ≡ suc w
  pub adds_one : (v w : ℕ) → semop v up w → w ≡ suc v
  pub takes_any : (w : ℕ) → semop (suc w) down w
  pub adds_any : (v : ℕ) → semop v up (suc v)

abbrev pub held : Place → ℕ
held outside = 0
held _ = 1

-- The letter that a process has printed once.
abbrev pub opened : Letter → Place → Option Letter
opened me second = some me
opened me _ = none

abbrev pub either : Option Letter → Option Letter → Option Letter
either (some x) o = some x
either none o = o

-- Reads letters in pairs; the state is the one that still wants its second. `none` where two
-- different letters would make a pair.
abbrev pub pairs : Option Letter → List Letter → Option (Option Letter)
pairs o [] = some o
pairs none (x ∷ xs) = pairs (some x) xs
pairs (some a) (a ∷ xs) = pairs none xs
pairs (some b) (b ∷ xs) = pairs none xs
pairs (some a) (b ∷ xs) = none
pairs (some b) (a ∷ xs) = none

some-inj : {x y : Option Letter} → some x ≡ some y → x ≡ y
some-inj h = cc

pairs-append :
    (xs ys : List Letter) (o o' : Option Letter)
    → pairs o xs ≡ some o'
    → pairs o (xs ++ ys) ≡ pairs o' ys
pairs-append [] ys o o' h = let h' : some o ≡ some o' = h in ap (λ x. pairs x ys) (some-inj h')
pairs-append (x ∷ xs) ys none o' h = pairs-append xs ys (some x) o' h
pairs-append (a ∷ xs) ys (some a) o' h = pairs-append xs ys none o' h
pairs-append (b ∷ xs) ys (some b) o' h = pairs-append xs ys none o' h
pairs-append (b ∷ xs) ys (some a) o' h = cc
pairs-append (a ∷ xs) ys (some b) o' h = cc

module _ {semop : Semop} (law : IsSemop semop) where
  Move-held :
      {me : Letter} {p q : Place} {v w : ℕ} {out : List Letter} (n : ℕ)
      → Move semop me p v q w out
      → v + held p + n ≡ 1
      → w + held q + n ≡ 1
  Move-held n (takes {v = v} {w = w} s) h = omega (arith, law.takes_one v w s)
  Move-held n prints h = h
  Move-held n prints_again h = h
  Move-held n (gives {v = v} {w = w} s) h = omega (arith, law.adds_one v w s)

  -- What the mover prints, while the other one holds nothing or the mover prints nothing.
  Move-pairs :
      {me : Letter} {p q : Place} {v w : ℕ} {out : List Letter} (you : Letter) (o : Place)
      → Move semop me p v q w out
      → v + held p + held o ≡ 1
      → pairs (either (opened me p) (opened you o)) out ≡ some (either (opened me q) (opened you o))
  Move-pairs you o (takes s) h = refl
  Move-pairs you outside prints h = refl
  Move-pairs {me = a} you outside prints_again h = refl
  Move-pairs {me = b} you outside prints_again h = refl
  Move-pairs you o (gives s) h = refl
  Move-pairs you first prints h = absurd (omega arith)
  Move-pairs you second prints h = absurd (omega arith)
  Move-pairs you leaving prints h = absurd (omega arith)
  Move-pairs you first prints_again h = absurd (omega arith)
  Move-pairs you second prints_again h = absurd (omega arith)
  Move-pairs you leaving prints_again h = absurd (omega arith)

either_comm :
    (x y : Letter) (p q : Place)
    → held p + held q ≤ 1
    → either (opened x p) (opened y q) ≡ either (opened y q) (opened x p)
either_comm x y outside outside h = refl
either_comm x y outside first h = refl
either_comm x y outside second h = refl
either_comm x y outside leaving h = refl
either_comm x y first outside h = refl
either_comm x y second outside h = refl
either_comm x y leaving outside h = refl
either_comm x y first first h = absurd (omega arith)
either_comm x y first second h = absurd (omega arith)
either_comm x y first leaving h = absurd (omega arith)
either_comm x y second first h = absurd (omega arith)
either_comm x y second second h = absurd (omega arith)
either_comm x y second leaving h = absurd (omega arith)
either_comm x y leaving first h = absurd (omega arith)
either_comm x y leaving second h = absurd (omega arith)
either_comm x y leaving leaving h = absurd (omega arith)

-- The semaphore and the two processes hold one unit together, and what was printed is pairs, but
-- for the letter that a process has printed once.
pub record IsExclusive (s : State) : Type 0 where
  pub one : s.value + held s.child + held s.parent ≡ 1
  pub paired : pairs none s.printed ≡ some (either (opened a s.child) (opened b s.parent))

module _ {semop : Semop} (law : IsSemop semop) where
  Step-IsExclusive : {s t : State} → Step semop s t → IsExclusive s → IsExclusive t
  Step-IsExclusive (child_moves s to w out m) h = record {
    one = Move-held law (held s.parent) m h.one;
    paired = pairs-append s.printed out none _ h.paired ∙ Move-pairs law b s.parent m h.one;
  }
  Step-IsExclusive (parent_moves s to w out m) h =
      let before : s.value + held s.parent + held s.child ≡ 1 = omega (arith, h.one) in
      let after : w + held to + held s.child ≡ 1 = Move-held law (held s.child) m before in
      record {
        one = omega (arith, after);
        paired =
            pairs-append s.printed out none _
              (h.paired ∙ ap some (either_comm a b s.child s.parent (omega (arith, before))))
            ∙ Move-pairs law a s.child m before
            ∙ ap some (either_comm b a to s.child (omega (arith, after)));
      }

  pub Reach-IsExclusive : {s t : State} → IsExclusive s → Reach semop s t → IsExclusive t
  Reach-IsExclusive h here = h
  Reach-IsExclusive h (next r step) = Step-IsExclusive step (Reach-IsExclusive h r)

pub init-IsExclusive : IsExclusive sem_init
unfolding sem_init
init-IsExclusive = record { one = refl; paired = refl }
