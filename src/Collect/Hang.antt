-- ===== src/Collect/Hang.antt =====
-- Where the loop of thread_collect in src/collectData.c never ends.
use a_test.Base.{ap, ℕ, ◌≡◌, ◌≢◌, refl, sym, subst, ◌∙◌, arith}
use a_test.Collect.{
  testing, closed, State, Step, refuses, opens, loops, leaves, greets, flushes, passes, counts,
  counts_down, compares, spins, finished, sees, copies, overruns, adds, takes, takes_down, checks,
  Reach, here, next, start,
}

-- The collector has ended, and the writer finds a count of 0.
pub record IsStuck (s : State) : Type 0 where
  pub ended : s.collector ≡ closed
  pub tests : s.writer ≡ testing
  pub none_left : s.count ≡ 0

Step-IsStuck : {type n : ℕ} {s t : State} → Step type n s t → IsStuck s → t ≡ s
Step-IsStuck (refuses s c) h = absurd (ground (arith, h.ended, c))
Step-IsStuck (opens s c ok) h = absurd (ground (arith, h.ended, c))
Step-IsStuck (loops s c k) h = absurd (ground (arith, h.ended, c))
Step-IsStuck (leaves s c k) h = absurd (ground (arith, h.ended, c))
Step-IsStuck (greets s c) h = absurd (ground (arith, h.ended, c))
Step-IsStuck (flushes s c k) h = absurd (ground (arith, h.ended, c))
Step-IsStuck (passes s c k) h = absurd (ground (arith, h.ended, c))
Step-IsStuck (counts s c) h = absurd (ground (arith, h.ended, c))
Step-IsStuck (counts_down s k c) h = absurd (ground (arith, h.ended, c))
Step-IsStuck (compares s c) h = absurd (ground (arith, h.ended, c))
Step-IsStuck (spins s c k) h = refl
Step-IsStuck (sees s c k) h = absurd (omega (arith, h.none_left))
Step-IsStuck (copies s c k) h = absurd (ground (arith, h.tests, c))
Step-IsStuck (overruns s c k) h = absurd (ground (arith, h.tests, c))
Step-IsStuck (adds s c) h = absurd (ground (arith, h.tests, c))
Step-IsStuck (takes s c) h = absurd (ground (arith, h.tests, c))
Step-IsStuck (takes_down s k c) h = absurd (ground (arith, h.tests, c))
Step-IsStuck (checks s c) h = absurd (ground (arith, h.tests, c))

Reach-IsStuck : {type n : ℕ} {s t : State} → IsStuck s → Reach type n s t → t ≡ s
Reach-IsStuck h here = refl
Reach-IsStuck {s = s} h (next {t = t} r step) =
    let same = Reach-IsStuck h r in Step-IsStuck step (subst IsStuck (sym same) h) ∙ same

-- The type was wrong or fopen failed.
abbrev pub unopened : State
unopened = record start { collector = closed }

unopened-IsStuck : IsStuck unopened
unopened-IsStuck = record { ended = refl; tests = refl; none_left = refl }

-- thread_collect never gets to pthread_join once its collector has returned with the writer at its
-- test and a count of 0: every state that can follow is the same state, so the writer tests the
-- count for ever. A wrong type or a failing fopen leads there in the first step, for every type and
-- count.
pub collect_hangs :
    (type n : ℕ)
    → (s t : State) → IsStuck s
    → Reach type n s t
    → (t ≡ s) × (t.writer ≢ finished) × (Reach type n start unopened) × (IsStuck unopened)
collect_hangs type n s t h r =
    let same = Reach-IsStuck h r in
    (
      same,
      λ f. absurd (ground (arith, ap (λ u. u.writer) same, h.tests, f)),
      next here (refuses start refl),
      unopened-IsStuck,
    )
