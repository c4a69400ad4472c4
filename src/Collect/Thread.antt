-- ===== src/Collect/Thread.antt =====
-- How thread_collect of src/collectData.c starts and joins the thread that runs `collect`.
use a_test.Base.{ℕ, zero, suc, ◌≡◌, ◌≢◌, ◌⊎◌, inl, inr, refl, Option, none, some, arith}
use a_test.Words.{}
use a_test.Collect.{
  collect_noise_type, testing, finished, opening, closed, State, next_writer, next_collector,
  count_down, Step, refuses, opens, loops, leaves, greets, flushes, passes, counts, counts_down,
  compares, spins, sees, copies, overruns, adds, takes, takes_down, checks, Reach, here, next,
  start,
}
use a_test.Collect.Runs.{writes_all}

-- What pthread_create answers, and what thread_collect returns: `none` is -1, and `some s` is 1 after
-- the loop has ended and the thread was joined, with the state then. thread_func calls
-- collect(eCollect_noise, 3).
pub data ThreadCollect (status : ℕ) : Option State → Type 0 where
  create_err : status ≢ 0 → ThreadCollect status none
  joins :
      (s : State)
      → status ≡ 0
      → Reach collect_noise_type 3 start s
      → s.writer ≡ finished
      → s.collector ≡ closed
      → ThreadCollect status (some s)

-- Before the collector has opened its file the count is 0 and the writer tests it; when both have
-- ended, the count is 0.
record IsEnding (s : State) : Type 0 where
  before : s.collector ≡ opening → s.writer ≡ testing
  unset : s.collector ≡ opening → s.count ≡ 0
  after : s.collector ≡ closed → s.writer ≡ finished → s.count ≡ 0

next_writer-finished : (c : ℕ) → next_writer c ≡ finished → c ≡ 0
next_writer-finished zero e = refl
next_writer-finished (suc c) e = cc

next_collector-closed : (c : ℕ) → next_collector c ≡ closed → c ≡ 0
next_collector-closed zero e = refl
next_collector-closed (suc c) e = cc

next_collector-opening : (c : ℕ) → next_collector c ≢ opening
next_collector-opening zero e = cc
next_collector-opening (suc c) e = cc

Step-IsEnding : {type n : ℕ} {s t : State} → Step type n s t → IsEnding s → IsEnding t
unfolding count_down
Step-IsEnding (refuses s c) h = record {
  before = λ e. cc;
  unset = λ e. cc;
  after = λ e f. absurd (ground (arith, h.before c, f));
}
Step-IsEnding (opens s c ok) h = record { before = λ e. cc; unset = λ e. cc; after = λ e f. cc }
Step-IsEnding (loops s c k) h = record { before = λ e. cc; unset = λ e. cc; after = λ e f. cc }
Step-IsEnding (leaves s c k) h = record { before = λ e. cc; unset = λ e. cc; after = λ e f. k }
Step-IsEnding (greets s c) h = record { before = λ e. cc; unset = λ e. cc; after = λ e f. cc }
Step-IsEnding (flushes s c k) h = record { before = λ e. cc; unset = λ e. cc; after = λ e f. cc }
Step-IsEnding (passes s c k) h = record { before = λ e. cc; unset = λ e. cc; after = λ e f. cc }
Step-IsEnding (counts s c) h = record { before = λ e. cc; unset = λ e. cc; after = λ e f. cc }
Step-IsEnding (counts_down s k c) h = record {
  before = λ e. cc;
  unset = λ e. cc;
  after = λ e f. cc;
}
Step-IsEnding (compares s c) h = record {
  before = λ e. absurd (next_collector-opening s.count e);
  unset = λ e. absurd (next_collector-opening s.count e);
  after = λ e f. next_collector-closed s.count e;
}
Step-IsEnding (spins s c k) h = h
Step-IsEnding (sees s c k) h = record {
  before = λ e. absurd (omega (arith, h.unset e, k));
  unset = h.unset;
  after = λ e f. cc;
}
Step-IsEnding (copies s c k) h = record {
  before = λ e. absurd (ground (arith, h.before e, c));
  unset = h.unset;
  after = λ e f. cc;
}
Step-IsEnding (overruns s c k) h = record {
  before = λ e. absurd (ground (arith, h.before e, c));
  unset = h.unset;
  after = λ e f. cc;
}
Step-IsEnding (adds s c) h = record {
  before = λ e. absurd (ground (arith, h.before e, c));
  unset = h.unset;
  after = λ e f. cc;
}
Step-IsEnding (takes s c) h = record {
  before = λ e. absurd (ground (arith, h.before e, c));
  unset = λ e. absurd (ground (arith, h.before e, c));
  after = λ e f. cc;
}
Step-IsEnding (takes_down s k c) h = record {
  before = λ e. absurd (ground (arith, h.before e, c));
  unset = λ e. absurd (ground (arith, h.before e, c));
  after = λ e f. cc;
}
Step-IsEnding (checks s c) h = record {
  before = λ e. absurd (ground (arith, h.before e, c));
  unset = h.unset;
  after = λ e f. next_writer-finished s.count f;
}

Reach-IsEnding : {type n : ℕ} {s t : State} → IsEnding s → Reach type n s t → IsEnding t
Reach-IsEnding h here = h
Reach-IsEnding h (next r step) = Step-IsEnding step (Reach-IsEnding h r)

start-IsEnding : IsEnding start
start-IsEnding = record { before = λ e. refl; unset = λ e. refl; after = λ e f. refl }

-- The writer does its three rounds before the collector first tests the count.
quick_run :
    (s : State) × (Reach collect_noise_type 3 start s)
    × (s.writer ≡ finished)
    × (s.collector ≡ closed)
quick_run =
    let r = next here (opens start refl (omega arith)) in
    let (s, r', c, w, m, l) =
      writes_all collect_noise_type 3 2 0 (omega arith) (omega arith)
        (_, r, refl, refl, refl, refl) in
    (_, next r' (leaves s c m), w, refl)

-- There is a run of thread_collect that returns, whatever pthread_create answers.
some_run : (status : ℕ) → (r : Option State) × (ThreadCollect status r)
some_run zero = let (s, r, w, c) = quick_run in (some s, joins s refl r w c)
some_run (suc k) = (none, create_err (λ e. absurd (omega (arith, e))))

-- A run of thread_collect that returns gives -1 where pthread_create failed, and otherwise 1 with a
-- count of 0 in the end; and for every answer of pthread_create there is such a run.
pub ThreadCollect-returns :
    (status : ℕ) (r : Option State) (answer : ℕ)
    → ThreadCollect status r
    → (((status ≢ 0) × (r ≡ none)) ⊎ ((status ≡ 0) × ((s : State) × (r ≡ some s) × (s.count ≡ 0))))
      × ((r' : Option State) × (ThreadCollect answer r'))
ThreadCollect-returns status none answer (create_err failed) = (inl (failed, refl), some_run answer)
ThreadCollect-returns status (some s) answer (joins t ok r w c) =
    (inr (ok, (t, refl, (Reach-IsEnding start-IsEnding r).after c w)), some_run answer)
