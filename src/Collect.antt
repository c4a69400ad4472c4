-- ===== src/Collect.antt =====
-- src/collectData.c: the thread that runs `collect` and the loop of `thread_collect` share the buffer
-- g_collBuf with no lock. Each statement that touches the buffer is one step of its thread, but
-- `count--` is two, a load and a store; the file is the list of the bytes written to it. Only one
-- thread changes the length once the buffer is set up. The type of the data is not negative.
pub mod Bounds
pub mod Runs
pub mod Hang
pub mod Thread
mod Tests
use a_test.Base.{
  ℕ, zero, suc, ◌+◌, ◌≤◌, ◌<◌, ◌≡◌, ◌≢◌, Bool, true, false, List, [], ◌∷◌, ◌++◌, ◌==◌, ◌||◌, ltb,
  if◌then◌else◌,
}
use a_test.Memory.{Object, read, put}
use a_test.Words.{add32, sub32}

-- enum ecollectDataType
abbrev pub collect_noise_type : ℕ
collect_noise_type = 0

abbrev pub collect_end : ℕ
collect_end = 2

-- char data[1000]
abbrev pub data_size : ℕ
data_size = 1000

-- arr[i] = i, for the 80 bytes from `i` on
abbrev pub fill : ℕ → ℕ → List ℕ
fill i zero = []
fill i (suc n) = i ∷ fill (suc i) n

abbrev pub arr : List ℕ
arr = fill 0 80

-- The loop of thread_collect: before the test of the count, the copy, the new length, the count
-- (which `taken k` has loaded) and the test for the end. It is `overrun` where the copy leaves the buffer.
pub data Writer : Type 0 where
  testing copying adding taking : Writer
  taken : ℕ → Writer
  checking finished overrun : Writer

-- The thread in `collect`: before it opens the file, before the test of its loop, the greeting, the
-- callback, the count (which `counted k` has loaded) and the test for the end.
pub data Collector : Type 0 where
  opening looping greeting flushing counting : Collector
  counted : ℕ → Collector
  comparing closed : Collector

pub record State : Type 0 where
  pub count : ℕ
  pub len : ℕ
  pub bytes : ℕ → ℕ
  pub writer : Writer
  pub collector : Collector
  pub file : List ℕ

-- "hello\n"
abbrev pub hello : List ℕ
hello = 104 ∷ 101 ∷ 108 ∷ 108 ∷ 111 ∷ 10 ∷ []

-- What collectFuncArr[type] writes: collectNoise the bytes, collectDbfs nothing.
unfoldable pub callback : ℕ → State → List ℕ
callback type s = if type == collect_noise_type then read s.bytes 0 s.len else []

-- The store of g_collBuf.count--, where `k` was loaded.
unfoldable pub count_down : ℕ → State → State
count_down k s = record s { count = sub32 k 1 }

abbrev pub next_writer : ℕ → Writer
next_writer zero = finished
next_writer (suc n) = testing

abbrev pub next_collector : ℕ → Collector
next_collector zero = closed
next_collector (suc n) = looping

-- collect(type, n) against the loop of thread_collect.
pub data Step (type n : ℕ) : State → State → Type 0 where
  -- the type is wrong, or fopen fails
  refuses : (s : State) → s.collector ≡ opening → Step type n s (record s { collector = closed })
  -- memset and the new count
  opens :
      (s : State)
      → s.collector ≡ opening
      → type < collect_end
      → Step type n s (record s { collector = looping; count = n; len = 0; bytes = λ i. 0 })
  loops :
      (s : State)
      → s.collector ≡ looping
      → s.count ≢ 0
      → Step type n s (record s { collector = greeting })
  leaves :
      (s : State)
      → s.collector ≡ looping
      → s.count ≡ 0
      → Step type n s (record s { collector = closed })
  greets :
      (s : State)
      → s.collector ≡ greeting
      → Step type n s (record s { collector = flushing; file = s.file ++ hello })
  flushes :
      (s : State)
      → s.collector ≡ flushing
      → 0 < s.len
      → Step type n s (record s { collector = counting; file = s.file ++ callback type s })
  passes :
      (s : State)
      → s.collector ≡ flushing
      → s.len ≡ 0
      → Step type n s (record s { collector = counting })
  counts :
      (s : State)
      → s.collector ≡ counting
      → Step type n s (record s { collector = counted s.count })
  counts_down :
      (s : State) (k : ℕ)
      → s.collector ≡ counted k
      → Step type n s (record (count_down k s) { collector = comparing })
  compares :
      (s : State)
      → s.collector ≡ comparing
      → Step type n s (record s { collector = next_collector s.count })
  spins : (s : State) → s.writer ≡ testing → s.count ≡ 0 → Step type n s s
  sees :
      (s : State) → s.writer ≡ testing → 0 < s.count → Step type n s (record s { writer = copying })
  copies :
      (s : State)
      → s.writer ≡ copying
      → s.len + 80 ≤ data_size
      → Step type n s (record s { writer = adding; bytes = put s.bytes s.len arr })
  overruns :
      (s : State)
      → s.writer ≡ copying
      → data_size < s.len + 80
      → Step type n s (record s { writer = overrun })
  adds :
      (s : State)
      → s.writer ≡ adding
      → Step type n s (record s { writer = taking; len = add32 s.len 80 })
  takes : (s : State) → s.writer ≡ taking → Step type n s (record s { writer = taken s.count })
  takes_down :
      (s : State) (k : ℕ)
      → s.writer ≡ taken k
      → Step type n s (record (count_down k s) { writer = checking })
  checks :
      (s : State) → s.writer ≡ checking → Step type n s (record s { writer = next_writer s.count })

pub data Reach (type n : ℕ) (s : State) : State → Type 0 where
  here : Reach type n s s
  next : {t u : State} → Reach type n s t → Step type n t u → Reach type n s u

-- The static buffer before both threads run.
abbrev pub start : State
start = record {
  count = 0;
  len = 0;
  bytes = λ i. 0;
  writer = testing;
  collector = opening;
  file = [];
}
