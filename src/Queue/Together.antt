-- ===== src/Queue/Together.antt =====
-- The sender and the receiver of src/process_interactive.c at the same time: msgqueue_send and
-- msgqueue_recv behind msgget, over a queue that keeps its messages in order. msgsnd waits while the
-- queue holds `capacity` messages, and msgrcv while it is empty; neither fails.
use a_test.Base.{ℕ, suc, ◌<◌, ◌≡◌, Bool, true, false, List, [], ◌∷◌, ◌++◌, length}
use mathlib.Core.List.{}
use a_test.Exchange.{Text, is_end}
use a_test.Queue.{max_text}
use a_test.Queue.Fifo.{up_to_end}

-- The variable `running` of a process; 0 is followed by its end.
pub data Running : Type 0 where
  runs stops : Running

abbrev pub stop_at : Bool → Running
stop_at true = stops
stop_at false = runs

-- The lines that fgets has not delivered yet, the messages in the queue and the texts printed.
pub record Traffic : Type 0 where
  pub lines : List Text
  pub pending : List Text
  pub printed : List Text
  pub sender : Running
  pub receiver : Running

-- A round of the sender, or one of the receiver.
pub data Moves (capacity : ℕ) : Traffic → Traffic → Type 0 where
  sends :
      (s : Traffic) (line : Text) (rest : List Text)
      → s.sender ≡ runs
      → s.lines ≡ line ∷ rest
      → length line < max_text
      → length s.pending < capacity
      → Moves capacity s (record s {
        lines = rest;
        pending = s.pending ++ line ∷ [];
        sender = stop_at (is_end line);
      })
  receives :
      (s : Traffic) (text : Text) (rest : List Text)
      → s.receiver ≡ runs
      → s.pending ≡ text ∷ rest
      → Moves capacity s (record s {
        pending = rest;
        printed = s.printed ++ text ∷ [];
        receiver = stop_at (is_end text);
      })

-- A run of so many rounds.
pub data Leads (capacity : ℕ) (s : Traffic) : ℕ → Traffic → Type 0 where
  at_once : Leads capacity s 0 s
  then_moves :
      {n : ℕ} {t u : Traffic}
      → Leads capacity s n t
      → Moves capacity t u
      → Leads capacity s (suc n) u

abbrev pub waiting : List Text → Traffic
waiting lines = record { lines = lines; pending = []; printed = []; sender = runs; receiver = runs }

-- What the sender still sends.
abbrev pub to_send : Running → List Text → List Text
to_send runs lines = up_to_end lines
to_send stops lines = []
