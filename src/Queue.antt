-- ===== src/Queue.antt =====
-- The message queue of src/process_interactive.c (lines 213 to 285). The queues of the system are a
-- parameter; the call of msgget has no other result than success. fgets delivers the given lines
-- and waits for another one after them. A text is its bytes before the terminating 0; the texts that
-- the receiver prints are a result.
pub mod Fifo
pub mod Delivery
pub mod Together
pub mod UnderWay
pub mod Complete
mod Tests
use a_test.Base.{ℕ, zero, suc, Bool, true, false, List, [], ◌∷◌, Option, none, some, ltb, length}
use a_test.Memory.{Run, ok, ◌>>=◌, ◌>>◌, require}
use a_test.System.{Ending, returns, exits, runs_on}
use a_test.Exchange.{Text, is_end}

-- MAX_TEXT
abbrev pub max_text : ℕ
max_text = 512

-- struct my_msg_st
pub record MyMsg : Type 0 where
  pub my_msg_type : ℕ
  pub some_text : Text

-- What msgrcv answers in the state of the system; it blocks where no message is there.
pub data Arrival (S : Type 0) : Type 0 where
  arrived : MyMsg → S → Arrival S
  broke blocked : Arrival S

-- The four calls on a state of the system; `none` is -1.
pub record Ipc : Type 1 where
  pub State : Type 0
  pub msgget : State → Option State
  pub msgsnd : State → MyMsg → Option State
  pub msgrcv : State → Arrival State
  pub msgctl_rmid : State → Option State

-- How a loop over the queue ends, and the state that it leaves.
abbrev pub Outcome : Ipc → Type 0
Outcome ipc = Run (Ending (Unit {0}) × ipc.State)

module _ (ipc : Ipc) where
  -- The end of a round of the sender, from the test of the line on.
  abbrev pub next_line : Bool → ipc.State → Outcome ipc → Outcome ipc
  next_line true s rest = ok (exits 0, s)
  next_line false s rest = rest

  -- What follows msgsnd.
  abbrev pub after_send :
      Text → ipc.State → Option ipc.State → (ipc.State → Outcome ipc) → Outcome ipc
  after_send line old none rest = ok (exits 1, old)
  after_send line old (some s) rest = next_line (is_end line) s (rest s)

  -- The loop of the sender; strcpy is a fault where the line does not fit into some_text.
  unfoldable pub send_lines : List Text → ipc.State → Outcome ipc
  send_lines [] s = ok (runs_on, s)
  send_lines (line ∷ lines) s = do
    require (ltb (length line) max_text)
    after_send line s (ipc.msgsnd s (record { my_msg_type = 1; some_text = line }))
        (send_lines lines)

  -- It returns -1 where msgget fails.
  abbrev pub on_send_queue : ipc.State → Option ipc.State → List Text → Outcome ipc
  on_send_queue old none lines = ok (returns tt, old)
  on_send_queue old (some s) lines = send_lines lines s

  unfoldable pub msgqueue_send : List Text → ipc.State → Outcome ipc
  msgqueue_send lines s = on_send_queue s (ipc.msgget s) lines

  -- The removal of the queue after the loop.
  abbrev pub after_remove : ipc.State → Option ipc.State → Ending (Unit {0}) × ipc.State
  after_remove old none = (exits 1, old)
  after_remove old (some s) = (exits 0, s)

  abbrev pub Printed : Type 0
  Printed = List Text × Ending (Unit {0}) × ipc.State

  abbrev pub print_first : Text → Printed → Printed
  print_first text (texts, e, s) = (text ∷ texts, e, s)

  -- The end of a round of the receiver, from the test of the text on.
  abbrev pub next_message : Bool → ipc.State → Printed → Printed
  next_message true s rest = let r = after_remove s (ipc.msgctl_rmid s) in ([], r.0, r.1)
  next_message false s rest = rest

  -- What follows msgrcv; the code waits where it blocks.
  abbrev pub after_receive : ipc.State → Arrival ipc.State → (ipc.State → Printed) → Printed
  after_receive old broke rest = ([], exits 1, old)
  after_receive old blocked rest = ([], runs_on, old)
  after_receive old (arrived msg s) rest =
      print_first msg.some_text (next_message (is_end msg.some_text) s (rest s))

  -- The loop of the receiver, for at most so many rounds.
  unfoldable pub receive : ℕ → ipc.State → Printed
  receive zero s = ([], runs_on, s)
  receive (suc fuel) s = after_receive s (ipc.msgrcv s) (receive fuel)

  abbrev pub on_receive_queue : ipc.State → Option ipc.State → ℕ → Printed
  on_receive_queue old none fuel = ([], exits 1, old)
  on_receive_queue old (some s) fuel = receive fuel s

  unfoldable pub msgqueue_recv : ℕ → ipc.State → Printed
  msgqueue_recv fuel s = on_receive_queue s (ipc.msgget s) fuel
