-- ===== src/Queue/Fifo.antt =====
-- What the message queue of src/process_interactive.c promises, and the lines that the sender sends.
use a_test.Base.{ℕ, suc, ◌<◌, ◌≡◌, refl, ap, Bool, true, false, List, [], ◌∷◌, ◌++◌, some, length}
use a_test.Exchange.{Text, is_end}
use a_test.Queue.{MyMsg, arrived, Ipc}

-- The message that carries a text.
abbrev pub message : Text → MyMsg
message text = record { my_msg_type = 1; some_text = text }

-- Calls that keep the messages in order, in a queue that has room for `capacity` messages: msgget
-- makes the queue where it is not there, and msgctl removes it.
pub record IsFifo (ipc : Ipc) (capacity : ℕ) : Type 0 where
  pub is_there : ipc.State → Bool
  pub pending : ipc.State → List MyMsg
  pub get_lem :
      (s : ipc.State)
      → (t : ipc.State) × (ipc.msgget s ≡ some t) × (is_there t ≡ true) × (pending t ≡ pending s)
  pub send_lem :
      (s : ipc.State) (m : MyMsg)
      → is_there s ≡ true
      → length (pending s) < capacity
      → (t : ipc.State) × (ipc.msgsnd s m ≡ some t)
        × (is_there t ≡ true)
        × (pending t ≡ pending s ++ m ∷ [])
  pub receive_lem :
      (s : ipc.State) (m : MyMsg) (ms : List MyMsg)
      → is_there s ≡ true
      → pending s ≡ m ∷ ms
      → (t : ipc.State) × (ipc.msgrcv s ≡ arrived m t) × (is_there t ≡ true) × (pending t ≡ ms)
  pub remove_lem :
      (s : ipc.State)
      → is_there s ≡ true
      → (t : ipc.State) × (ipc.msgctl_rmid s ≡ some t) × (is_there t ≡ false)

-- The lines up to the first one that begins with "end", that line included; all where there is none.
abbrev pub cut_if : Bool → Text → List Text → List Text
cut_if true line rest = line ∷ []
cut_if false line rest = line ∷ rest

abbrev pub up_to_end : List Text → List Text
up_to_end [] = []
up_to_end (line ∷ lines) = cut_if (is_end line) line (up_to_end lines)

abbrev pub or_later : Bool → Bool → Bool
or_later true later = true
or_later false later = later

abbrev pub has_end : List Text → Bool
has_end [] = false
has_end (line ∷ lines) = or_later (is_end line) (has_end lines)

pub length-append_one : (ms : List MyMsg) (m : MyMsg) → length (ms ++ m ∷ []) ≡ suc (length ms)
length-append_one [] m = refl
length-append_one (x ∷ ms) m = ap suc (length-append_one ms m)

pub up_to_end-last :
    (line : Text) (lines : List Text) → is_end line ≡ true → up_to_end (line ∷ lines) ≡ line ∷ []
up_to_end-last line lines last = rw last refl

pub up_to_end-next :
    (line : Text) (lines : List Text)
    → is_end line ≡ false
    → up_to_end (line ∷ lines) ≡ line ∷ up_to_end lines
up_to_end-next line lines more = rw more refl

pub has_end-next :
    (line : Text) (lines : List Text)
    → is_end line ≡ false
    → has_end (line ∷ lines) ≡ true
    → has_end lines ≡ true
has_end-next line lines more ends = rw more at ends
