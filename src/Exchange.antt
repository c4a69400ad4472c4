-- ===== src/Exchange.antt =====
-- The exchange of texts over shared memory of src/process_interactive.c: `producer` and `customer`
-- as two processes whose statements interleave. A text is its bytes before the terminating 0.
-- Both have attached the memory, fgets finds a line whenever it is called, and each statement that
-- touches the memory is one step.
pub mod Agreement
pub mod Order
pub mod End
mod Tests
use a_test.Base.{ℕ, ◌≤◌, ◌<◌, ◌≡◌, Bool, true, false, List, [], ◌∷◌, ◌++◌, ◌==◌, ◌&&◌, length, take}

abbrev pub text_sz : ℕ
text_sz = 2048

abbrev pub Text : Type 0
Text = List ℕ

-- strncmp(text, "end", 3) == 0
unfoldable pub is_end : Text → Bool
is_end (a ∷ b ∷ c ∷ rest) = a == 101 && b == 110 && c == 100
is_end text = false

-- What strncpy puts into `some_text`.
unfoldable pub cut : Text → Text
cut line = take text_sz line

-- Where the producer stands: before the test of its waiting loop, before fgets, and before the copy
-- and before the flag with the line in `buffer`.
pub data Producer : Type 0 where
  waiting entering ended : Producer
  copying flagging : Text → Producer

-- Where the customer stands: before the first reset of the flag, before the test of the flag, before
-- printf, before the reset of the flag, and before the comparison with "end". It is `overrun` where
-- printf ran over the end of a text that is not terminated.
pub data Customer : Type 0 where
  starting polling printing resetting checking stopped overrun : Customer

-- The shared memory, the two processes, the lines that were entered and the texts that were printed.
pub record System : Type 0 where
  pub producer : Producer
  pub customer : Customer
  pub written_by_you : Bool
  pub some_text : Text
  pub entered : List Text
  pub printed : List Text

unfoldable pub next_producer : Bool → Producer
next_producer true = ended
next_producer false = waiting

unfoldable pub next_customer : Bool → Customer
next_customer true = stopped
next_customer false = polling

pub data Step : System → System → Type 0 where
  -- while (shared_stuff->written_by_you == 1)
  waits : (s : System) → s.producer ≡ waiting → s.written_by_you ≡ true → Step s s
  goes_on :
      (s : System)
      → s.producer ≡ waiting
      → s.written_by_you ≡ false
      → Step s (record s { producer = entering })
  enters :
      (s : System) (line : Text)
      → s.producer ≡ entering
      → Step s (record s { producer = copying line; entered = s.entered ++ line ∷ [] })
  copies :
      (s : System) (line : Text)
      → s.producer ≡ copying line
      → Step s (record s { producer = flagging line; some_text = cut line })
  flags :
      (s : System) (line : Text)
      → s.producer ≡ flagging line
      → Step s (record s { producer = next_producer (is_end line); written_by_you = true })
  starts :
      (s : System)
      → s.customer ≡ starting
      → Step s (record s { customer = polling; written_by_you = false })
  polls : (s : System) → s.customer ≡ polling → s.written_by_you ≡ false → Step s s
  sees :
      (s : System)
      → s.customer ≡ polling
      → s.written_by_you ≡ true
      → Step s (record s { customer = printing })
  prints :
      (s : System)
      → s.customer ≡ printing
      → length s.some_text < text_sz
      → Step s (record s { customer = resetting; printed = s.printed ++ s.some_text ∷ [] })
  overruns :
      (s : System)
      → s.customer ≡ printing
      → text_sz ≤ length s.some_text
      → Step s (record s { customer = overrun })
  resets :
      (s : System)
      → s.customer ≡ resetting
      → Step s (record s { customer = checking; written_by_you = false })
  checks :
      (s : System)
      → s.customer ≡ checking
      → Step s (record s { customer = next_customer (is_end s.some_text) })

pub data Reach (s : System) : System → Type 0 where
  here : Reach s s
  next : {t u : System} → Reach s t → Step t u → Reach s u
