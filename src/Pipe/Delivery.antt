-- ===== src/Pipe/Delivery.antt =====
-- What the parent reads from the pipe of src/process_interactive.c.
use a_test.Base.{ap, ℕ, suc, ◌≡◌, refl, sym, ◌∙◌, List, [], ◌∷◌, ◌++◌, arith, length}
use a_test.System.{value, bytes, pipe, fork, write, read, Trace, Os}
use a_test.Pipe.{buffer_size, example, text, shown, show_read, channel}

-- What was written, newest first.
abbrev pub written : Trace → List (List ℕ)
written [] = []
written ((write fd bs, a) ∷ h) = bs ∷ written h
written (_ ∷ h) = written h

abbrev first_or : List ℕ → List (List ℕ) → List ℕ
first_or bs [] = bs
first_or bs (x ∷ xs) = x

child_writes :
    (rest : List ℕ) (from to : ℕ) (os : Os)
    → os [] pipe ≡ bytes (from ∷ to ∷ [])
    → os ((pipe, bytes (from ∷ to ∷ [])) ∷ []) fork ≡ value 0
    → written (channel rest os []).1 ≡ (example ++ 0 ∷ rest) ∷ []
unfolding channel
child_writes rest from to os made born = rw (made, born) refl

parent_shows :
    (rest bs : List ℕ) (from to pid : ℕ) (os : Os)
    → os [] pipe ≡ bytes (from ∷ to ∷ [])
    → os ((pipe, bytes (from ∷ to ∷ [])) ∷ []) fork ≡ value (suc pid)
    → ((h : Trace) → os h (read from buffer_size) ≡ bytes bs)
    → (channel rest os []).0 ≡ show_read (bytes bs)
unfolding channel
parent_shows rest bs from to pid os made parent reads = rw (made, parent) (ap show_read (reads _))

example_shown : (rest : List ℕ) → show_read (bytes (example ++ 0 ∷ rest)) ≡ text example
unfolding shown
example_shown rest = refl

-- Let the child be the process that fork answers 0, and let the parent's read deliver the bytes that
-- the child wrote first. Then these are all that the child wrote, 30 bytes if the part of its buffer
-- that was never set has two, and the parent shows "This is an example of pipe!".
pub channel-Delivers :
    (rest rest' bs : List ℕ) (from to pid : ℕ) (os os' : Os)
    → os [] pipe ≡ bytes (from ∷ to ∷ [])
    → os' [] pipe ≡ bytes (from ∷ to ∷ [])
    → os ((pipe, bytes (from ∷ to ∷ [])) ∷ []) fork ≡ value 0
    → os' ((pipe, bytes (from ∷ to ∷ [])) ∷ []) fork ≡ value (suc pid)
    → ((h : Trace) → os' h (read from buffer_size) ≡ bytes bs)
    → written (channel rest os []).1 ≡ bs ∷ []
    → length rest ≡ 2
    → (length bs ≡ buffer_size) × ((channel rest' os' []).0 ≡ text example)
channel-Delivers rest rest' bs from to pid os os' made made' born parent reads wrote two =
    let sent : bs ≡ example ++ 0 ∷ rest =
      ap (first_or bs) (sym wrote ∙ child_writes rest from to os made born) in
    let enough : length (example ++ 0 ∷ rest) ≡ buffer_size = omega (arith, two) in
    (
      ap length sent ∙ enough,
      parent_shows rest' bs from to pid os' made' parent reads
          ∙ ap (λ b. show_read (bytes b)) sent
          ∙ example_shown rest,
    )
