-- ===== src/Pipe/Tests.antt =====
-- The pipe of src/process_interactive.c with a concrete system.
use a_test.Base.{ℕ, ◌≡◌, refl, List, [], ◌∷◌, ◌++◌}
use a_test.System.{value, bytes, pipe, fork, read, Os}
use a_test.Pipe.{example, text, Shown, shown, channel}
use a_test.Pipe.Delivery.{}

-- The bytes of the child's buffer.
abbrev sent : List ℕ
sent = example ++ 0 ∷ 7 ∷ 9 ∷ []

abbrev parent : Os
parent h pipe = bytes (3 ∷ 4 ∷ [])
parent h fork = value 100
parent h (read fd n) = bytes sent
parent h _ = value 0

abbrev example_text : Shown
example_text = text example

shows_sent : (channel [] parent []).0 ≡ example_text
unfolding channel shown
shows_sent = refl
