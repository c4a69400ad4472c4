-- ===== src/Pipe.antt =====
-- The pipe of src/process_interactive.c (lines 292 to 328). `pipe` answers its two descriptors as
-- two bytes. The buffer of 30 bytes that the child writes ends with two bytes that were never set,
-- which are an argument.
pub mod Delivery
mod Tests
use a_test.Base.{ℕ, zero, suc, List, [], ◌∷◌, ◌++◌, Option, none, some}
use a_test.Exchange.{Text}
use a_test.System.{
  Answer, value, bytes, error, Call, pipe, fork, close, write, read, Prog, pure, call, ◌>>=◌, ◌>>◌,
}

abbrev pub buffer_size : ℕ
buffer_size = 30

-- "This is an example of pipe!"
abbrev pub example : Text
example =
    84 ∷ 104 ∷ 105 ∷ 115 ∷ 32 ∷ 105 ∷ 115 ∷ 32 ∷ 97 ∷ 110 ∷ 32 ∷ 101 ∷ 120 ∷ 97 ∷ 109 ∷ 112 ∷ 108
    ∷ 101 ∷ 32 ∷ 111 ∷ 102 ∷ 32 ∷ 112 ∷ 105 ∷ 112 ∷ 101 ∷ 33 ∷ []

-- What printf shows of a buffer: it runs over the end of one with no 0.
pub data Shown : Type 0 where
  silent overrun : Shown
  text : Text → Shown

abbrev pub show_first : ℕ → Shown → Shown
show_first b silent = silent
show_first b overrun = overrun
show_first b (text bs) = text (b ∷ bs)

unfoldable pub shown : List ℕ → Shown
shown [] = overrun
shown (zero ∷ bs) = text []
shown (suc b ∷ bs) = show_first (suc b) (shown bs)

-- `len > 0`
abbrev pub show_read : Answer → Shown
show_read (bytes []) = silent
show_read (bytes (b ∷ bs)) = shown (b ∷ bs)
show_read (value n) = silent
show_read (error e) = silent

-- The child writes, and the parent shows what it reads.
abbrev pub after_fork : ℕ → ℕ → List ℕ → Answer → Prog Shown
after_fork from to rest (value zero) = do
  call (close from)
  call (write to (example ++ 0 ∷ rest))
  pure silent
after_fork from to rest (value (suc pid)) = do
  call (close to)
  a ← call (read from buffer_size)
  pure (show_read a)
after_fork from to rest (bytes bs) = pure silent
after_fork from to rest (error e) = pure silent

abbrev pub after_pipe : List ℕ → Answer → Prog Shown
after_pipe rest (error e) = pure silent
after_pipe rest (value n) = pure silent
after_pipe rest (bytes []) = pure silent
after_pipe rest (bytes (from ∷ [])) = pure silent
after_pipe rest (bytes (from ∷ to ∷ more)) = do pid ← call fork; after_fork from to rest pid

unfoldable pub channel : List ℕ → Prog Shown
channel rest = do ret ← call pipe; after_pipe rest ret
