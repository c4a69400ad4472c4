-- ===== src/Mapped/Tests.antt =====
-- The mapped file of src/process_interactive.c with a concrete system.
use a_test.Base.{ℕ, zero, suc, ◌<◌, ◌≡◌, ◌≢◌, refl, [], Option, some, arith}
use a_test.System.{value, open_file, mmap, Ending, returns, Os}
use a_test.Exchange.{Text}
use a_test.Mapped.{SharedUse, hello_yx, mmap_write, poll, mmap_read}
use a_test.Mapped.Delivery.{mmap-Delivers}

-- An empty file with the number 3, mapped at 4096.
abbrev empty_file : Os
empty_file h (open_file p) = value 3
empty_file h (mmap fd) = value 4096
empty_file h _ = value 0

abbrev blank : SharedUse
blank = record { written_by_you = 0; number = 0; some_text = [] }

abbrev filled : SharedUse
filled = record { written_by_you = 1; number = 2; some_text = hello_yx }

-- What the reader finds: the text is there at its third poll.
abbrev late : ℕ → SharedUse
late zero = blank
late (suc zero) = blank
late (suc (suc i)) = filled

late_early : (i : ℕ) → i < 2 → (late i).written_by_you ≢ 1
late_early zero lt e = cc
late_early (suc zero) lt e = cc
late_early (suc (suc i)) lt e = absurd (omega arith)

abbrev printed : Ending (Option Text)
printed = returns (some hello_yx)

mmap-Delivers_example : (mmap_read 5 late empty_file []).0 ≡ printed
unfolding mmap_write mmap_read poll
mmap-Delivers_example =
    mmap-Delivers blank 5 2 late empty_file empty_file [] [] refl refl late_early refl (omega arith)
