-- ===== src/Words.antt =====
-- Machine words of the GCC x86-64 ABI as numbers: a value of a w-bit type is its bit pattern, below
-- 2 ^ w. `int` has 32 bits and `size_t` 64.
use a_test.Base.{ℕ, ◌+◌, ◌-◌, ◌%◌, ◌^◌, ltb, if◌then◌else◌}

abbrev pub add32 : ℕ → ℕ → ℕ
add32 a b = (a + b) % 2 ^ 32

abbrev pub sub32 : ℕ → ℕ → ℕ
sub32 a b = (a + 2 ^ 32 - b) % 2 ^ 32

abbrev pub sub64 : ℕ → ℕ → ℕ
sub64 a b = (a + 2 ^ 64 - b) % 2 ^ 64

-- (size_t)i for an int i: the sign is extended.
abbrev pub to_size : ℕ → ℕ
to_size i = if ltb i (2 ^ 31) then i else i + (2 ^ 64 - 2 ^ 32)
