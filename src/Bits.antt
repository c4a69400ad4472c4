-- ===== src/Bits.antt =====
-- Bits: setbit, testbitmain and test_abc of src/common.c, and the macros CONVERT_16 and CONVERT_32 of
-- include/common.h, where the compiler puts the first bit field lowest and a `char` has a sign. An
-- operator + binds closer than a shift. A shift by 32 or more is not defined.
pub mod Swap
pub mod Fields
mod Tests
use Prim.Native.Nat.{bit_and, bit_or}
use a_test.Base.{ℕ, ◌-◌, ◌+◌, ◌*◌, ◌/◌, ◌%◌, ◌^◌, ltb, if◌then◌else◌, Bool}
use a_test.Memory.{Run, ok, fault, ◌>>=◌}

unfoldable pub shift_right : ℕ → ℕ → Run ℕ
shift_right a k = if ltb k 32 then ok (a / 2 ^ k) else fault

unfoldable pub shift_left : ℕ → ℕ → Run ℕ
shift_left a k = if ltb k 32 then ok (a * 2 ^ k % 2 ^ 32) else fault

-- CONVERT_16(x)
unfoldable pub convert_16 : ℕ → Run ℕ
unfolding shift_right shift_left
convert_16 x = do a ← shift_right (bit_and x 0xFF00) (1 + bit_and x 0x00FF); shift_left a 1

-- CONVERT_32(x)
unfoldable pub convert_32 : ℕ → Run ℕ
unfolding shift_right shift_left
convert_32 x = do
  a ← shift_right (bit_and x 0xFF000000) (3 + bit_and x 0x00FF0000)
  b ← shift_right a (1 + bit_and x 0x0000FF00)
  c ← shift_left b (1 + bit_and x 0x000000FF)
  shift_left c 3

-- a |= (1 << 7), for an unsigned char
unfoldable pub set_seven : ℕ → ℕ
set_seven a = bit_or a (2 ^ 7) % 2 ^ 8

-- a &= ~(1 << 7)
unfoldable pub clear_seven : ℕ → ℕ
clear_seven a = bit_and a (2 ^ 32 - 1 - 2 ^ 7) % 2 ^ 8

-- The two numbers that are printed.
unfoldable pub setbit : ℕ × ℕ
setbit = (set_seven 0, clear_seven (set_seven 0))

-- The first word of a bit_uint_t, after an assignment to each of its four fields.
unfoldable pub pack_uint : ℕ → ℕ → ℕ → ℕ → ℕ
pack_uint uint1 uint2 uint3 uint4 =
    uint1 % 2 ^ 8 + 2 ^ 8 * (uint2 % 2 ^ 8) + 2 ^ 16 * (uint3 % 2 ^ 8) + 2 ^ 24 * (uint4 % 2 ^ 8)

-- The byte of a bit_uchar_t.
unfoldable pub pack_uchar : ℕ → ℕ → ℕ
pack_uchar u8_1 u8_2 = u8_1 % 2 ^ 4 + 2 ^ 4 * (u8_2 % 2 ^ 4)

-- A field of `width` bits from the bit `i` on.
abbrev pub bit_field : ℕ → ℕ → ℕ → ℕ
bit_field w i width = w / 2 ^ i % 2 ^ width

-- val and val1
unfoldable pub testbitmain : ℕ × ℕ
testbitmain = (pack_uint 0xaa 0xbb 0xcc 0xdd, pack_uchar 0x1 0x0)

-- A char and an unsigned char from an int, and an int from a char, as bit patterns.
abbrev pub to_char : ℕ → ℕ
to_char a = a % 2 ^ 8

abbrev pub char_to_int : ℕ → ℕ
char_to_int c = if ltb c (2 ^ 7) then c else c + (2 ^ 32 - 2 ^ 8)

-- b = v; c = b; a = (char)c
unfoldable pub through_uchar : ℕ → ℕ
through_uchar v = let b = to_char v in let c = to_char (char_to_int b) in char_to_int (to_char c)

-- The number printed; -5 is 2 ^ 32 - 5.
unfoldable pub test_abc : ℕ
unfolding through_uchar
test_abc = through_uchar (2 ^ 32 - 5)
