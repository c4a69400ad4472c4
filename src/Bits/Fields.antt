-- ===== src/Bits/Fields.antt =====
-- What is read back from the bit fields and the chars of src/common.c.
use a_test.Base.{ℕ, ◌%◌, ◌^◌, ◌-◌, ◌≤◌, ◌<◌, ◌≡◌, ◌⊎◌, arith}
use a_test.Bits.{pack_uint, pack_uchar, bit_field, through_uchar}

-- Each of the six bit fields gives back what was assigned to it, cut to its width; and an int that
-- fits a signed char comes back through a char, an unsigned char and a char.
pub bit_field-pack :
    (a b c d v : ℕ)
    → (v < 2 ^ 7) ⊎ ((2 ^ 32 - 2 ^ 7 ≤ v) × (v < 2 ^ 32))
    → (bit_field (pack_uint a b c d) 0 8 ≡ a % 2 ^ 8)
      × (bit_field (pack_uint a b c d) 8 8 ≡ b % 2 ^ 8)
      × (bit_field (pack_uint a b c d) 16 8 ≡ c % 2 ^ 8)
      × (bit_field (pack_uint a b c d) 24 8 ≡ d % 2 ^ 8)
      × (bit_field (pack_uchar a b) 0 4 ≡ a % 2 ^ 4)
      × (bit_field (pack_uchar a b) 4 4 ≡ b % 2 ^ 4)
      × (through_uchar v ≡ v)
unfolding pack_uint pack_uchar through_uchar
bit_field-pack a b c d v fits =
    (omega arith, omega arith, omega arith, omega arith, omega arith, omega arith, ground arith)
