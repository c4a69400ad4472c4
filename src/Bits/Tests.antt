-- ===== src/Bits/Tests.antt =====
-- Bits of concrete numbers.
use a_test.Base.{ℕ, ◌%◌, ◌^◌, ◌-◌, ◌≡◌, ◌≤◌, ◌↔◌, refl, inr, arith}
use a_test.Memory.{ok, fault}
use a_test.Bits.{
  convert_16, convert_32, shift_right, shift_left, setbit, set_seven, clear_seven, testbitmain,
  test_abc, bit_field, pack_uint, pack_uchar, through_uchar,
}
use a_test.Bits.Swap.{swap_bytes, convert_16_swaps}
use a_test.Bits.Fields.{bit_field-pack}

-- 0x1234
abbrev two_bytes : ℕ
two_bytes = 4660

convert_16_swaps_example :
    ((convert_16 two_bytes ≡ ok (swap_bytes two_bytes)) ↔ (two_bytes ≡ 0))
    × ((convert_16 two_bytes ≡ fault) ↔ (31 ≤ two_bytes % 2 ^ 8))
convert_16_swaps_example = convert_16_swaps two_bytes (omega arith)

bit_field-pack_example :
    (bit_field (pack_uint 0xaa 0xbb 0xcc 0x1dd) 0 8 ≡ 0xaa % 2 ^ 8)
    × (bit_field (pack_uint 0xaa 0xbb 0xcc 0x1dd) 8 8 ≡ 0xbb % 2 ^ 8)
    × (bit_field (pack_uint 0xaa 0xbb 0xcc 0x1dd) 16 8 ≡ 0xcc % 2 ^ 8)
    × (bit_field (pack_uint 0xaa 0xbb 0xcc 0x1dd) 24 8 ≡ 0x1dd % 2 ^ 8)
    × (bit_field (pack_uchar 0xaa 0xbb) 0 4 ≡ 0xaa % 2 ^ 4)
    × (bit_field (pack_uchar 0xaa 0xbb) 4 4 ≡ 0xbb % 2 ^ 4)
    × (through_uchar (2 ^ 32 - 5) ≡ 2 ^ 32 - 5)
bit_field-pack_example =
    bit_field-pack 0xaa 0xbb 0xcc 0x1dd (2 ^ 32 - 5) (inr (omega arith, omega arith))

prints : (setbit ≡ (128, 0)) × (testbitmain ≡ (0xddccbbaa, 1)) × (test_abc ≡ 2 ^ 32 - 5)
unfolding setbit set_seven clear_seven testbitmain pack_uint pack_uchar test_abc through_uchar
prints = (refl, refl, refl)

converts : (convert_16 0x0100 ≡ ok 0x0100) × (convert_32 0x00010000 ≡ fault) × (convert_32 1 ≡ ok 0)
unfolding convert_16 convert_32 shift_right shift_left
converts = (refl, refl, refl)
