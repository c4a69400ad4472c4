-- ===== src/Bits/Swap.antt =====
-- The macro CONVERT_16 of include/common.h on every 16-bit number, by evaluation.
use a_test.Base.{
  ℕ, zero, suc, ◌≤◌, ◌+◌, ◌*◌, ◌/◌, ◌%◌, ◌^◌, ◌<◌, ◌≡◌, ◌↔◌, refl, sym, ap, ◌∙◌, Bool, true, false,
  ◌==◌, leb, arith, not, if◌then◌else◌,
}
use a_test.Memory.{Run, ok, fault, spinning}
use a_test.Bits.{convert_16, shift_right, shift_left}

-- The two bytes of a 16-bit number the other way round.
abbrev pub swap_bytes : ℕ → ℕ
swap_bytes x = x / 2 ^ 8 + 2 ^ 8 * (x % 2 ^ 8)

-- Whether the test holds for every number below the bound.
unfoldable all_below : ℕ → (ℕ → Bool) → Bool
all_below zero test = true
all_below (suc n) test = let rest = all_below n test in if test n then rest else false

holds_below : (n : ℕ) (test : ℕ → Bool) (x : ℕ) → all_below n test ≡ true → x < n → test x ≡ true
unfolding all_below
holds_below zero test x all lt = absurd (omega arith)
holds_below (suc n) test x all lt = ground (arith, holds_below n test x)

-- Whether the result is this number, or is not defined.
unfoldable gives : Run ℕ → ℕ → Bool
gives (ok x) y = x == y
gives fault y = false
gives spinning y = false

unfoldable faults : Run ℕ → Bool
faults (ok x) = false
faults fault = true
faults spinning = false

unfoldable agree : Bool → Bool → Bool
agree true b = b
agree false b = not b

gives_iff : (r : Run ℕ) (y : ℕ) → (gives r y ≡ true) ↔ (r ≡ ok y)
unfolding gives
gives_iff (ok x) y = ground arith
gives_iff fault y = (λ e. cc, λ e. cc)
gives_iff spinning y = (λ e. cc, λ e. cc)

faults_iff : (r : Run ℕ) → (faults r ≡ true) ↔ (r ≡ fault)
unfolding faults
faults_iff (ok x) = (λ e. cc, λ e. cc)
faults_iff fault = (λ e. refl, λ e. refl)
faults_iff spinning = (λ e. cc, λ e. cc)

-- The test of one number.
unfoldable as_stated : ℕ → Bool
as_stated x =
    let shifts = agree (leb 31 (x % 2 ^ 8)) (faults (convert_16 x)) in
    if agree (x == 0) (gives (convert_16 x) (swap_bytes x)) then shifts else false

every_byte : all_below 256 (λ h. all_below 256 (λ l. as_stated (2 ^ 8 * h + l))) ≡ true
unfolding all_below as_stated agree gives faults convert_16 shift_right shift_left
every_byte = refl

as_stated_all : (x : ℕ) → x < 2 ^ 16 → as_stated x ≡ true
as_stated_all x small =
    let row = holds_below 256 _ (x / 2 ^ 8) every_byte (omega arith) in
    let cell = holds_below 256 _ (x % 2 ^ 8) row (omega arith) in
    let whole : 2 ^ 8 * (x / 2 ^ 8) + x % 2 ^ 8 ≡ x = omega arith in sym (ap as_stated whole) ∙ cell

-- For a number of 16 bits, CONVERT_16 gives the number with its two bytes swapped only for 0, and
-- shifts by 32 or more, which is not defined, exactly where the low byte is 31 or more.
pub convert_16_swaps :
    (x : ℕ)
    → x < 2 ^ 16
    → ((convert_16 x ≡ ok (swap_bytes x)) ↔ (x ≡ 0)) × ((convert_16 x ≡ fault) ↔ (31 ≤ x % 2 ^ 8))
unfolding as_stated agree
convert_16_swaps x small = ground (
  arith,
  as_stated_all x small,
  gives_iff (convert_16 x) (swap_bytes x),
  faults_iff (convert_16 x),
)
