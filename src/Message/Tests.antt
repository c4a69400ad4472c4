-- ===== src/Message/Tests.antt =====
-- Texts of concrete messages.
use a_test.Base.{ltb, if◌then◌else◌, ◌≡◌, refl, arith, [], ◌∷◌, ◌++◌, length}
use a_test.Memory.{ok, fault}
use a_test.Clock.{decimal, digits_before}
use a_test.Exchange.{Text}
use a_test.Message.{custom_print, place, nf, str_combine}
use a_test.Message.Buffer.{custom_print_lem}
use a_test.Message.Combine.{str_combine_lem}

-- "a.c", "f" and "hi\n"
abbrev file : Text
file = 97 ∷ 46 ∷ 99 ∷ []

abbrev func : Text
func = 102 ∷ []

abbrev hi : Text
hi = 104 ∷ 105 ∷ 10 ∷ []

custom_print_lem_example :
    custom_print file func 12 hi
    ≡ (if ltb (length hi) 1024 then ok (place file func 12 ++ hi) else fault)
custom_print_lem_example =
    custom_print_lem file func 12 hi (omega arith, (omega arith, (omega arith, tt)))

-- "[a.c:f line:12]"
prefix :
    place file func 12
    ≡ 91 ∷ 97 ∷ 46 ∷ 99 ∷ 58 ∷ 102 ∷ 32 ∷ 108 ∷ 105 ∷ 110 ∷ 101 ∷ 58 ∷ 49 ∷ 50 ∷ 93 ∷ []
unfolding place decimal digits_before
prefix = refl

str_combine_lem_example : str_combine 22 ≡ ok (nf ++ (decimal 22 ++ 44 ∷ []))
str_combine_lem_example = str_combine_lem 22
