-- ===== src/Message.antt =====
-- Texts in buffers of a fixed size in src/common.c: customPrint and str_combine.
-- What vsprintf makes of a format and its arguments is an
-- argument, a text without a 0.
pub mod Buffer
pub mod Combine
mod Tests
use a_test.Base.{ℕ, zero, suc, ◌+◌, List, [], ◌∷◌, ◌++◌, length}
use a_test.Memory.{Run, ok, fault, ◌>>=◌, Object, read, store, memcpy}
use a_test.Clock.{decimal}
use a_test.Exchange.{Text}

-- The string that begins at the first of the bytes.
unfoldable pub text_of : List ℕ → Run Text
text_of [] = fault
text_of (zero ∷ buf) = ok []
text_of (suc b ∷ buf) = do text ← text_of buf; ok (suc b ∷ text)

abbrev pub c_string : Object → Run Text
c_string o = text_of (read o.byte 0 o.size)

-- An array of so many bytes, all 0.
abbrev pub zeros : ℕ → Object
zeros n = record { size = n; byte = λ i. 0 }

-- strcpy or sprintf to the begin of an array
abbrev pub copy_text : Object → Text → Run Object
copy_text o text = store o 0 (text ++ 0 ∷ [])

-- "[", file, ":", func, " line:", line and "]"
unfoldable pub place : Text → Text → ℕ → Text
place file func line =
    91 ∷ file ++ (58 ∷ func ++ (32 ∷ 108 ∷ 105 ∷ 110 ∷ 101 ∷ 58 ∷ decimal line ++ 93 ∷ []))

-- What is printed.
unfoldable pub custom_print : Text → Text → ℕ → Text → Run Text
custom_print file func line formatted = do
  ret ← copy_text (zeros 1024) formatted
  text ← c_string ret
  ok (place file func line ++ text)

-- A text by way of tmp to s_ptr, `ptr` bytes from its begin; tmp is all 0 before and after.
unfoldable pub append_text : Object → ℕ → Text → Run (Object × ℕ)
append_text s_ptr ptr text = do
  tmp ← copy_text (zeros 100) text
  copied ← c_string tmp
  o ← memcpy s_ptr ptr tmp 0 (length copied)
  ok (o, ptr + length copied)

-- "{\"Noisefloor\":["
abbrev pub nf : Text
nf = 123 ∷ 34 ∷ 78 ∷ 111 ∷ 105 ∷ 115 ∷ 101 ∷ 102 ∷ 108 ∷ 111 ∷ 111 ∷ 114 ∷ 34 ∷ 58 ∷ 91 ∷ []

-- What is printed; the code has the number 22.
unfoldable pub str_combine : ℕ → Run Text
str_combine noise_num = do
  a ← append_text (zeros 1000) 0 nf
  b ← append_text a.0 a.1 (decimal noise_num ++ 44 ∷ [])
  c_string b.0
