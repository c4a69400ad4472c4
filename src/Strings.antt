-- ===== src/Strings.antt =====
-- Small helpers of src/common.c: head_tail_cut_char, cut_char, myfgets and timeval2us. A buffer is the
-- list of its bytes. The result of a memcpy whose ranges overlap is not defined in C; here it is what
-- a copy from the lowest byte up gives.
pub mod Cut
mod Tests
use a_test.Base.{
  ℕ, zero, suc, ◌+◌, ◌-◌, ◌*◌, ◌%◌, ◌^◌, Bool, true, false, List, [], ◌∷◌, ◌++◌, Option, none, some,
  ◌==◌, leb, length, take, drop, set,
}
use a_test.Memory.{Run, ok, fault, ◌>>=◌, ◌>>◌, require}
use a_test.Exchange.{Text}

-- strlen, which runs over the end of a buffer with no 0.
unfoldable pub strlen : List ℕ → Run ℕ
strlen [] = fault
strlen (zero ∷ buf) = ok 0
strlen (suc b ∷ buf) = do n ← strlen buf; ok (suc n)

-- *(str + i)
abbrev pub byte_at : List ℕ → ℕ → Run ℕ
byte_at [] i = fault
byte_at (b ∷ buf) zero = ok b
byte_at (b ∷ buf) (suc i) = byte_at buf i

-- memcpy(str, str + 1, n)
unfoldable pub copy_down : List ℕ → ℕ → Run (List ℕ)
copy_down buf n = do require (leb (suc n) (length buf)); ok (take n (drop 1 buf) ++ drop n buf)

-- The first test and what it does.
abbrev pub cut_head : Bool → List ℕ → ℕ → Run (List ℕ)
cut_head true str len = copy_down str (len + 1)
cut_head false str len = ok str

-- The last byte becomes 0 where it is the character.
abbrev pub end_at : Bool → List ℕ → ℕ → List ℕ
end_at true str i = set str i 0
end_at false str i = str

-- The second test; `len - 1` is -1 for an empty string.
abbrev pub cut_tail : ℕ → List ℕ → ℕ → Run (List ℕ)
cut_tail zero str ch = fault
cut_tail (suc len) str ch = do last ← byte_at str len; ok (end_at (last == ch) str len)

unfoldable pub head_tail_cut_char : List ℕ → ℕ → Run (List ℕ)
head_tail_cut_char str ch = do
  len ← strlen str
  first ← byte_at str 0
  str₁ ← cut_head (first == ch) str len
  len₁ ← strlen str₁
  cut_tail len₁ str₁ ch

-- The string of `cut_char`, ",11,", in ten bytes.
abbrev pub cut_char_str : List ℕ
cut_char_str = 44 ∷ 49 ∷ 49 ∷ 44 ∷ 0 ∷ 0 ∷ 0 ∷ 0 ∷ 0 ∷ 0 ∷ []

unfoldable pub cut_char : Run (List ℕ)
unfolding head_tail_cut_char
cut_char = head_tail_cut_char cut_char_str 44

-- The text up to the first end of a line.
abbrev pub stop_if : Bool → ℕ → Text → Text
stop_if true b rest = []
stop_if false b rest = b ∷ rest

unfoldable pub cut_newline : Text → Text
cut_newline [] = []
cut_newline (b ∷ text) = stop_if (b == 10) b (cut_newline text)

-- The text in `data` afterwards, where fgets has read a line, or where it has not and `data` is as
-- it was before.
unfoldable pub myfgets : Text → Option Text → Text
myfgets before none = cut_newline before
myfgets before (some line) = cut_newline line

-- struct timeval
pub record Timeval : Type 0 where
  pub tv_sec : ℕ
  pub tv_usec : ℕ

-- The differences are those of longs, and the sum becomes an unsigned int.
unfoldable pub timeval2us : Timeval → Timeval → ℕ
timeval2us begin_time end_time =
    let sec = end_time.tv_sec + (2 ^ 64 - begin_time.tv_sec) in
    let usec = end_time.tv_usec + (2 ^ 64 - begin_time.tv_usec) in (sec * 1000000 + usec) % 2 ^ 32
