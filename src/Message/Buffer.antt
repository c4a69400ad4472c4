-- ===== src/Message/Buffer.antt =====
-- Texts that are written to a buffer of src/common.c and read back.
use a_test.Base.{
  ltb, ltb→lt, Bool-cases, inl, inr, ap, ℕ, zero, suc, ◌+◌, ◌-◌, ◌≤◌, ◌<◌, ◌≡◌, refl, sym, ◌∙◌, [],
  ◌∷◌, ◌++◌, arith, length, All, if◌then◌else◌, length-append,
}
use mathlib.Core.List.{append_assoc}
use a_test.Exchange.{Text}
use a_test.Memory.{ok, fault, Object, read, put, store, read-append, read-put_self}
use a_test.Message.{text_of, c_string, zeros, copy_text, custom_print, place}

-- The bytes of a string before its 0.
abbrev pub IsText : Text → Type 0
IsText = All (λ b. 0 < b)

pub text_of-append : (text rest : Text) → IsText text → text_of (text ++ 0 ∷ rest) ≡ ok text
unfolding text_of
text_of-append [] rest h = refl
text_of-append (zero ∷ text) rest h = absurd (omega (arith, h.0))
text_of-append (suc b ∷ text) rest h = rw (text_of-append text rest h.1) refl

-- An array with the text and a 0 at its begin.
abbrev pub holding : Object → Text → Object
holding o text = record o { byte = put o.byte 0 (text ++ 0 ∷ []) }

length-terminated : (text : Text) → length (text ++ 0 ∷ []) ≡ length text + 1
length-terminated text = length-append text (0 ∷ [])

pub copy_text-fits :
    (o : Object) (text : Text) → length text < o.size → copy_text o text ≡ ok (holding o text)
unfolding store
copy_text-fits o text fits = ground (arith, length-terminated text)

pub copy_text-long : (o : Object) (text : Text) → o.size ≤ length text → copy_text o text ≡ fault
unfolding store
copy_text-long o text long = ground (arith, length-terminated text)

pub c_string-holding :
    (o : Object) (text : Text)
    → IsText text
    → length text < o.size
    → c_string (holding o text) ≡ ok text
c_string-holding o text is fits =
    let rest = o.size - (length text + 1) in
    let all : length (text ++ 0 ∷ []) + rest ≡ o.size =
      omega (arith, length-terminated text, fits) in
    let m = (holding o text).byte in
    ap (λ n. text_of (read m 0 n)) (sym all)
    ∙ ap text_of (
        read-append m 0 (length (text ++ 0 ∷ [])) rest
        ∙ ap (λ bs. bs ++ read m (0 + length (text ++ 0 ∷ [])) rest)
            (read-put_self o.byte 0 (text ++ 0 ∷ []))
        ∙ append_assoc text (0 ∷ []) (read m (0 + length (text ++ 0 ∷ [])) rest))
    ∙ text_of-append text (read m (0 + length (text ++ 0 ∷ [])) rest) is

-- customPrint prints the place and the formatted text where that has less than 1024 bytes, and
-- leaves its buffer where it has 1024 or more.
pub custom_print_lem :
    (file func : Text) (line : ℕ) (formatted : Text)
    → IsText formatted
    → custom_print file func line formatted
      ≡ (if ltb (length formatted) 1024 then ok (place file func line ++ formatted) else fault)
unfolding custom_print
custom_print_lem file func line formatted is = elim (Bool-cases (ltb (length formatted) 1024)) [
  | inl short ↦
      let fits : length formatted < 1024 = ltb→lt (length formatted) 1024 short in
      rw
        (
          short,
          copy_text-fits (zeros 1024) formatted fits,
          c_string-holding (zeros 1024) formatted is fits,
        )
        refl
  | inr long ↦ rw (long, copy_text-long (zeros 1024) formatted (ground (arith, long))) refl
]
