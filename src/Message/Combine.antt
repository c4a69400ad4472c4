-- ===== src/Message/Combine.antt =====
-- The text that str_combine of src/common.c puts together.
use a_test.Base.{
  ap, ℕ, zero, suc, ◌+◌, ◌/◌, ◌%◌, ◌≤◌, ◌<◌, ◌≡◌, refl, sym, ◌∙◌, List, [], ◌∷◌, ◌++◌, arith, ltb,
  length, Bool-cases, inl, inr, length-append, All-append, ==_iff, ◌==◌,
}
use a_test.Exchange.{Text}
use a_test.Clock.{decimal, digits_before}
use a_test.Memory.{ok, ◌>>=◌, Object, read, put, read_congr, copy_fits, put-below, put-above}
use a_test.Message.{text_of, c_string, zeros, append_text, nf, str_combine}
use a_test.Message.Buffer.{IsText, holding, copy_text-fits, c_string-holding}

read-put_prefix :
    (m : ℕ → ℕ) (off : ℕ) (a b : List ℕ) → read (put m off (a ++ b)) off (length a) ≡ a
unfolding read put
read-put_prefix m off [] b = refl
read-put_prefix m off (x ∷ a) b =
    let rest =
      read_congr (put m off (x ∷ (a ++ b))) (put m (suc off) (a ++ b)) (suc off) (length a)
        (λ i p q. ground arith) in
    ground (arith, rest, read-put_prefix m (suc off) a b)

put_congr : (m m' : ℕ → ℕ) (off i : ℕ) (bs : List ℕ) → m i ≡ m' i → put m off bs i ≡ put m' off bs i
unfolding put
put_congr m m' off i [] h = h
put_congr m m' off i (b ∷ bs) h = ground (arith, put_congr m m' (suc off) i bs h)

put-append :
    (m : ℕ → ℕ) (off i : ℕ) (a b : List ℕ)
    → put m off (a ++ b) i ≡ put (put m off a) (off + length a) b i
unfolding put
put-append m off i [] b = let o : off + 0 ≡ off = omega arith in rw o refl
put-append m off i (x ∷ a) b =
    let o : off + suc (length a) ≡ suc off + length a = omega arith in
    rw o (elim (Bool-cases (i == off)) [
      | inl e ↦ ground (arith, put-below (put m off (x ∷ a)) (suc off + length a) i b)
      | inr e ↦
          let kept : put m off (x ∷ a) i ≡ put m (suc off) a i = ground arith in
          ground (
            arith,
            put-append m (suc off) i a b,
            put_congr (put m off (x ∷ a)) (put m (suc off) a) (suc off + length a) i b kept,
          )
    ])

append_text-fits :
    (o : Object) (ptr : ℕ) (text : Text)
    → IsText text
    → length text < 100
    → ptr + length text ≤ o.size
    → append_text o ptr text ≡ ok (record o { byte = put o.byte ptr text }, ptr + length text)
unfolding append_text
append_text-fits o ptr text is short fits =
    rw
      (
        copy_text-fits (zeros 100) text short,
        c_string-holding (zeros 100) text is short,
        copy_fits o (holding (zeros 100) text) ptr 0 (length text) (omega (arith, short)) fits,
        read-put_prefix (λ i. 0) 0 text (0 ∷ []),
      )
      refl

-- The 0 behind a text, in an array that is 0.
put_end : (f : ℕ → ℕ) (off i : ℕ) → f off ≡ 0 → put f off (0 ∷ []) i ≡ f i
unfolding put
put_end f off i h = elim (Bool-cases (i == off)) [
  | inl e ↦ rw e (sym h ∙ ap f (sym ((==_iff i off).0 e)))
  | inr e ↦ rw e refl
]

-- Two appends to an empty array leave the bytes that one copy of both texts leaves.
two_puts :
    (a b : Text) (i : ℕ)
    → put (put (λ j. 0) 0 a) (0 + length a) b i ≡ put (λ j. 0) 0 ((a ++ b) ++ 0 ∷ []) i
two_puts a b i =
    let behind = put-above (λ j. 0) 0 (0 + length (a ++ b)) (a ++ b) (omega arith) in
    sym (put-append (λ j. 0) 0 i a b)
    ∙ sym (
        put-append (λ j. 0) 0 i (a ++ b) (0 ∷ [])
        ∙ put_end (put (λ j. 0) 0 (a ++ b)) (0 + length (a ++ b)) i behind)

two_texts :
    (n : ℕ) (a b : Text)
    → IsText a
    → IsText b
    → length a + length b < n
    → c_string (record { size = n; byte = put (put (λ i. 0) 0 a) (0 + length a) b }) ≡ ok (a ++ b)
two_texts n a b ha hb fits =
    ap text_of (
      read_congr (put (put (λ i. 0) 0 a) (0 + length a) b) (put (λ i. 0) 0 ((a ++ b) ++ 0 ∷ [])) 0 n
        (λ i p q. two_puts a b i))
    ∙ c_string-holding (zeros n) (a ++ b) (All-append (λ c. 0 < c) a b ha hb)
        (omega (arith, length-append a b, fits))

digits_before-IsText : (fuel n : ℕ) (rest : Text) → IsText rest → IsText (digits_before fuel n rest)
unfolding digits_before
digits_before-IsText zero n rest h = h
digits_before-IsText (suc fuel) n rest h =
    let more = digits_before-IsText fuel (n / 10) ((48 + n % 10) ∷ rest) (omega arith, h) in
    elim (Bool-cases (ltb n 10)) [ inl e ↦ rw e (omega arith, h) | inr e ↦ rw e more ]

length-digits_before :
    (fuel n : ℕ) (rest : Text) → length (digits_before fuel n rest) ≤ fuel + length rest
unfolding digits_before
length-digits_before zero n rest = omega arith
length-digits_before (suc fuel) n rest =
    ground (arith, length-digits_before fuel (n / 10) ((48 + n % 10) ∷ rest))

append_two :
    (a b : Text)
    → IsText a
    → IsText b
    → length a < 100
    → length b < 100
    → (append_text (zeros 1000) 0 a >>= λ r. append_text r.0 r.1 b >>= λ q. c_string q.0)
      ≡ ok (a ++ b)
append_two a b ha hb sa sb =
    rw
      (
        append_text-fits (zeros 1000) 0 a ha sa (omega (arith, sa)),
        append_text-fits (record { size = 1000; byte = put (λ i. 0) 0 a }) (0 + length a) b hb sb
            (omega (arith, sa, sb)),
      )
      (two_texts 1000 a b ha hb (omega (arith, sa, sb)))

decimal-IsText : (n : ℕ) → IsText (decimal n ++ 44 ∷ [])
unfolding decimal
decimal-IsText n =
    All-append (λ c. 0 < c) (digits_before 10 n []) (44 ∷ []) (digits_before-IsText 10 n [] tt)
      (omega arith, tt)

length-decimal : (n : ℕ) → length (decimal n ++ 44 ∷ []) < 100
unfolding decimal
length-decimal n =
    omega (arith, length-append (digits_before 10 n []) (44 ∷ []), length-digits_before 10 n [])

nf-IsText : IsText nf
nf-IsText = ground arith

-- str_combine stays inside both of its buffers, and prints the begin of the list, the number and a
-- comma, whatever number stands in place of 22, as `decimal` writes it.
pub str_combine_lem :
    (noise_num : ℕ) → str_combine noise_num ≡ ok (nf ++ (decimal noise_num ++ 44 ∷ []))
unfolding str_combine
str_combine_lem noise_num =
    append_two nf (decimal noise_num ++ 44 ∷ []) nf-IsText (decimal-IsText noise_num) (omega arith)
      (length-decimal noise_num)
