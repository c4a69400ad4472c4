-- ===== src/Conf/Prefix.antt =====
-- Keys at the start of a line, and positions in a file, for `update_conf` of src/common.c.
use a_test.Base.{
  ap, ℕ, ◌-◌, ◌≡◌, ◌≢◌, refl, inl, inr, true, false, Bool-cases, [], ◌∷◌, ◌++◌, arith, All, ◌==◌,
  length, length-append, take, drop,
}
use mathlib.Core.List.{}
use a_test.Exchange.{Text}
use a_test.Conf.{is_prefix, seek_back}

-- What ends a line.
abbrev pub newline : ℕ
newline = 10

-- A key matches a line no differently with its end.
pub is_prefix_line :
    (key l : Text)
    → All (λ b. b ≢ newline) key
    → is_prefix key (l ++ newline ∷ []) ≡ is_prefix key l
unfolding is_prefix
is_prefix_line [] l plain = refl
is_prefix_line (k ∷ key) [] plain = ground arith
is_prefix_line (k ∷ key) (b ∷ l) plain = ground (arith, is_prefix_line key l plain.1)

pub suffix_of : (key l : Text) → is_prefix key l ≡ true → (s : Text) × (l ≡ key ++ s)
unfolding is_prefix
suffix_of [] l h = (l, refl)
suffix_of (k ∷ key) [] h = cc
suffix_of (k ∷ key) (b ∷ l) h = elim (Bool-cases (k == b)) [
  | inl same ↦
      let rest : is_prefix key l ≡ true = rw same at h in
      let (s, e) = suffix_of key l rest in (s, ground arith)
  | inr other ↦ let none : false ≡ true = rw other at h in cc
]

pub exclusive :
    (k k' : ℕ) (ks ks' l : Text)
    → k ≢ k'
    → is_prefix (k ∷ ks) l ≡ true
    → is_prefix (k' ∷ ks') l ≡ false
unfolding is_prefix
exclusive k k' ks ks' [] other h = refl
exclusive k k' ks ks' (b ∷ l) other h = ground arith

pub take_front : (xs ys : Text) → take (length xs) (xs ++ ys) ≡ xs
take_front [] ys = refl
take_front (x ∷ xs) ys = ap (◌∷◌ x) (take_front xs ys)

pub drop_front : (xs ys : Text) → drop (length xs) (xs ++ ys) ≡ ys
drop_front [] ys = refl
drop_front (x ∷ xs) ys = drop_front xs ys

pub seek_back_lem : (xs ys rest : Text) → seek_back (length ys) (xs ++ ys, rest) ≡ (xs, ys ++ rest)
unfolding seek_back
seek_back_lem xs ys rest =
    let e : length (xs ++ ys) - length ys ≡ length xs = omega (arith, length-append xs ys) in
    rw (e, take_front xs ys, drop_front xs ys) refl
