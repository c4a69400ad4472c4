-- ===== src/Sort/Laws.antt =====
-- What `sort_arr` of src/common.c gives.
use mathlib.Core.List.{append-nil}
use a_test.Base.{
  ℕ, zero, suc, ◌-◌, ◌≤◌, ◌≡◌, refl, sym, ap, subst, ◌∙◌, Bool-cases, inl, inr, List, [], ◌∷◌, ◌++◌,
  arith, ◌==◌, ltb, if◌then◌else◌, length, All,
}
use a_test.Sort.{sweep, rounds, sort_arr}

abbrev pub IsSorted : List ℕ → Type 0
IsSorted [] = Unit {0}
IsSorted (x ∷ xs) = All (λ y. x ≤ y) xs × IsSorted xs

abbrev pub count : ℕ → List ℕ → ℕ
count v [] = 0
count v (x ∷ xs) = let n = count v xs in if x == v then suc n else n

count-sweep : (v k : ℕ) (xs : List ℕ) → count v (sweep k xs) ≡ count v xs
unfolding sweep
count-sweep v zero xs = refl
count-sweep v (suc k) [] = refl
count-sweep v (suc k) (x ∷ []) = refl
count-sweep v (suc k) (x ∷ y ∷ xs) = elim (Bool-cases (ltb y x)) [
  | inl less ↦ rw less (ground (arith, count-sweep v k (x ∷ xs)))
  | inr more ↦ rw more (ground (arith, count-sweep v k (y ∷ xs)))
]

count-rounds : (v m : ℕ) (xs : List ℕ) → count v (rounds m xs) ≡ count v xs
unfolding rounds
count-rounds v zero xs = refl
count-rounds v (suc m) xs = count-rounds v m (sweep (suc m) xs) ∙ count-sweep v (suc m) xs

-- The largest of the first elements stands behind them after a round.
record Swept (x : ℕ) (r qs : List ℕ) (out : List ℕ) : Type 0 where
  front : List ℕ
  top : ℕ
  made : out ≡ front ++ top ∷ qs
  size : length front ≡ length r
  below : All (λ y. y ≤ top) front
  from : x ≤ top
  keeps : (b : ℕ) → All (λ y. y ≤ b) (x ∷ r) → All (λ y. y ≤ b) front × (top ≤ b)

sweep-Swept : (x : ℕ) (r qs : List ℕ) → Swept x r qs (sweep (length r) (x ∷ r ++ qs))
unfolding sweep
sweep-Swept x [] qs = record {
  front = [];
  top = x;
  made = refl;
  size = refl;
  below = tt;
  from = omega arith;
  keeps = λ b h. (tt, h.0);
}
sweep-Swept x (y ∷ r) qs = elim (Bool-cases (ltb y x)) [
  | inl less ↦
      let s = sweep-Swept x r qs in
      rw less (record {
        front = y ∷ s.front;
        top = s.top;
        made = ap (◌∷◌ y) s.made;
        size = ap suc s.size;
        below = (ground (arith, s.from), s.below);
        from = s.from;
        keeps = λ b h. let k = s.keeps b (h.0, h.1.1) in ((h.1.0, k.0), k.1);
      })
  | inr more ↦
      let s = sweep-Swept y r qs in
      rw more (record {
        front = x ∷ s.front;
        top = s.top;
        made = ap (◌∷◌ x) s.made;
        size = ap suc s.size;
        below = (ground (arith, s.from), s.below);
        from = ground (arith, s.from);
        keeps = λ b h. let k = s.keeps b h.1 in ((h.0, k.0), k.1);
      })
]

All-map {ℓ κ} :
    {A : Type ℓ} {P Q : A → Type κ} (xs : List A) → ((x : A) → P x → Q x) → All P xs → All Q xs
All-map [] f h = tt
All-map (x ∷ xs) f h = (f x h.0, All-map xs f h.1)

rounds-IsSorted :
    (m : ℕ) (ps qs : List ℕ)
    → length ps ≡ suc m
    → IsSorted qs
    → All (λ q. All (λ y. y ≤ q) ps) qs
    → IsSorted (rounds m (ps ++ qs))
unfolding rounds
rounds-IsSorted m [] qs n sorted below = absurd (omega arith)
rounds-IsSorted zero (x ∷ []) qs n sorted below = (All-map qs (λ q h. h.0) below, sorted)
rounds-IsSorted zero (x ∷ y ∷ r) qs n sorted below = absurd (omega arith)
rounds-IsSorted (suc m) (x ∷ r) qs n sorted below =
    let s = sweep-Swept x r qs in
    let size : length r ≡ suc m = omega arith in
    let swept : sweep (suc m) (x ∷ r ++ qs) ≡ s.front ++ s.top ∷ qs =
      ap (λ k. sweep k (x ∷ r ++ qs)) (sym size) ∙ s.made in
    rw swept (
      rounds-IsSorted m s.front (s.top ∷ qs) (s.size ∙ size)
        (All-map qs (λ q h. (s.keeps q h).1) below, sorted)
        (s.below, All-map qs (λ q h. (s.keeps q h).0) below))

-- The result is in ascending order and has every value as often as the array had it.
pub sort_arr-IsSorted :
    (arr : List ℕ) → IsSorted (sort_arr arr) × ((v : ℕ) → count v (sort_arr arr) ≡ count v arr)
unfolding sort_arr
sort_arr-IsSorted [] = (unfold rounds in tt, λ v. unfold rounds in refl)
sort_arr-IsSorted (x ∷ xs) =
    let n : length (x ∷ xs) - 1 ≡ length xs = omega arith in
    let runs : rounds (length (x ∷ xs) - 1) (x ∷ xs) ≡ rounds (length xs) (x ∷ xs) =
      ap (λ k. rounds k (x ∷ xs)) n in
    let whole : rounds (length xs) ((x ∷ xs) ++ []) ≡ rounds (length xs) (x ∷ xs) =
      ap (rounds (length xs)) (append-nil (x ∷ xs)) in
    (
      subst IsSorted (sym runs)
          (subst IsSorted whole (rounds-IsSorted (length xs) (x ∷ xs) [] refl tt tt)),
      λ v. ap (count v) runs ∙ count-rounds v (length xs) (x ∷ xs),
    )
