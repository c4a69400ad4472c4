-- ===== src/Collect/Runs.antt =====
-- Runs of the two threads of src/collectData.c.
use a_test.Base.{ap, ℕ, zero, suc, ◌+◌, ◌*◌, ◌^◌, ◌≤◌, ◌<◌, ◌≡◌, refl, ◌∙◌, arith}
use a_test.Memory.{}
use a_test.Words.{add32, sub32}
use a_test.Collect.{
  data_size, Writer, testing, Collector, finished, State, count_down, collect_end, counting,
  next_writer, opens, loops, greets, passes, sees, copies, adds, takes, takes_down, checks, Reach,
  here, next, start,
}

-- A state that is reached, in which the collector stands at `at` and the writer at `w`.
abbrev pub Stands : ℕ → ℕ → Collector → Writer → ℕ → ℕ → Type 0
Stands type n at w count len =
    (s : State) × (Reach type n start s)
    × (s.collector ≡ at)
    × (s.writer ≡ w)
    × (s.count ≡ count)
    × (s.len ≡ len)

pub begins : (type n : ℕ) → type < collect_end → 1 ≤ n → Stands type n counting testing n 0
begins type n small some₀ =
    let r₁ = next here (opens start refl small) in
    let r₂ = next r₁ (loops _ refl (λ e. absurd (omega (arith, some₀, e)))) in
    let r₃ = next r₂ (greets _ refl) in
    let r₄ = next r₃ (passes _ refl refl) in (_, r₄, refl, refl, refl, refl)

-- One round of the writer.
pub writes :
    (type n k len : ℕ) {at : Collector}
    → suc k < 2 ^ 32
    → len + 80 ≤ data_size
    → Stands type n at testing (suc k) len
    → Stands type n at (next_writer k) k (len + 80)
unfolding count_down
writes type n k len few room (s, r, c, w, m, l) =
    let r₁ = next r (sees s w (omega (arith, m))) in
    let r₂ = next r₁ (copies _ refl (omega (arith, l, room))) in
    let r₃ = next r₂ (adds _ refl) in
    let r₄ = next r₃ (takes _ refl) in
    let r₅ = next r₄ (takes_down _ s.count refl) in
    let r₆ = next r₅ (checks _ refl) in
    let m' : sub32 s.count 1 ≡ k = omega (arith, m, few) in
    let l' : add32 s.len 80 ≡ len + 80 = omega (arith, l, room) in
    (_, r₆, c, ap next_writer m', m', l')

-- So many rounds, after which the count is not 0.
pub writes_some :
    (type n j k len : ℕ) {at : Collector}
    → suc (k + j) < 2 ^ 32
    → len + 80 * j ≤ data_size
    → Stands type n at testing (suc (k + j)) len
    → Stands type n at testing (suc k) (len + 80 * j)
writes_some type n zero k len few room (s, r, c, w, m, l) =
    (s, r, c, w, m ∙ omega arith, l ∙ omega arith)
writes_some type n (suc j) k len few room (s, r, c, w, m, l) =
    let (t, r', c', w', m', l') =
      writes_some type n j k (len + 80) (omega (arith, few)) (omega (arith, room)) (
        writes type n (suc (k + j)) len (omega (arith, few)) (omega (arith, room))
          (s, r, c, w, m ∙ omega arith, l)) in
    (t, r', c', w', m', l' ∙ omega arith)

-- All its rounds.
pub writes_all :
    (type n k len : ℕ) {at : Collector}
    → k ≤ 11
    → len + 80 * suc k ≤ data_size
    → Stands type n at testing (suc k) len
    → Stands type n at finished 0 (len + 80 * suc k)
writes_all type n k len few room (s, r, c, w, m, l) =
    let (t, r', c', w', m', l') =
      writes type n 0 (len + 80 * k) (omega arith) (omega (arith, room)) (
        writes_some type n k 0 len (omega (arith, few)) (omega (arith, room))
          (s, r, c, w, m ∙ omega arith, l)) in
    (t, r', c', w', m', l' ∙ omega arith)
