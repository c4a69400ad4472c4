-- ===== src/Collect/Bounds.antt =====
-- How the copy of src/collectData.c leaves the buffer.
use a_test.Base.{ap, ℕ, zero, suc, ◌+◌, ◌*◌, ◌-◌, ◌^◌, ◌≤◌, ◌<◌, ◌≡◌, refl, ◌∙◌, arith}
use a_test.Words.{add32, sub32}
use a_test.Collect.{
  data_size, testing, overrun, closed, State, count_down, collect_end, counting, next_writer,
  next_collector, counts, counts_down, compares, sees, copies, overruns, adds, takes, takes_down,
  checks, Reach, next, start,
}
use a_test.Collect.Runs.{Stands, begins, writes_some}

-- The collector counts a count of 1 down and ends, while the writer, which tested that count,
-- copies; then the writer counts down once more.
wraps :
    (type n len : ℕ)
    → len + 80 ≤ data_size
    → Stands type n counting testing 1 len
    → Stands type n closed testing (2 ^ 32 - 1) (len + 80)
unfolding count_down
wraps type n len room (s, r, c, w, m, l) =
    let r₁ = next r (sees s w (omega (arith, m))) in
    let r₂ = next r₁ (counts _ c) in
    let r₃ = next r₂ (counts_down _ s.count refl) in
    let r₄ = next r₃ (compares _ refl) in
    let r₅ = next r₄ (copies _ refl (omega (arith, l, room))) in
    let r₆ = next r₅ (adds _ refl) in
    let r₇ = next r₆ (takes _ refl) in
    let r₈ = next r₇ (takes_down _ (sub32 s.count 1) refl) in
    let r₉ = next r₈ (checks _ refl) in
    let zero₀ : sub32 s.count 1 ≡ 0 = omega (arith, m) in
    let most : sub32 (sub32 s.count 1) 1 ≡ 2 ^ 32 - 1 = ap (λ k. sub32 k 1) zero₀ in
    let l' : add32 s.len 80 ≡ len + 80 = omega (arith, l, room) in
    (_, r₉, ap next_collector zero₀, ap next_writer most, most, l')

-- For a type that is known and a count from 1 to 12, the 3 of thread_func among them, there is a run
-- of the two threads in which `collect` has counted down to 0 and ended, and the loop of
-- thread_collect copies on until its copy leaves the 1000 bytes of the buffer.
pub collect_overruns :
    (type n : ℕ)
    → type < collect_end
    → 1 ≤ n
    → n ≤ 12
    → (t : State) × (Reach type n start t) × (t.collector ≡ closed) × (t.writer ≡ overrun)
collect_overruns type zero small some₀ few = absurd (omega (arith, some₀))
collect_overruns type (suc k) small some₀ few =
    let j = 11 - k in
    let (s₀, r₀, c₀, w₀, m₀, l₀) = begins type (suc k) small some₀ in
    let one =
      writes_some type (suc k) k 0 0 (omega (arith, few)) (omega (arith, few))
        (s₀, r₀, c₀, w₀, m₀ ∙ omega arith, l₀) in
    let (s, r, c, w, m, l) = wraps type (suc k) (0 + 80 * k) (omega (arith, few)) one in
    let (t, r', c', w', m', l') =
      writes_some type (suc k) j (2 ^ 32 - 2 - j) (0 + 80 * k + 80) (omega arith)
        (omega (arith, few)) (s, r, c, w, m ∙ omega arith, l) in
    let r₁ = next r' (sees t w' (omega (arith, m'))) in
    (_, next r₁ (overruns _ refl (omega (arith, l', few))), c', refl)
