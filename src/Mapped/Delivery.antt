-- ===== src/Mapped/Delivery.antt =====
-- When the text of mmap_write reaches mmap_read in src/process_interactive.c.
use a_test.Base.{
  ap, subst, ℕ, suc, ◌+◌, ◌<◌, ◌≡◌, ◌≢◌, ◌∙◌, inl, inr, Bool-cases, some, arith, ltb, ltb→lt, tests,
}
use a_test.System.{Ending, returns, Trace, Os}
use a_test.Exchange.{Text}
use a_test.Mapped.Balance.{maps, Found, Leaves, write-cases, read-Reads}
use a_test.Mapped.{SharedUse, hello_yx, fill, mmap_write, mmap_read}

first_is :
    (n j : ℕ) (polls : ℕ → SharedUse)
    → (polls n).written_by_you ≡ 1
    → ((i : ℕ) → i < n → (polls i).written_by_you ≢ 1)
    → (polls (0 + j)).written_by_you ≡ 1
    → ((k : ℕ) → k < j → (polls (0 + k)).written_by_you ≢ 1)
    → 0 + j ≡ n
first_is n j polls at early up before = elim (Bool-cases (ltb (0 + j) n)) [
  | inl below ↦ absurd (early (0 + j) (ltb→lt (0 + j) n below) up)
  | inr over ↦ elim (Bool-cases (ltb n j)) [
    | inl above ↦
        let z : 0 + n ≡ n = omega arith in
        absurd (before n (ltb→lt n j above) (ap (λ i. (polls i).written_by_you) z ∙ at))
    | inr under ↦ grind tests
  ]
]

-- The first poll that can find the flag up finds the text.
first_up :
    (fuel n : ℕ) (polls : ℕ → SharedUse) (t : Ending Text) (shm : SharedUse)
    → polls n ≡ fill shm
    → ((i : ℕ) → i < n → (polls i).written_by_you ≢ 1)
    → n < fuel
    → Found fuel polls 0 t
    → t ≡ returns hello_yx
first_up fuel n polls t shm at early enough (inl (nothing, never)) =
    let z : 0 + n ≡ n = omega arith in
    absurd (never n enough (ap (λ i. (polls i).written_by_you) z ∙ ap (λ s. s.written_by_you) at))
first_up fuel n polls t shm at early enough (inr (j, lt, up, e, before)) =
    let same : 0 + j ≡ n = first_is n j polls (ap (λ s. s.written_by_you) at) early up before in
    e ∙ ap returns (ap (λ i. (polls i).some_text) same ∙ ap (λ s. s.some_text) at)

-- Let both processes map the file, whatever else the system answers. If the flag is down before the
-- poll `n` of mmap_read and the memory is at that poll what mmap_write left, then more than `n` polls
-- are enough for mmap_read to print "hello yx.\n" and return.
pub mmap-Delivers :
    (shm : SharedUse) (fuel n : ℕ) (polls : ℕ → SharedUse) (os os' : Os) (h h' : Trace)
    → maps (mmap_write shm os h).1 ≡ suc (maps h)
    → maps (mmap_read fuel polls os' h').1 ≡ suc (maps h')
    → ((i : ℕ) → i < n → (polls i).written_by_you ≢ 1)
    → polls n ≡ (mmap_write shm os h).0
    → n < fuel
    → (mmap_read fuel polls os' h').0 ≡ returns (some hello_yx)
mmap-Delivers shm fuel n polls os os' h h' wrote mapped early filled enough =
    let all : (mmap_write shm os h).0 ≡ fill shm = elim (write-cases shm os h).2 [
      | inl kept ↦ absurd (omega (arith, wrote, kept.0))
      | inr full ↦ full.1
    ] in
    let at : polls n ≡ fill shm = filled ∙ all in
    let up : (polls n).written_by_you ≡ 1 = ap (λ s. s.written_by_you) at in
    elim (read-Reads fuel polls os' h').1 [
      | inl kept ↦ absurd (omega (arith, mapped, kept.0))
      | inr (k, (t, found, leaves)) ↦
          let e = first_up fuel n polls t shm at early enough found in
          (subst (λ x. Leaves x h' (mmap_read fuel polls os' h')) e leaves).0
    ]
