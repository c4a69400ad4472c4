-- ===== src/Mapped/Balance.antt =====
-- What the two processes with the mapped file of src/process_interactive.c leave open and print.
use a_test.Base.{
  ap, ℕ, zero, suc, ◌+◌, ◌<◌, ◌≡◌, ◌≢◌, refl, ◌∙◌, ◌⊎◌, inl, inr, Bool-cases, List, [], ◌∷◌, Option,
  none, some, arith, ◌==◌, length,
}
use a_test.System.{
  Answer, value, bytes, error, open_file, fstat, mmap, munmap, sleep, Ending, returns, exits,
  runs_on, Trace, Os, live, remove, close,
}
use a_test.Exchange.{Text}
use a_test.Mapped.{
  SharedUse, fill, mmap_mem, mmap_write, poll, unmap, read_map, read_open, mmap_read,
}

-- How often the file was mapped.
abbrev pub maps : Trace → ℕ
maps [] = 0
maps ((mmap fd, value (suc ptr)) ∷ h) = suc (maps h)
maps (_ ∷ h) = maps h

-- The addresses where it is mapped after a trace.
abbrev pub mapped : Trace → List ℕ
mapped [] = []
mapped ((mmap fd, value (suc ptr)) ∷ h) = suc ptr ∷ mapped h
mapped ((munmap ptr, a) ∷ h) = remove ptr (mapped h)
mapped (_ ∷ h) = mapped h

-- The calls of fstat that failed.
abbrev pub stat_failures : Trace → ℕ
stat_failures [] = 0
stat_failures ((fstat fd, error e) ∷ h) = suc (stat_failures h)
stat_failures (_ ∷ h) = stat_failures h

-- The descriptors are as before, or fstat failed and one more is left.
abbrev pub Leaks : Trace → Trace → Type 0
Leaks h h' =
    ((live h' ≡ live h) × (stat_failures h' ≡ stat_failures h))
    ⊎ ((fd : ℕ) × (live h' ≡ fd ∷ live h) × (stat_failures h' ≡ suc (stat_failures h)))

-- The same mappings as before are left.
abbrev pub Unmaps : Trace → Trace → Type 0
Unmaps h h' = mapped h' ≡ mapped h

-- The contents change as a whole, where the file was mapped.
abbrev pub Writes : SharedUse → Trace → SharedUse × Trace → Type 0
Writes shm h (shm', h') =
    ((maps h' ≡ maps h) × (shm' ≡ shm)) ⊎ ((maps h' ≡ suc (maps h)) × (shm' ≡ fill shm))

pub write-cases :
    (shm : SharedUse) (os : Os) (h : Trace)
    → Leaks h (mmap_write shm os h).1
      × Unmaps h (mmap_write shm os h).1
      × Writes shm h (mmap_write shm os h)
unfolding mmap_write
write-cases shm os h = ground arith

-- Of the polls from `i` on, so many of them, the first that finds the flag up gives the text.
abbrev pub Found : ℕ → (ℕ → SharedUse) → ℕ → Ending Text → Type 0
Found fuel shm i r =
    ((r ≡ runs_on) × ((j : ℕ) → j < fuel → (shm (i + j)).written_by_you ≢ 1))
    ⊎ ((j : ℕ) × (j < fuel)
        × ((shm (i + j)).written_by_you ≡ 1)
        × (r ≡ returns (shm (i + j)).some_text)
        × ((k : ℕ) → k < j → (shm (i + k)).written_by_you ≢ 1))

-- Polls change nothing but the time.
abbrev pub Keeps : Trace → Trace → Type 0
Keeps h h' =
    (live h' ≡ live h)
    × (maps h' ≡ maps h)
    × (mapped h' ≡ mapped h)
    × (stat_failures h' ≡ stat_failures h)

not_up :
    (shm : ℕ → SharedUse) (i n : ℕ)
    → (shm i).written_by_you ≢ 1
    → ((j : ℕ) → j < n → (shm (suc i + j)).written_by_you ≢ 1)
    → (j : ℕ) → j < suc n
    → (shm (i + j)).written_by_you ≢ 1
not_up shm i n first later zero lt = let e : i + zero ≡ i = omega arith in rw e first
not_up shm i n first later (suc j) lt =
    let e : i + suc j ≡ suc i + j = omega arith in rw e (later j (omega arith))

Found-next :
    (fuel : ℕ) (shm : ℕ → SharedUse) (i : ℕ) (r : Ending Text)
    → (shm i).written_by_you ≢ 1
    → Found fuel shm (suc i) r
    → Found (suc fuel) shm i r
Found-next fuel shm i r down (inl (nothing, later)) = inl (nothing, not_up shm i fuel down later)
Found-next fuel shm i r down (inr (j, lt, up, e, later)) =
    let s : i + suc j ≡ suc i + j = omega arith in
    inr (suc j, omega arith, rw s up, rw s e, not_up shm i j down later)

poll-Found :
    (fuel : ℕ) (shm : ℕ → SharedUse) (i : ℕ) (os : Os) (h : Trace)
    → Found fuel shm i (poll fuel shm i os h).0 × Keeps h (poll fuel shm i os h).1
unfolding poll
poll-Found zero shm i os h = (inl (refl, λ j lt. absurd (omega arith)), (refl, refl, refl, refl))
poll-Found (suc fuel) shm i os h =
    let (f, k) = poll-Found fuel shm (suc i) os ((sleep 0, os h (sleep 0)) ∷ h) in
    elim (Bool-cases ((shm i).written_by_you == 1)) [
      | inl up ↦
          let e : i + 0 ≡ i = omega arith in
          let one : (shm i).written_by_you ≡ 1 = ground arith in
          rw up (
            inr (0, omega arith, rw e one, rw e refl, λ k lt. absurd (omega arith)),
            (refl, refl, refl, refl),
          )
      | inr down ↦ rw down (Found-next fuel shm i _ (λ one. ground arith) f, k)
    ]

-- The text is printed and the mappings are as before, or it polls on with one mapping more.
abbrev pub Leaves : Ending Text → Trace → Ending (Option Text) × Trace → Type 0
Leaves (returns text) h (r, h') = (r ≡ returns (some text)) × Unmaps h h'
Leaves (exits code) h (r, h') = (r ≡ exits code) × ((ptr : ℕ) × (mapped h' ≡ ptr ∷ mapped h))
Leaves runs_on h (r, h') = (r ≡ runs_on) × ((ptr : ℕ) × (mapped h' ≡ ptr ∷ mapped h))

-- The file was not mapped and nothing is printed, or it was and the polls decide.
abbrev pub Reads : ℕ → (ℕ → SharedUse) → Trace → Ending (Option Text) × Trace → Type 0
Reads fuel shm h (r, h') =
    (live h' ≡ live h)
    × (((maps h' ≡ maps h) × Unmaps h h' × (r ≡ returns none))
        ⊎ ((maps h' ≡ suc (maps h))
            × ((t : Ending Text) × Found fuel shm 0 t × Leaves t h (r, h'))))

unmap-Leaves :
    (t : Ending Text) (ptr : ℕ) (os : Os) (h₀ h : Trace)
    → mapped h ≡ ptr ∷ mapped h₀
    → Leaves t h₀ (unmap ptr t os h)
unmap-Leaves (returns text) ptr os h₀ h m = (refl, rw m (ground arith))
unmap-Leaves (exits code) ptr os h₀ h m = (refl, (ptr, m))
unmap-Leaves runs_on ptr os h₀ h m = (refl, (ptr, m))

unmap-same :
    (t : Ending Text) (ptr : ℕ) (os : Os) (h : Trace)
    → (live (unmap ptr t os h).1 ≡ live h) × (maps (unmap ptr t os h).1 ≡ maps h)
unmap-same (returns text) ptr os h = (refl, refl)
unmap-same (exits code) ptr os h = (refl, refl)
unmap-same runs_on ptr os h = (refl, refl)

closed : (fd : ℕ) (h₀ h : Trace) → live h ≡ fd ∷ live h₀ → remove fd (live h) ≡ live h₀
closed fd h₀ h opened = rw opened (ground arith)

-- From the call of mmap on, where `fd` was opened after the trace `h₀`.
read_map-Reads :
    (m : Answer) (fd fuel : ℕ) (shm : ℕ → SharedUse) (os : Os) (h₀ h : Trace)
    → live h ≡ fd ∷ live h₀
    → maps h ≡ maps h₀
    → mapped h ≡ mapped h₀
    → Reads fuel shm h₀ (read_map fuel shm m fd os ((mmap fd, m) ∷ h))
read_map-Reads (error e) fd fuel shm os h₀ h opened m u = (closed fd h₀ h opened, inl (m, u, refl))
read_map-Reads (bytes bs) fd fuel shm os h₀ h opened m u = (closed fd h₀ h opened, inl (m, u, refl))
read_map-Reads (value zero) fd fuel shm os h₀ h opened m u =
    (closed fd h₀ h opened, inl (m, u, refl))
read_map-Reads (value (suc ptr)) fd fuel shm os h₀ h opened m u =
    let after : Trace =
      (close fd, os ((mmap fd, value (suc ptr)) ∷ h) (close fd)) ∷ (mmap fd, value (suc ptr)) ∷ h in
    let (found, (l, k, u', _)) = poll-Found fuel shm 0 os after in
    let p = poll fuel shm 0 os after in
    let (l', k') = unmap-same p.0 (suc ptr) os p.1 in
    (
      l' ∙ l ∙ closed fd h₀ h opened,
      inr (
        k' ∙ k ∙ ap suc m,
        (p.0, found, unmap-Leaves p.0 (suc ptr) os h₀ p.1 (u' ∙ ap (◌∷◌ (suc ptr)) u)),
      ),
    )

read_open-Reads :
    (f : Answer) (fuel : ℕ) (shm : ℕ → SharedUse) (os : Os) (h : Trace)
    → Reads fuel shm h (read_open fuel shm f os ((open_file mmap_mem, f) ∷ h))
read_open-Reads (error e) fuel shm os h = (refl, inl (refl, refl, refl))
read_open-Reads (bytes bs) fuel shm os h =
    let after : Trace = (open_file mmap_mem, bytes bs) ∷ h in
    read_map-Reads (os after (mmap (length bs))) (length bs) fuel shm os h after refl refl refl
read_open-Reads (value fd) fuel shm os h =
    let after : Trace = (open_file mmap_mem, value fd) ∷ h in
    read_map-Reads (os after (mmap fd)) fd fuel shm os h after refl refl refl

pub read-Reads :
    (fuel : ℕ) (shm : ℕ → SharedUse) (os : Os) (h : Trace)
    → Reads fuel shm h (mmap_read fuel shm os h)
unfolding mmap_read
read-Reads fuel shm os h = read_open-Reads (os h (open_file mmap_mem)) fuel shm os h
