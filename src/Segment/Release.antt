-- ===== src/Segment/Release.antt =====
-- Which of the calls for shared memory `producer` and `customer` make before they exit.
use a_test.Base.{ap, ℕ, suc, ◌≡◌, refl, ◌∙◌, inl, inr, Bool, true, false, List, [], ◌∷◌}
use a_test.System.{
  Answer, value, bytes, error, shmget, shmat, shmdt, shmctl_rmid, getpid, sleep, Ending, exits,
  Trace, Os, Prog, pure, call, ◌>>=◌,
}
use a_test.Segment.Effects.{gotten, attached, detached, removed, failures, Released, Releases}
use a_test.Segment.{
  shm_key, or_exit, loop, after_attach, after_get, with_memory, producer_end, producer,
  customer_end, customer,
}

abbrev Keeps : Trace → Trace → Type 0
Keeps h h' =
    (gotten h' ≡ gotten h)
    × (attached h' ≡ attached h)
    × (detached h' ≡ detached h)
    × (removed h' ≡ removed h)
    × (failures h' ≡ failures h)

loop-Keeps : (naps : List ℕ) (os : Os) (h : Trace) → Keeps h (loop naps os h).1
unfolding loop
loop-Keeps [] os h = (refl, refl, refl, refl, refl)
loop-Keeps (n ∷ ns) os h = loop-Keeps ns os ((sleep n, os h (sleep n)) ∷ h)

-- The memory `i` was got and attached at `p`, and no more, and all calls went well.
abbrev Attached : ℕ → ℕ → Trace → Trace → Type 0
Attached i p h₀ h =
    (gotten h ≡ i ∷ gotten h₀)
    × (attached h ≡ (i, p) ∷ attached h₀)
    × (detached h ≡ detached h₀)
    × (removed h ≡ removed h₀)
    × (failures h ≡ failures h₀)

producer_detached :
    (d : Answer) (i p : ℕ) (os : Os) (h₀ h : Trace)
    → Attached i p h₀ h
    → Releases false h₀ (or_exit d (λ _. pure (exits 0)) os ((shmdt p, d) ∷ h))
producer_detached (error e) i p os h₀ h (g, at, dt, rm, f) =
    inr (refl, (ap suc f, rm, inr (inr (inl (i, p, g, at, dt)))))
producer_detached (value n) i p os h₀ h (g, at, dt, rm, f) =
    inl (refl, (i, p, (f, g, at, ap (◌∷◌ p) dt, rm)))
producer_detached (bytes bs) i p os h₀ h (g, at, dt, rm, f) =
    inl (refl, (i, p, (f, g, at, ap (◌∷◌ p) dt, rm)))

producer_end-Releases :
    (shmid shm : ℕ) (os : Os) (h₀ h : Trace)
    → Attached shmid shm h₀ h
    → Releases false h₀ (producer_end shmid shm os h)
unfolding producer_end
producer_end-Releases shmid shm os h₀ h at =
    producer_detached (os h (shmdt shm)) shmid shm os h₀ h at

-- `h` is a trace after the call of shmdt.
customer_removed :
    (c : Answer) (i p : ℕ) (os : Os) (h₀ h : Trace)
    → Released false i p h₀ h
    → Releases true h₀ (or_exit c (λ _. pure (exits 0)) os ((shmctl_rmid i, c) ∷ h))
customer_removed (error e) i p os h₀ h (f, g, at, dt, rm) =
    inr (refl, (ap suc f, rm, inr (inr (inr ((i, p, g, at, dt), refl)))))
customer_removed (value n) i p os h₀ h (f, g, at, dt, rm) =
    inl (refl, (i, p, (f, g, at, dt, ap (◌∷◌ i) rm)))
customer_removed (bytes bs) i p os h₀ h (f, g, at, dt, rm) =
    inl (refl, (i, p, (f, g, at, dt, ap (◌∷◌ i) rm)))

abbrev remove_it : ℕ → ℕ → Prog (Ending (Unit {0}))
remove_it shmid d = do c ← call (shmctl_rmid shmid); or_exit c (λ _. pure (exits 0))

customer_detached :
    (d : Answer) (i p : ℕ) (os : Os) (h₀ h : Trace)
    → Attached i p h₀ h
    → Releases true h₀ (or_exit d (remove_it i) os ((shmdt p, d) ∷ h))
customer_detached (error e) i p os h₀ h (g, at, dt, rm, f) =
    inr (refl, (ap suc f, rm, inr (inr (inl (i, p, g, at, dt)))))
customer_detached (value n) i p os h₀ h (g, at, dt, rm, f) =
    let h₁ : Trace = (shmdt p, value n) ∷ h in
    customer_removed (os h₁ (shmctl_rmid i)) i p os h₀ h₁ (f, g, at, ap (◌∷◌ p) dt, rm)
customer_detached (bytes bs) i p os h₀ h (g, at, dt, rm, f) =
    let h₁ : Trace = (shmdt p, bytes bs) ∷ h in
    customer_removed (os h₁ (shmctl_rmid i)) i p os h₀ h₁ (f, g, at, ap (◌∷◌ p) dt, rm)

customer_end-Releases :
    (shmid shm : ℕ) (os : Os) (h₀ h : Trace)
    → Attached shmid shm h₀ h
    → Releases true h₀ (customer_end shmid shm os h)
unfolding customer_end
customer_end-Releases shmid shm os h₀ h at =
    customer_detached (os h (shmdt shm)) shmid shm os h₀ h at

-- The memory `i` was got, and no more.
abbrev Got : ℕ → Trace → Trace → Type 0
Got i h₀ h =
    (gotten h ≡ i ∷ gotten h₀)
    × (attached h ≡ attached h₀)
    × (detached h ≡ detached h₀)
    × (removed h ≡ removed h₀)
    × (failures h ≡ failures h₀)

module _ (removes : Bool) (finish : ℕ → ℕ → Prog (Ending (Unit {0}))) (os : Os)
    (ends : (shmid shm : ℕ) (h₀ h : Trace)
      → Attached shmid shm h₀ h
      → Releases removes h₀ (finish shmid shm os h)) where
  after_loop :
      (naps : List ℕ) (shmid shm : ℕ) (h₀ h : Trace)
      → Attached shmid shm h₀ h
      → Releases removes h₀ (finish shmid shm os (loop naps os h).1)
  after_loop naps shmid shm h₀ h (g, at, dt, rm, f) =
      let (g', at', dt', rm', f') = loop-Keeps naps os h in
      ends shmid shm h₀ _ (g' ∙ g, at' ∙ at, dt' ∙ dt, rm' ∙ rm, f' ∙ f)

  -- `h` is a trace after the call of shmget, from the trace `h₀` on.
  after_attach-Releases :
      (naps : List ℕ) (shmid : ℕ) (a : Answer) (h₀ h : Trace)
      → Got shmid h₀ h
      → Releases removes h₀ (after_attach naps finish shmid a os ((shmat shmid, a) ∷ h))
  after_attach-Releases naps shmid (error e) h₀ h (g, at, dt, rm, f) =
      inr (refl, (ap suc f, rm, inr (inl (shmid, g, at, dt))))
  after_attach-Releases naps shmid (value shm) h₀ h (g, at, dt, rm, f) =
      after_loop naps shmid shm h₀ ((shmat shmid, value shm) ∷ h)
        (g, ap (◌∷◌ (shmid, shm)) at, dt, rm, f)
  after_attach-Releases naps shmid (bytes bs) h₀ h (g, at, dt, rm, f) =
      after_loop naps shmid 0 h₀ ((shmat shmid, bytes bs) ∷ h)
        (g, ap (◌∷◌ (shmid, 0)) at, dt, rm, f)

  after_get-Releases :
      (naps : List ℕ) (g : Answer) (h₀ h : Trace)
      → Keeps h₀ h
      → Releases removes h₀ (after_get naps finish g os ((shmget shm_key, g) ∷ h))
  after_get-Releases naps (error e) h₀ h (g, at, dt, rm, f) =
      inr (refl, (ap suc f, rm, inl (g, at, dt)))
  after_get-Releases naps (value shmid) h₀ h (g, at, dt, rm, f) =
      after_attach-Releases naps shmid _ h₀ ((shmget shm_key, value shmid) ∷ h)
        (ap (◌∷◌ shmid) g, at, dt, rm, f)
  after_get-Releases naps (bytes bs) h₀ h (g, at, dt, rm, f) =
      after_attach-Releases naps 0 _ h₀ ((shmget shm_key, bytes bs) ∷ h)
        (ap (◌∷◌ 0) g, at, dt, rm, f)

  with_memory-Releases :
      (naps : List ℕ) (h₀ h : Trace)
      → Keeps h₀ h
      → Releases removes h₀ (with_memory naps finish os h)
  unfolding with_memory
  with_memory-Releases naps h₀ h k = after_get-Releases naps (os h (shmget shm_key)) h₀ h k

-- Where their loops end, whatever the system answers, `producer` and `customer` exit with 0 exactly
-- after all their calls for shared memory went well: the memory that shmget gave was attached,
-- detached from the address where it was attached and, by `customer` alone, removed. Otherwise they
-- exit with 1, after the one call that failed; then no memory is removed, and it is left attached
-- where the call that failed was the one to detach it.
pub segment-Releases :
    (naps : List ℕ) (os : Os) (h : Trace)
    → Releases false h (producer naps os h) × Releases true h (customer naps os h)
unfolding producer customer
segment-Releases naps os h = (
  with_memory-Releases false producer_end os (λ i p. producer_end-Releases i p os) naps h h
      (refl, refl, refl, refl, refl),
  with_memory-Releases true customer_end os (λ i p. customer_end-Releases i p os) naps h
      ((getpid, os h getpid) ∷ h) (refl, refl, refl, refl, refl),
)
