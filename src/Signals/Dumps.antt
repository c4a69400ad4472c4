-- ===== src/Signals/Dumps.antt =====
-- How often the handlers of src/common.c and src/process_interactive.c run.
use a_test.Base.{
  ◌≢◌, ap, subst, ℕ, suc, ◌+◌, ◌≤◌, ◌≡◌, refl, ◌∙◌, ◌⊎◌, inl, inr, Bool, Bool-cases, true, false,
  List, [], ◌∷◌, arith, ◌==◌, if◌then◌else◌, sym,
}
use a_test.Signals.{
  Handler, sig_dfl, dump_backtrace_handler, sig_alarm_handler, running, Process, Delivery,
  handler_in, sig_alarm, main_dump, handle, deliver_to, deliver, deliver_all, begin, sigabrt,
  sigfpe, sigsegv,
}
use a_test.Signals.Trace.{
  dumps, times, same_signal, own_handler, dump-Dumped_own, Dumped-most, Dumped-count, Life-cases,
  deliver_to-ended, Dumped-same, dump-Dumped_other, Dumped, waits, dumped, ended,
}

module _ (default_ends : ℕ → Bool) (n : ℕ) (ends : default_ends n ≡ true) where
  -- A delivery of the signal itself.
  handle-Dumped_own :
      (k : ℕ) (h : Handler) (d : Delivery) (p : Process)
      → p.status ≡ running
      → handler_in p.handlers d.signum ≡ h
      → (d.signum == n) ≡ true
      → Dumped n k p
      → Dumped n (suc k) (handle default_ends h d p)
  unfolding handle
  handle-Dumped_own k sig_dfl d p run is e h =
      let over : default_ends d.signum ≡ true = ap default_ends (same_signal d.signum n e) ∙ ends in
      rw over (ended (λ r. cc) (Dumped-most n k p h))
  handle-Dumped_own k dump_backtrace_handler d p run is e (waits s w o z) =
      rw z (dump-Dumped_own n d p run e o)
  handle-Dumped_own k dump_backtrace_handler d p run is e (dumped s w o z) =
      absurd (ground (arith, own_handler n d p is w e))
  handle-Dumped_own k sig_alarm_handler d p run is e (waits s w o z) =
      absurd (ground (arith, own_handler n d p is w e))
  handle-Dumped_own k sig_alarm_handler d p run is e (dumped s w o z) =
      absurd (ground (arith, own_handler n d p is w e))
  handle-Dumped_own k h d p run is e (ended s o) = absurd (s run)

  handle-Dumped_other :
      (k : ℕ) (h : Handler) (d : Delivery) (p : Process)
      → (d.signum == n) ≡ false
      → Dumped n k p
      → Dumped n k (handle default_ends h d p)
  unfolding handle sig_alarm
  handle-Dumped_other k sig_dfl d p e h = elim (Bool-cases (default_ends d.signum)) [
    | inl over ↦ rw over (ended (λ r. cc) (Dumped-most n k p h))
    | inr still ↦ rw still h
  ]
  handle-Dumped_other k dump_backtrace_handler d p e h = dump-Dumped_other n k d p e h
  handle-Dumped_other k sig_alarm_handler d p e h = Dumped-same n k p _ refl refl refl h

  deliver-Dumped :
      (k : ℕ) (d : Delivery) (p : Process)
      → Dumped n k p
      → Dumped n (if d.signum == n then suc k else k) (deliver default_ends d p)
  unfolding deliver
  deliver-Dumped k d p h = elim (Life-cases p.status) [
    | inl run ↦
        subst (Dumped n _) (sym (ap (λ s. deliver_to default_ends s d p) run))
          (elim (Bool-cases (d.signum == n)) [
            | inl e ↦ rw e (handle-Dumped_own k _ d p run refl e h)
            | inr e ↦ rw e (handle-Dumped_other k _ d p e h)
          ])
    | inr over ↦
        subst (Dumped n _) (sym (deliver_to-ended default_ends p.status d p over))
          (ended over (Dumped-most n k p h))
  ]

  deliver_all-Dumped :
      (k : ℕ) (ds : List Delivery) (p : Process)
      → Dumped n k p
      → Dumped n (k + times n ds) (deliver_all default_ends ds p)
  unfolding deliver_all
  deliver_all-Dumped k [] p h = subst (λ i. Dumped n i p) (omega arith) h
  deliver_all-Dumped k (d ∷ ds) p h =
      subst (λ i. Dumped n i (deliver_all default_ends ds (deliver default_ends d p)))
        (times_first k d ds)
        (deliver_all-Dumped (if d.signum == n then suc k else k) ds (deliver default_ends d p)
          (deliver-Dumped k d p h))
    where
      times_first :
          (k : ℕ) (d : Delivery) (ds : List Delivery)
          → (if d.signum == n then suc k else k) + times n ds ≡ k + times n (d ∷ ds)
      times_first k d ds = ground arith

-- The signals that main_dump registers.
abbrev pub IsDumped : ℕ → Type 0
IsDumped n = (n ≡ sigsegv) ⊎ (n ≡ sigabrt) ⊎ (n ≡ sigfpe)

main_dump-Dumped : (n pid : ℕ) → IsDumped n → Dumped n 0 (main_dump pid begin)
unfolding main_dump
main_dump-Dumped n pid (inl e) = waits refl (rw e refl) refl refl
main_dump-Dumped n pid (inr (inl e)) = waits refl (rw e refl) refl refl
main_dump-Dumped n pid (inr (inr e)) = waits refl (rw e refl) refl refl

-- After main_dump, whatever signals are delivered and whatever the calls of a stack trace answer, a
-- signal that it registered, and that ends a process by default, begins one stack trace at most; and
-- unless the process has ended, it has begun as many as the signal was delivered, so that the
-- process does not run after the signal was delivered twice.
pub main_dump_once :
    (default_ends : ℕ → Bool) (n pid : ℕ) (ds : List Delivery)
    → default_ends n ≡ true
    → IsDumped n
    → (dumps n (deliver_all default_ends ds (main_dump pid begin)).output ≤ 1)
      × (((deliver_all default_ends ds (main_dump pid begin)).status ≢ running)
          ⊎ (dumps n (deliver_all default_ends ds (main_dump pid begin)).output ≡ times n ds))
main_dump_once default_ends n pid ds ends is =
    let p = deliver_all default_ends ds (main_dump pid begin) in
    let h = deliver_all-Dumped default_ends n ends 0 ds _ (main_dump-Dumped n pid is) in
    (
      Dumped-most n _ _ h,
      elim (Life-cases p.status) [
        | inl run ↦ inr (Dumped-count n _ _ h run ∙ omega arith)
        | inr over ↦ inl over
      ],
    )
