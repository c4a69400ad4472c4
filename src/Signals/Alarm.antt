-- ===== src/Signals/Alarm.antt =====
-- The handler of src/process_interactive.c under repeated signals.
use a_test.Base.{
  ap, ℕ, suc, ◌≡◌, refl, sym, ◌∙◌, ◌+◌, arith, Bool, List, [], ◌∷◌, All, length, replicate, subst,
}
use a_test.Signals.{
  sig_alarm_handler, received, running, Process, Delivery, handler_in, sig_alarm, sig_handler,
  handle, deliver_to, deliver, deliver_all, begin, sigint,
}

-- The process that catches SIGINT and has printed a line for each of `k` signals.
record Caught (k : ℕ) (p : Process) : Type 0 where
  runs : p.status ≡ running
  catches : handler_in p.handlers sigint ≡ sig_alarm_handler
  printed : p.output ≡ replicate k (received sigint)

deliver-Caught :
    (default_ends : ℕ → Bool) (k : ℕ) (d : Delivery) (p : Process)
    → d.signum ≡ sigint
    → Caught k p
    → Caught (suc k) (deliver default_ends d p)
unfolding deliver handle sig_alarm
deliver-Caught default_ends k d p is h =
    let caught : deliver default_ends d p ≡ sig_alarm d.signum p =
      ap (λ s. deliver_to default_ends s d p) h.runs
      ∙ ap (λ g. handle default_ends g d p) (ap (handler_in p.handlers) is ∙ h.catches) in
    subst (Caught (suc k)) (sym caught) (record {
      runs = h.runs;
      catches = h.catches;
      printed = ap (λ n. received n ∷ p.output) is ∙ ap (◌∷◌ (received sigint)) h.printed;
    })

deliver_all-Caught :
    (default_ends : ℕ → Bool) (k : ℕ) (ds : List Delivery) (p : Process)
    → All (λ d. d.signum ≡ sigint) ds
    → Caught k p
    → Caught (length ds + k) (deliver_all default_ends ds p)
unfolding deliver_all
deliver_all-Caught default_ends k [] p is h = subst (λ i. Caught i p) (omega arith) h
deliver_all-Caught default_ends k (d ∷ ds) p is h =
    subst (λ i. Caught i (deliver_all default_ends ds (deliver default_ends d p))) (omega arith)
      (deliver_all-Caught default_ends (suc k) ds (deliver default_ends d p) is.1
        (deliver-Caught default_ends k d p is.0 h))

-- After the registration of sig_handler the process runs on under any number of interrupts, and
-- prints one line for each: the handler is never set back to the default.
pub sig_handler_stays :
    (default_ends : ℕ → Bool) (ds : List Delivery)
    → All (λ d. d.signum ≡ sigint) ds
    → ((deliver_all default_ends ds (sig_handler begin)).status ≡ running)
      × ((deliver_all default_ends ds (sig_handler begin)).output
          ≡ replicate (length ds) (received sigint))
unfolding sig_handler
sig_handler_stays default_ends ds is =
    let h =
      deliver_all-Caught default_ends 0 ds (sig_handler begin) is
        (record { runs = refl; catches = refl; printed = refl }) in
    (h.runs, h.printed ∙ ap (λ m. replicate m (received sigint)) (omega arith))
