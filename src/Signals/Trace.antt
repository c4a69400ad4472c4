-- ===== src/Signals/Trace.antt =====
-- One stack trace of src/common.c, and what is known of a signal before and after it.
use a_test.Base.{
  ap, ℕ, zero, suc, ◌≤◌, ◌≡◌, ◌≢◌, refl, ◌∙◌, ◌⊎◌, inl, inr, Bool, true, false, List, [], ◌∷◌,
  Option, none, some, arith, ◌==◌, if◌then◌else◌, sym,
}
use a_test.Signals.{
  Handler, sig_dfl, dump_backtrace_handler, Line, on_signal, returned, symbol, Life, running,
  killed, exited, Process, Delivery, handler_in, print, signal, print_symbols, with_strings,
  myfunc3, dump_backtrace, deliver_to,
}

-- How many stack traces of the signal the lines begin.
abbrev pub dumps : ℕ → List Line → ℕ
dumps n [] = 0
dumps n (on_signal m ∷ ls) = let k = dumps n ls in if m == n then suc k else k
dumps n (_ ∷ ls) = dumps n ls

-- How often the signal is delivered.
abbrev pub times : ℕ → List Delivery → ℕ
times n [] = 0
times n (d ∷ ds) = let k = times n ds in if d.signum == n then suc k else k

-- A process that registered dump_backtrace for the signal, and got it `k` times.
pub data Dumped (n k : ℕ) (p : Process) : Type 0 where
  waits :
      p.status ≡ running
      → handler_in p.handlers n ≡ dump_backtrace_handler
      → dumps n p.output ≡ 0
      → k ≡ 0
      → Dumped n k p
  dumped :
      p.status ≡ running
      → handler_in p.handlers n ≡ sig_dfl
      → dumps n p.output ≡ 1
      → k ≡ 1
      → Dumped n k p
  ended : p.status ≢ running → dumps n p.output ≤ 1 → Dumped n k p

pub symbols_output :
    (n j k : ℕ) (s : ℕ → List ℕ) (p : Process)
    → dumps n (print_symbols j k s p).output ≡ dumps n p.output
unfolding print_symbols
symbols_output n j zero s p = refl
symbols_output n j (suc k) s p = symbols_output n (suc j) k s (print (symbol (s j)) p)

pub symbols_status :
    (j k : ℕ) (s : ℕ → List ℕ) (p : Process) → (print_symbols j k s p).status ≡ p.status
unfolding print_symbols
symbols_status j zero s p = refl
symbols_status j (suc k) s p = symbols_status (suc j) k s (print (symbol (s j)) p)

pub symbols_handlers :
    (j k : ℕ) (s : ℕ → List ℕ) (p : Process) → (print_symbols j k s p).handlers ≡ p.handlers
unfolding print_symbols
symbols_handlers j zero s p = refl
symbols_handlers j (suc k) s p = symbols_handlers (suc j) k s (print (symbol (s j)) p)

-- What follows the registration of the default in a trace: the handlers stay, or the process ends.
pub with_strings-cases :
    (n k : ℕ) (strings : Option (ℕ → List ℕ)) (p : Process)
    → (dumps n (with_strings k strings p).output ≡ dumps n p.output)
      × (((with_strings k strings p).status ≢ running)
          ⊎ (((with_strings k strings p).status ≡ p.status)
              × ((with_strings k strings p).handlers ≡ p.handlers)))
unfolding with_strings
with_strings-cases n k none p = (refl, inl (λ e. cc))
with_strings-cases n k (some s) p =
    (symbols_output n 0 k s p, inr (symbols_status 0 k s p, symbols_handlers 0 k s p))

-- The process while the handler prints.
abbrev pub dumping : Delivery → Process → Process
dumping d p = print (returned d.nptrs) (signal d.signum sig_dfl (print (on_signal d.signum) p))

pub same_signal : (m n : ℕ) → (m == n) ≡ true → m ≡ n
same_signal m n e = ground arith

-- The handler of a delivered signal, if the signal is `n`.
pub own_handler :
    (n : ℕ) (d : Delivery) (p : Process) {h g : Handler}
    → handler_in p.handlers d.signum ≡ h
    → handler_in p.handlers n ≡ g
    → (d.signum == n) ≡ true
    → h ≡ g
own_handler n d p is own e = sym is ∙ ap (handler_in p.handlers) (same_signal d.signum n e) ∙ own

pub dump-Dumped_own :
    (n : ℕ) (d : Delivery) (p : Process)
    → p.status ≡ running
    → (d.signum == n) ≡ true
    → dumps n p.output ≡ 0
    → Dumped n 1 (dump_backtrace d p)
unfolding dump_backtrace myfunc3
dump-Dumped_own n d p run e none_yet =
    let (out, rest) = with_strings-cases n d.nptrs d.strings (dumping d p) in
    let one : dumps n (dump_backtrace d p).output ≡ 1 = out ∙ rw (e, none_yet) refl in
    elim rest [
      | inl over ↦ ended over (omega (arith, one))
      | inr (still, kept) ↦
          dumped (still ∙ run) (ap (λ hs. handler_in hs n) kept ∙ rw e refl) one refl
    ]

pub Dumped-most : (n k : ℕ) (p : Process) → Dumped n k p → dumps n p.output ≤ 1
Dumped-most n k p (waits s w o z) = omega (arith, o)
Dumped-most n k p (dumped s w o z) = omega (arith, o)
Dumped-most n k p (ended s o) = o

pub Dumped-count :
    (n k : ℕ) (p : Process) → Dumped n k p → p.status ≡ running → dumps n p.output ≡ k
Dumped-count n k p (waits s w o z) run = o ∙ sym z
Dumped-count n k p (dumped s w o z) run = o ∙ sym z
Dumped-count n k p (ended s o) run = absurd (s run)

pub Life-cases : (s : Life) → (s ≡ running) ⊎ (s ≢ running)
Life-cases running = inl refl
Life-cases (killed n) = inr (λ e. cc)
Life-cases (exited n) = inr (λ e. cc)

pub deliver_to-ended :
    (default_ends : ℕ → Bool) (s : Life) (d : Delivery) (p : Process)
    → s ≢ running
    → deliver_to default_ends s d p ≡ p
deliver_to-ended default_ends running d p over = absurd (over refl)
deliver_to-ended default_ends (killed n) d p over = refl
deliver_to-ended default_ends (exited n) d p over = refl

-- A step that changes nothing of the signal.
pub Dumped-same :
    (n k : ℕ) (p q : Process)
    → dumps n q.output ≡ dumps n p.output
    → q.status ≡ p.status
    → handler_in q.handlers n ≡ handler_in p.handlers n
    → Dumped n k p
    → Dumped n k q
Dumped-same n k p q out st hs (waits s w o z) = waits (st ∙ s) (hs ∙ w) (out ∙ o) z
Dumped-same n k p q out st hs (dumped s w o z) = dumped (st ∙ s) (hs ∙ w) (out ∙ o) z
Dumped-same n k p q out st hs (ended s o) = ended (λ e. s (sym st ∙ e)) (omega (arith, out, o))

pub dump-Dumped_other :
    (n k : ℕ) (d : Delivery) (p : Process)
    → (d.signum == n) ≡ false
    → Dumped n k p
    → Dumped n k (dump_backtrace d p)
unfolding dump_backtrace myfunc3
dump-Dumped_other n k d p e h =
    let (out, rest) = with_strings-cases n d.nptrs d.strings (dumping d p) in
    let same : dumps n (dump_backtrace d p).output ≡ dumps n p.output = out ∙ rw e refl in
    elim rest [
      | inl over ↦ ended over (omega (arith, same, Dumped-most n k p h))
      | inr (still, kept) ↦
          Dumped-same n k p _ same still (ap (λ hs. handler_in hs n) kept ∙ rw e refl) h
    ]
