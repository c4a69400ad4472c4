-- ===== src/Signals.antt =====
-- Signals: main_dump, dump_backtrace and myfunc3 of src/common.c, and sig_handler and sig_alarm of
-- src/process_interactive.c. A signal that is delivered comes with what backtrace and
-- backtrace_symbols answer then; whether a signal without a handler ends the process is an argument.
pub mod Trace
pub mod Dumps
pub mod Alarm
mod Tests
use a_test.Base.{
  ℕ, zero, suc, Bool, true, false, List, [], ◌∷◌, ◌++◌, Option, none, some, ◌==◌, if◌then◌else◌,
}

abbrev pub sigint : ℕ
sigint = 2

abbrev pub sigabrt : ℕ
sigabrt = 6

abbrev pub sigfpe : ℕ
sigfpe = 8

abbrev pub sigsegv : ℕ
sigsegv = 11

-- SIG_DFL, and the functions that are registered.
pub data Handler : Type 0 where
  sig_dfl dump_backtrace_handler sig_alarm_handler : Handler

-- What is printed. `symbol` is one line of strings[j].
pub data Line : Type 0 where
  pid_line : ℕ → Line
  on_signal : ℕ → Line
  returned : ℕ → Line
  symbol : List ℕ → Line
  symbols_error : Line
  received : ℕ → Line

pub data Life : Type 0 where
  running : Life
  killed exited : ℕ → Life

-- The newest registration and the newest line come first; a signal that was never registered has
-- its default.
pub record Process : Type 0 where
  pub handlers : List (ℕ × Handler)
  pub output : List Line
  pub status : Life

-- A delivery: the signal, nptrs, and the strings or NULL.
pub record Delivery : Type 0 where
  pub signum : ℕ
  pub nptrs : ℕ
  pub strings : Option (ℕ → List ℕ)

abbrev pub handler_in : List (ℕ × Handler) → ℕ → Handler
handler_in [] n = sig_dfl
handler_in ((m, h) ∷ hs) n = let rest = handler_in hs n in if m == n then h else rest

abbrev pub print : Line → Process → Process
print l p = record p { output = l ∷ p.output }

-- signal(signum, handler)
abbrev pub signal : ℕ → Handler → Process → Process
signal n h p = record p { handlers = (n, h) ∷ p.handlers }

-- The loop over strings[j], from `j` on.
unfoldable pub print_symbols : ℕ → ℕ → (ℕ → List ℕ) → Process → Process
print_symbols j zero strings p = p
print_symbols j (suc k) strings p = print_symbols (suc j) k strings (print (symbol (strings j)) p)

-- What myfunc3 does with the result of backtrace_symbols.
unfoldable pub with_strings : ℕ → Option (ℕ → List ℕ) → Process → Process
with_strings nptrs none p = record (print symbols_error p) { status = exited 1 }
with_strings nptrs (some strings) p = print_symbols 0 nptrs strings p

unfoldable pub myfunc3 : Delivery → Process → Process
unfolding with_strings
myfunc3 d p = with_strings d.nptrs d.strings (print (returned d.nptrs) p)

unfoldable pub dump_backtrace : Delivery → Process → Process
unfolding myfunc3
dump_backtrace d p = myfunc3 d (signal d.signum sig_dfl (print (on_signal d.signum) p))

unfoldable pub sig_alarm : ℕ → Process → Process
sig_alarm sig p = print (received sig) p

-- The three registrations; the process ID is an argument.
unfoldable pub main_dump : ℕ → Process → Process
main_dump pid p = signal sigfpe dump_backtrace_handler (
    signal sigabrt dump_backtrace_handler
      (signal sigsegv dump_backtrace_handler (print (pid_line pid) p)))

-- The registration; the loop behind it sleeps for ever, and signals are delivered in it.
unfoldable pub sig_handler : Process → Process
sig_handler p = signal sigint sig_alarm_handler p

module _ (default_ends : ℕ → Bool) where
  -- What the handler of the signal does.
  unfoldable pub handle : Handler → Delivery → Process → Process
  handle sig_dfl d p = if default_ends d.signum then record p { status = killed d.signum } else p
  handle dump_backtrace_handler d p = dump_backtrace d p
  handle sig_alarm_handler d p = sig_alarm d.signum p

  abbrev pub deliver_to : Life → Delivery → Process → Process
  deliver_to running d p = handle (handler_in p.handlers d.signum) d p
  deliver_to (killed n) d p = p
  deliver_to (exited n) d p = p

  -- A process that has ended gets no signal.
  unfoldable pub deliver : Delivery → Process → Process
  deliver d p = deliver_to p.status d p

  unfoldable pub deliver_all : List Delivery → Process → Process
  deliver_all [] p = p
  deliver_all (d ∷ ds) p = deliver_all ds (deliver d p)

abbrev pub begin : Process
begin = record { handlers = []; output = []; status = running }
