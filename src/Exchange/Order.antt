-- ===== src/Exchange/Order.antt =====
-- Which texts the customer of src/process_interactive.c prints.
use mathlib.Core.List.{map-append}
use a_test.Base.{◌≡◌, refl, ◌⊎◌, inl, inr, Bool, true, false, List, [], ◌∷◌, ◌++◌, map}
use a_test.Exchange.{
  Text, is_end, cut, Producer, waiting, entering, ended, copying, flagging, Customer, starting,
  polling, printing, resetting, checking, stopped, overrun, System, Step, waits, goes_on, enters,
  copies, flags, starts, polls, sees, prints, overruns, resets, checks, Reach, here, next,
}
use a_test.Exchange.Agreement.{
  Full, Agrees, IsSettled, printing-Agrees, overrun-Agrees, resetting-Agrees, starting-Agrees,
  polling_true-Agrees, entering-Agrees, copying-Agrees, flagging-Agrees, checking-Agrees,
}

Step-IsSettled : {s t : System} → Step s t → IsSettled s → IsSettled t
Step-IsSettled (waits s p f) h = h
Step-IsSettled (goes_on s p f) h =
    let h' : Agrees waiting false s.customer (map cut s.entered) s.printed s.some_text =
      rw (p, f) at h in
    rw f h'
Step-IsSettled (enters s line p) h = rw (map-append) (
    entering-Agrees s.written_by_you s.customer (map cut s.entered) s.printed s.some_text line
      (rw p at h))
Step-IsSettled (copies s line p) h =
    copying-Agrees s.written_by_you s.customer (map cut s.entered) s.printed s.some_text line
      (rw p at h)
Step-IsSettled (flags s line p) h =
    flagging-Agrees s.written_by_you s.customer (map cut s.entered) s.printed s.some_text line
      (is_end line) (rw p at h)
Step-IsSettled (starts s c) h = absurd (
    starting-Agrees s.producer s.written_by_you (map cut s.entered) s.printed s.some_text
      (rw c at h))
Step-IsSettled (polls s c f) h = h
Step-IsSettled (sees s c f) h =
    rw f (polling_true-Agrees s.producer (map cut s.entered) s.printed s.some_text (rw (c, f) at h))
Step-IsSettled (prints s c l) h =
    printing-Agrees s.producer s.written_by_you (map cut s.entered) s.printed s.some_text
      (rw c at h)
Step-IsSettled (overruns s c l) h =
    overrun-Agrees s.producer s.written_by_you (map cut s.entered) s.printed s.some_text (rw c at h)
Step-IsSettled (resets s c) h =
    resetting-Agrees s.producer s.written_by_you (map cut s.entered) s.printed s.some_text
      (rw c at h)
Step-IsSettled (checks s c) h =
    checking-Agrees s.producer s.written_by_you (is_end s.some_text) (map cut s.entered) s.printed
      s.some_text (rw c at h)

Reach-IsSettled : {s t : System} → IsSettled s → Reach s t → IsSettled t
Reach-IsSettled h here = h
Reach-IsSettled h (next r step) = Step-IsSettled step (Reach-IsSettled h r)

-- Both processes run, the customer has reset the flag, and nothing was entered yet.
pub record IsStart (s : System) : Type 0 where
  pub no_line : s.entered ≡ []
  pub no_output : s.printed ≡ []
  pub flag_down : s.written_by_you ≡ false
  pub producer_waits : s.producer ≡ waiting
  pub customer_polls : s.customer ≡ polling
  pub no_end : is_end s.some_text ≡ false

start-IsSettled : (s : System) → IsStart s → IsSettled s
start-IsSettled s h =
    rw (h.producer_waits, h.flag_down, h.customer_polls, h.no_line, h.no_output) (tt, refl)

-- The entered texts are the printed ones, or one more.
abbrev IsOrdered : List Text → List Text → Type 0
IsOrdered e r = (e ≡ r) ⊎ ((last : Text) × (e ≡ r ++ last ∷ []))

Full-IsOrdered : (c : Customer) (e r : List Text) (t : Text) → Full c e r t → IsOrdered e r
Full-IsOrdered starting e r t h = absurd h
Full-IsOrdered resetting e r t h = inl h
Full-IsOrdered polling e r t h = inr (t, h)
Full-IsOrdered printing e r t h = inr (t, h)
Full-IsOrdered checking e r t h = inr (t, h)
Full-IsOrdered stopped e r t h = inr (t, h)
Full-IsOrdered overrun e r t h = inr (t, h)

Agrees-IsOrdered :
    (p : Producer) (f : Bool) (c : Customer) (e r : List Text) (t : Text)
    → Agrees p f c e r t
    → IsOrdered e r
Agrees-IsOrdered waiting false c e r t h = inl h.1
Agrees-IsOrdered waiting true c e r t h = Full-IsOrdered c e r t h
Agrees-IsOrdered ended false c e r t h = inl h.1
Agrees-IsOrdered ended true c e r t h = Full-IsOrdered c e r t h
Agrees-IsOrdered entering false c e r t h = inl h.1
Agrees-IsOrdered entering true c e r t h = absurd h
Agrees-IsOrdered (copying line) false c e r t h = inr (cut line, h.1)
Agrees-IsOrdered (copying line) true c e r t h = absurd h
Agrees-IsOrdered (flagging line) false c e r t h = inr (cut line, h.1)
Agrees-IsOrdered (flagging line) true c e r t h = absurd h

-- Once both processes run and the customer has reset the flag, however their statements interleave,
-- the customer prints the entered lines, cut to 2048 bytes, in their order, each once and none
-- changed, and is at most one of them behind.
pub Reach-IsOrdered :
    {s t : System}
    → IsStart s
    → Reach s t
    → (map cut t.entered ≡ t.printed)
      ⊎ ((last : Text) × (map cut t.entered ≡ t.printed ++ last ∷ []))
Reach-IsOrdered {s} {t} start r =
    Agrees-IsOrdered t.producer t.written_by_you t.customer (map cut t.entered) t.printed
      t.some_text (Reach-IsSettled (start-IsSettled s start) r)
