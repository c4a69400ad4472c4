-- ===== src/Exchange/Agreement.antt =====
-- How what was entered and what was printed agree at each pair of places of `producer` and
-- `customer` of src/process_interactive.c.
use mathlib.Core.List.{}
use a_test.Base.{◌≡◌, refl, sym, ap, ◌∙◌, Bool, true, false, List, [], ◌∷◌, ◌++◌, map}
use a_test.Exchange.{
  Text, cut, Producer, waiting, entering, ended, copying, flagging, Customer, starting, polling,
  printing, resetting, checking, stopped, overrun, System, next_producer, next_customer,
}

-- The customer has nothing to take.
abbrev Between : Customer → Type 0
Between polling = Unit {0}
Between checking = Unit {0}
Between stopped = Unit {0}
Between _ = ⊥

-- The flag is up: the text is the one that is still to be printed, or was printed just now.
abbrev pub Full : Customer → List Text → List Text → Text → Type 0
Full starting e p text = ⊥
Full resetting e p text = e ≡ p
Full polling e p text = e ≡ p ++ text ∷ []
Full printing e p text = e ≡ p ++ text ∷ []
Full checking e p text = e ≡ p ++ text ∷ []
Full stopped e p text = e ≡ p ++ text ∷ []
Full overrun e p text = e ≡ p ++ text ∷ []

-- How the entered texts `e` and the printed ones `p` agree.
abbrev pub Agrees : Producer → Bool → Customer → List Text → List Text → Text → Type 0
Agrees waiting false c e p text = Between c × (e ≡ p)
Agrees waiting true c e p text = Full c e p text
Agrees ended false c e p text = Between c × (e ≡ p)
Agrees ended true c e p text = Full c e p text
Agrees entering false c e p text = Between c × (e ≡ p)
Agrees entering true c e p text = ⊥
Agrees (copying line) false c e p text = Between c × (e ≡ p ++ cut line ∷ [])
Agrees (copying line) true c e p text = ⊥
Agrees (flagging line) false c e p text = Between c × (e ≡ p ++ cut line ∷ []) × (text ≡ cut line)
Agrees (flagging line) true c e p text = ⊥

abbrev pub IsSettled : System → Type 0
IsSettled s =
    Agrees s.producer s.written_by_you s.customer (map cut s.entered) s.printed s.some_text

pub printing-Agrees :
    (p : Producer) (f : Bool) (e r : List Text) (t : Text)
    → Agrees p f printing e r t
    → Agrees p f resetting e (r ++ t ∷ []) t
printing-Agrees waiting false e r t h = absurd h.0
printing-Agrees waiting true e r t h = h
printing-Agrees ended false e r t h = absurd h.0
printing-Agrees ended true e r t h = h
printing-Agrees entering false e r t h = absurd h.0
printing-Agrees entering true e r t h = absurd h
printing-Agrees (copying line) false e r t h = absurd h.0
printing-Agrees (copying line) true e r t h = absurd h
printing-Agrees (flagging line) false e r t h = absurd h.0
printing-Agrees (flagging line) true e r t h = absurd h

pub overrun-Agrees :
    (p : Producer) (f : Bool) (e r : List Text) (t : Text)
    → Agrees p f printing e r t
    → Agrees p f overrun e r t
overrun-Agrees waiting false e r t h = absurd h.0
overrun-Agrees waiting true e r t h = h
overrun-Agrees ended false e r t h = absurd h.0
overrun-Agrees ended true e r t h = h
overrun-Agrees entering false e r t h = absurd h.0
overrun-Agrees entering true e r t h = absurd h
overrun-Agrees (copying line) false e r t h = absurd h.0
overrun-Agrees (copying line) true e r t h = absurd h
overrun-Agrees (flagging line) false e r t h = absurd h.0
overrun-Agrees (flagging line) true e r t h = absurd h

pub resetting-Agrees :
    (p : Producer) (f : Bool) (e r : List Text) (t : Text)
    → Agrees p f resetting e r t
    → Agrees p false checking e r t
resetting-Agrees waiting false e r t h = absurd h.0
resetting-Agrees waiting true e r t h = (tt, h)
resetting-Agrees ended false e r t h = absurd h.0
resetting-Agrees ended true e r t h = (tt, h)
resetting-Agrees entering false e r t h = absurd h.0
resetting-Agrees entering true e r t h = absurd h
resetting-Agrees (copying line) false e r t h = absurd h.0
resetting-Agrees (copying line) true e r t h = absurd h
resetting-Agrees (flagging line) false e r t h = absurd h.0
resetting-Agrees (flagging line) true e r t h = absurd h

pub starting-Agrees :
    (p : Producer) (f : Bool) (e r : List Text) (t : Text) → Agrees p f starting e r t → ⊥
starting-Agrees waiting false e r t h = absurd h.0
starting-Agrees waiting true e r t h = h
starting-Agrees ended false e r t h = absurd h.0
starting-Agrees ended true e r t h = h
starting-Agrees entering false e r t h = absurd h.0
starting-Agrees entering true e r t h = absurd h
starting-Agrees (copying line) false e r t h = absurd h.0
starting-Agrees (copying line) true e r t h = absurd h
starting-Agrees (flagging line) false e r t h = absurd h.0
starting-Agrees (flagging line) true e r t h = absurd h

stopped-Agrees :
    (p : Producer) (f : Bool) (e r : List Text) (t : Text)
    → Agrees p f checking e r t
    → Agrees p f stopped e r t
stopped-Agrees waiting false e r t h = h
stopped-Agrees waiting true e r t h = h
stopped-Agrees ended false e r t h = h
stopped-Agrees ended true e r t h = h
stopped-Agrees entering false e r t h = h
stopped-Agrees entering true e r t h = absurd h
stopped-Agrees (copying line) false e r t h = h
stopped-Agrees (copying line) true e r t h = absurd h
stopped-Agrees (flagging line) false e r t h = h
stopped-Agrees (flagging line) true e r t h = absurd h

polling-Agrees :
    (p : Producer) (f : Bool) (e r : List Text) (t : Text)
    → Agrees p f checking e r t
    → Agrees p f polling e r t
polling-Agrees waiting false e r t h = h
polling-Agrees waiting true e r t h = h
polling-Agrees ended false e r t h = h
polling-Agrees ended true e r t h = h
polling-Agrees entering false e r t h = h
polling-Agrees entering true e r t h = absurd h
polling-Agrees (copying line) false e r t h = h
polling-Agrees (copying line) true e r t h = absurd h
polling-Agrees (flagging line) false e r t h = h
polling-Agrees (flagging line) true e r t h = absurd h

pub polling_true-Agrees :
    (p : Producer) (e r : List Text) (t : Text)
    → Agrees p true polling e r t
    → Agrees p true printing e r t
polling_true-Agrees waiting e r t h = h
polling_true-Agrees ended e r t h = h
polling_true-Agrees entering e r t h = h
polling_true-Agrees (copying line) e r t h = h
polling_true-Agrees (flagging line) e r t h = h

pub entering-Agrees :
    (f : Bool) (c : Customer) (e r : List Text) (t line : Text)
    → Agrees entering f c e r t
    → Agrees (copying line) f c (e ++ cut line ∷ []) r t
entering-Agrees false c e r t line h = (h.0, ap (λ (l : List Text). l ++ cut line ∷ []) h.1)
entering-Agrees true c e r t line h = absurd h

pub copying-Agrees :
    (f : Bool) (c : Customer) (e r : List Text) (t line : Text)
    → Agrees (copying line) f c e r t
    → Agrees (flagging line) f c e r (cut line)
copying-Agrees false c e r t line h = (h.0, h.1, refl)
copying-Agrees true c e r t line h = absurd h

raised :
    (c : Customer) (e r : List Text) (t line : Text) (last : Bool)
    → Agrees (flagging line) false c e r t
    → Full c e r t
    → Agrees (next_producer last) true c e r t
unfolding next_producer
raised c e r t line true h full = full
raised c e r t line false h full = full

Between-Full :
    (c : Customer) (e r : List Text) (t : Text) → Between c → e ≡ r ++ t ∷ [] → Full c e r t
Between-Full polling e r t b h = h
Between-Full checking e r t b h = h
Between-Full stopped e r t b h = h
Between-Full starting e r t b h = absurd b
Between-Full printing e r t b h = absurd b
Between-Full resetting e r t b h = absurd b
Between-Full overrun e r t b h = absurd b

pub flagging-Agrees :
    (f : Bool) (c : Customer) (e r : List Text) (t line : Text) (last : Bool)
    → Agrees (flagging line) f c e r t
    → Agrees (next_producer last) true c e r t
flagging-Agrees false c e r t line last h =
    raised c e r t line last h
      (Between-Full c e r t h.0 (h.1 ∙ ap (λ (x : Text). r ++ x ∷ []) (sym h.2)))
flagging-Agrees true c e r t line last h = absurd h

pub checking-Agrees :
    (p : Producer) (f last : Bool) (e r : List Text) (t : Text)
    → Agrees p f checking e r t
    → Agrees p f (next_customer last) e r t
unfolding next_customer
checking-Agrees p f true e r t h = stopped-Agrees p f e r t h
checking-Agrees p f false e r t h = polling-Agrees p f e r t h
