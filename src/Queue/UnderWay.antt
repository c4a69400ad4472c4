-- ===== src/Queue/UnderWay.antt =====
-- What holds while sender and receiver of src/process_interactive.c run at the same time.
use a_test.Base.{
  ap, subst, ℕ, suc, ◌+◌, ◌*◌, ◌<◌, ◌≡◌, refl, sym, ◌∙◌, inl, inr, true, Bool-cases, List, [], ◌∷◌,
  ◌++◌, arith, All, drop, length, length-append,
}
use mathlib.Core.List.{append_assoc}
use a_test.Exchange.{Text, is_end}
use a_test.Queue.{max_text}
use a_test.Queue.Fifo.{up_to_end, has_end}
use a_test.Queue.Together.{
  Running, runs, stops, stop_at, Traffic, Moves, sends, receives, Leads, at_once, then_moves,
  to_send,
}

abbrev pub todo : Traffic → List Text
todo s = s.pending ++ to_send s.sender s.lines

-- The texts that the receiver waits for end with the first one that begins with "end".
abbrev pub Awaits : Running → List Text → Type 0
Awaits runs texts = (up_to_end texts ≡ texts) × (has_end texts ≡ true)
Awaits stops texts = texts ≡ []

-- And what is left of the lines.
abbrev pub Goes : Running → List Text → Type 0
Goes runs lines = has_end lines ≡ true
Goes stops lines = Unit

pub record IsUnderWay (all : List Text) (n : ℕ) (s : Traffic) : Type 0 where
  pub whole : s.printed ++ todo s ≡ all
  pub awaits : Awaits s.receiver (todo s)
  pub goes : Goes s.sender s.lines
  pub short : All (λ line. length line < max_text) (to_send s.sender s.lines)
  pub count : n + 2 * length (to_send s.sender s.lines) + length s.pending ≡ 2 * length all

-- What sending a line leaves to send.
pub to_send_next :
    (line : Text) (rest : List Text)
    → up_to_end (line ∷ rest) ≡ line ∷ to_send (stop_at (is_end line)) rest
to_send_next line rest = elim (Bool-cases (is_end line)) [ inl e ↦ rw e refl | inr e ↦ rw e refl ]

Goes-next :
    (line : Text) (rest : List Text)
    → has_end (line ∷ rest) ≡ true
    → Goes (stop_at (is_end line)) rest
Goes-next line rest h = elim (Bool-cases (is_end line)) [
  | inl e ↦ rw e tt
  | inr e ↦ rw e (rw e at h)
]

Awaits-next :
    (text : Text) (rest : List Text)
    → Awaits runs (text ∷ rest)
    → Awaits (stop_at (is_end text)) rest
Awaits-next text rest h = elim (Bool-cases (is_end text)) [
  | inl e ↦ rw e (sym (ap (drop 1) (rw e at h.0)))
  | inr e ↦ rw e (ap (drop 1) (rw e at h.0), rw e at h.1)
]

-- A line before the rest moves to the end of the queue.
moved :
    (pending : List Text) (line : Text) (later todo : List Text)
    → todo ≡ line ∷ later
    → pending ++ todo ≡ (pending ++ line ∷ []) ++ later
moved pending line later todo e =
    ap (λ l. pending ++ l) e ∙ sym (append_assoc pending (line ∷ []) later)

-- The sender sends its next line first.
pub next_to_send :
    (s : Traffic) (line : Text) (rest : List Text)
    → s.sender ≡ runs
    → s.lines ≡ line ∷ rest
    → to_send s.sender s.lines ≡ line ∷ to_send (stop_at (is_end line)) rest
next_to_send s line rest on some =
    ap (λ r. to_send r s.lines) on ∙ ap up_to_end some ∙ to_send_next line rest

pub still_ends :
    (s : Traffic) (lines : List Text)
    → s.sender ≡ runs
    → s.lines ≡ lines
    → Goes s.sender s.lines
    → has_end lines ≡ true
still_ends s lines on some h = subst (λ l. has_end l ≡ true) some (subst (λ r. Goes r s.lines) on h)

sends-IsUnderWay :
    (all : List Text) (n : ℕ) (s : Traffic) (line : Text) (rest : List Text)
    → s.sender ≡ runs
    → s.lines ≡ line ∷ rest
    → IsUnderWay all n s
    → IsUnderWay all (suc n) (record s {
      lines = rest;
      pending = s.pending ++ line ∷ [];
      sender = stop_at (is_end line);
    })
sends-IsUnderWay all n s line rest on some h =
    let later = to_send (stop_at (is_end line)) rest in
    let split = next_to_send s line rest on some in
    let todo_same = moved s.pending line later (to_send s.sender s.lines) split in
    record {
      whole = ap (λ l. s.printed ++ l) (sym todo_same) ∙ h.whole;
      awaits = subst (Awaits s.receiver) todo_same h.awaits;
      goes = Goes-next line rest (still_ends s (line ∷ rest) on some h.goes);
      short = (subst (All (λ l. length l < max_text)) split h.short).1;
      count = omega (arith, h.count, ap length split, length-append s.pending (line ∷ []));
    }

receives-IsUnderWay :
    (all : List Text) (n : ℕ) (s : Traffic) (text : Text) (rest : List Text)
    → s.receiver ≡ runs
    → s.pending ≡ text ∷ rest
    → IsUnderWay all n s
    → IsUnderWay all (suc n) (record s {
      pending = rest;
      printed = s.printed ++ text ∷ [];
      receiver = stop_at (is_end text);
    })
receives-IsUnderWay all n s text rest on some h =
    let later = to_send s.sender s.lines in
    let first : todo s ≡ text ∷ (rest ++ later) = ap (λ l. l ++ later) some in
    record {
      whole =
          append_assoc s.printed (text ∷ []) (rest ++ later)
          ∙ ap (λ l. s.printed ++ l) (sym first)
          ∙ h.whole;
      awaits =
          Awaits-next text (rest ++ later)
            (subst (Awaits runs) first (subst (λ r. Awaits r (todo s)) on h.awaits));
      goes = h.goes;
      short = h.short;
      count = omega (arith, h.count, ap length some);
    }

Moves-IsUnderWay :
    {capacity n : ℕ} {all : List Text} {s t : Traffic}
    → Moves capacity s t
    → IsUnderWay all n s
    → IsUnderWay all (suc n) t
Moves-IsUnderWay (sends s line rest on some short room) h =
    sends-IsUnderWay _ _ s line rest on some h
Moves-IsUnderWay (receives s text rest on some) h = receives-IsUnderWay _ _ s text rest on some h

pub Leads-IsUnderWay :
    {capacity : ℕ} {all : List Text} {s : Traffic} {n : ℕ} {t : Traffic}
    → IsUnderWay all 0 s
    → Leads capacity s n t
    → IsUnderWay all n t
Leads-IsUnderWay h at_once = h
Leads-IsUnderWay h (then_moves r m) = Moves-IsUnderWay m (Leads-IsUnderWay h r)
