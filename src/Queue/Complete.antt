-- ===== src/Queue/Complete.antt =====
-- How sender and receiver of src/process_interactive.c end when they run at the same time.
use a_test.Base.{
  ap, subst, ℕ, ◌*◌, ◌≤◌, ◌<◌, ◌≡◌, ◌≢◌, refl, sym, ◌∙◌, ◌⊎◌, inl, inr, true, Bool-cases, List, [],
  ◌∷◌, ◌++◌, arith, All, length,
}
use mathlib.Core.List.{append-nil}
use a_test.Exchange.{Text, is_end}
use a_test.Queue.{max_text}
use a_test.Queue.Fifo.{up_to_end, has_end}
use a_test.Queue.Together.{
  Running, runs, stops, Traffic, Moves, sends, receives, Leads, waiting, to_send,
}
use a_test.Queue.UnderWay.{
  todo, Awaits, IsUnderWay, to_send_next, next_to_send, still_ends, Leads-IsUnderWay,
}

up_to_end-twice : (lines : List Text) → up_to_end (up_to_end lines) ≡ up_to_end lines
up_to_end-twice [] = refl
up_to_end-twice (line ∷ lines) = elim (Bool-cases (is_end line)) [
  | inl e ↦ rw e (rw e refl)
  | inr e ↦ rw e (rw e (ap (◌∷◌ line) (up_to_end-twice lines)))
]

has_end-up_to_end : (lines : List Text) → has_end (up_to_end lines) ≡ has_end lines
has_end-up_to_end [] = refl
has_end-up_to_end (line ∷ lines) = elim (Bool-cases (is_end line)) [
  | inl e ↦ rw e (rw e refl)
  | inr e ↦ rw e (rw e (has_end-up_to_end lines))
]

waiting-IsUnderWay :
    (lines : List Text)
    → has_end lines ≡ true
    → All (λ line. length line < max_text) (up_to_end lines)
    → IsUnderWay (up_to_end lines) 0 (waiting lines)
waiting-IsUnderWay lines ends short = record {
  whole = refl;
  awaits = (up_to_end-twice lines, has_end-up_to_end lines ∙ ends);
  goes = ends;
  short = short;
  count = omega arith;
}

Running-cases : (r : Running) → (r ≡ runs) ⊎ (r ≡ stops)
Running-cases runs = inl refl
Running-cases stops = inr refl

List-cases : (xs : List Text) → (xs ≡ []) ⊎ ((x : Text) × (rest : List Text) × (xs ≡ x ∷ rest))
List-cases [] = inl refl
List-cases (x ∷ rest) = inr (x, rest, refl)

some_line : (lines : List Text) → has_end lines ≡ true → up_to_end lines ≢ []
some_line [] h = λ e. cc
some_line (line ∷ lines) h =
    λ e. absurd (ground (arith, ap length (sym (to_send_next line lines) ∙ e)))

no_end : has_end [] ≢ true
no_end e = cc

-- Where the receiver has ended, the sender has ended and everything is printed.
all_printed :
    (n : ℕ) (all : List Text) (s : Traffic)
    → s.receiver ≡ stops
    → IsUnderWay all n s
    → (s.sender ≡ stops) × (s.printed ≡ all)
all_printed n all s off h =
    let nothing : todo s ≡ [] = subst (λ r. Awaits r (todo s)) off h.awaits in
    elim (Running-cases s.sender) [
      | inl going ↦ absurd (
          some_line s.lines (still_ends s s.lines going refl h.goes)
            (ap (λ r. to_send r s.lines) (sym going) ∙ behind s.pending _ nothing))
      | inr gone ↦
          (gone, sym (append-nil s.printed) ∙ ap (λ l. s.printed ++ l) (sym nothing) ∙ h.whole)
    ]
  where
    behind : (xs ys : List Text) → xs ++ ys ≡ [] → ys ≡ []
    behind [] ys e = e
    behind (x ∷ xs) ys e = cc

-- Where the receiver has not ended, one of the two processes can go on.
goes_on :
    (capacity n : ℕ) (all : List Text) (s : Traffic)
    → 1 ≤ capacity
    → s.receiver ≡ runs
    → IsUnderWay all n s
    → (t : Traffic) × Moves capacity s t
goes_on capacity n all s room on h = elim (List-cases s.pending) [
  | inr (text, rest, some) ↦ (_, receives s text rest on some)
  | inl empty ↦ elim (Running-cases s.sender) [
    | inl going ↦ elim (List-cases s.lines) [
      | inr (line, rest, some) ↦ (
        _,
        sends s line rest going some
            (subst (All (λ l. length l < max_text)) (next_to_send s line rest going some) h.short).0
            (omega (arith, ap length empty, room)),
      )
      | inl none_left ↦ absurd (no_end (still_ends s [] going none_left h.goes))
    ]
    | inr gone ↦
        let nothing : todo s ≡ [] =
          ap (λ l. l ++ to_send s.sender s.lines) empty ∙ ap (λ r. to_send r s.lines) gone in
        absurd (
          no_end
            (subst (λ l. has_end l ≡ true) nothing (subst (λ r. Awaits r (todo s)) on h.awaits).1))
  ]
]

-- Sender and receiver at the same time, over a queue with room for one message or more, with a line
-- that begins with "end" and no line up to it longer than 511 bytes: in every state that is reached,
-- either both have ended and exactly the lines up to that one were printed, in their order, or one
-- of the two can go on; and no run has more than two rounds for each of these lines.
pub msgqueue-Together :
    (capacity n : ℕ) (lines : List Text) (s : Traffic)
    → 1 ≤ capacity
    → has_end lines ≡ true
    → All (λ line. length line < max_text) (up_to_end lines)
    → Leads capacity (waiting lines) n s
    → (((s.sender ≡ stops) × (s.receiver ≡ stops) × (s.printed ≡ up_to_end lines))
        ⊎ ((t : Traffic) × Moves capacity s t))
      × (n ≤ 2 * length (up_to_end lines))
msgqueue-Together capacity n lines s room ends short r =
    let h = Leads-IsUnderWay (waiting-IsUnderWay lines ends short) r in
    (
      elim (Running-cases s.receiver) [
        | inl on ↦ inr (goes_on capacity n (up_to_end lines) s room on h)
        | inr off ↦
            let (gone, whole) = all_printed n (up_to_end lines) s off h in inl (gone, off, whole)
      ],
      omega (arith, h.count),
    )
