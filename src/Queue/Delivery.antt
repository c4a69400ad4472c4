-- ===== src/Queue/Delivery.antt =====
-- What the receiver of src/process_interactive.c prints after the sender's run.
use a_test.Base.{
  ℕ, zero, suc, ◌+◌, ◌≤◌, ◌<◌, ◌≡◌, refl, sym, ap, ◌∙◌, true, false, Bool-cases, inl, inr, List, [],
  ◌∷◌, ◌++◌, map, some, arith, All, length, lt→ltb,
}
use mathlib.Core.List.{append_assoc}
use a_test.Memory.{ok}
use a_test.System.{exits}
use a_test.Exchange.{Text, is_end}
use a_test.Queue.Fifo.{
  message, IsFifo, up_to_end, has_end, length-append_one, up_to_end-last, up_to_end-next,
  has_end-next,
}
use a_test.Queue.{
  max_text, arrived, Ipc, print_first, send_lines, msgqueue_send, receive, msgqueue_recv,
}

-- One round of each loop.
module _ (ipc : Ipc) where
  send_last :
      (line : Text) (lines : List Text) (s t : ipc.State)
      → length line < max_text
      → is_end line ≡ true
      → ipc.msgsnd s (message line) ≡ some t
      → send_lines ipc (line ∷ lines) s ≡ ok (exits 0, t)
  unfolding send_lines
  send_last line lines s t short last sent =
      let fits = lt→ltb (length line) max_text short in rw (fits, sent, last) refl

  send_next :
      (line : Text) (lines : List Text) (s t : ipc.State)
      → length line < max_text
      → is_end line ≡ false
      → ipc.msgsnd s (message line) ≡ some t
      → send_lines ipc (line ∷ lines) s ≡ send_lines ipc lines t
  unfolding send_lines
  send_next line lines s t short more sent =
      let fits = lt→ltb (length line) max_text short in rw (fits, sent, more) refl

  receive_last :
      (line : Text) (fuel : ℕ) (s t u : ipc.State)
      → is_end line ≡ true
      → ipc.msgrcv s ≡ arrived (message line) t
      → ipc.msgctl_rmid t ≡ some u
      → receive ipc (suc fuel) s ≡ (line ∷ [], exits 0, u)
  unfolding receive
  receive_last line fuel s t u last came gone = rw (came, last, gone) refl

  receive_next :
      (line : Text) (fuel : ℕ) (s t : ipc.State)
      → is_end line ≡ false
      → ipc.msgrcv s ≡ arrived (message line) t
      → receive ipc (suc fuel) s ≡ print_first ipc line (receive ipc fuel t)
  unfolding receive
  receive_next line fuel s t more came = rw (came, more) refl

module _ (ipc : Ipc) (capacity : ℕ) (fifo : IsFifo ipc capacity) where
  send_lines_lem :
      (lines : List Text) (s : ipc.State)
      → fifo.is_there s ≡ true
      → has_end lines ≡ true
      → All (λ line. length line < max_text) (up_to_end lines)
      → length (fifo.pending s) + length (up_to_end lines) ≤ capacity
      → (t : ipc.State) × (send_lines ipc lines s ≡ ok (exits 0, t))
        × (fifo.is_there t ≡ true)
        × (fifo.pending t ≡ fifo.pending s ++ map message (up_to_end lines))
  send_lines_lem [] s there ends short room = cc
  send_lines_lem (line ∷ lines) s there ends short room = elim (Bool-cases (is_end line)) [
    | inl last ↦
        let cut = up_to_end-last line lines last in
        let fits : All (λ l. length l < max_text) (line ∷ []) = rw cut at short in
        let one : length (up_to_end (line ∷ lines)) ≡ 1 = ap length cut in
        let (t, sent, there', p) =
          fifo.send_lem s (message line) there (omega (arith, one, room)) in
        (
          t,
          send_last ipc line lines s t fits.0 last sent,
          there',
          p ∙ ap (λ l. fifo.pending s ++ map message l) (sym cut),
        )
    | inr more ↦
        let cut = up_to_end-next line lines more in
        let fits : All (λ l. length l < max_text) (line ∷ up_to_end lines) = rw cut at short in
        let one : length (up_to_end (line ∷ lines)) ≡ suc (length (up_to_end lines)) =
          ap length cut in
        let (t, sent, there', p) =
          fifo.send_lem s (message line) there (omega (arith, one, room)) in
        let n : length (fifo.pending t) ≡ suc (length (fifo.pending s)) =
          ap length p ∙ length-append_one (fifo.pending s) (message line) in
        let (u, rest, gone_on, q) =
          send_lines_lem lines t there' (has_end-next line lines more ends) fits.1
            (omega (arith, n, one, room)) in
        let later = map message (up_to_end lines) in
        let all =
          q ∙ ap (λ ms. ms ++ later) p ∙ append_assoc (fifo.pending s) (message line ∷ []) later in
        (
          u,
          send_next ipc line lines s t fits.0 more sent ∙ rest,
          gone_on,
          all ∙ ap (λ l. fifo.pending s ++ map message l) (sym cut),
        )
  ]

  receive_lem :
      (lines : List Text) (fuel : ℕ) (s : ipc.State)
      → fifo.is_there s ≡ true
      → has_end lines ≡ true
      → fifo.pending s ≡ map message (up_to_end lines)
      → length (up_to_end lines) ≤ fuel
      → (t : ipc.State) × (receive ipc fuel s ≡ (up_to_end lines, exits 0, t))
        × (fifo.is_there t ≡ false)
  receive_lem [] fuel s there ends held enough = cc
  receive_lem (line ∷ lines) zero s there ends held enough = elim (Bool-cases (is_end line)) [
    | inl last ↦ absurd (omega (arith, enough, ap length (up_to_end-last line lines last)))
    | inr more ↦ absurd (omega (arith, enough, ap length (up_to_end-next line lines more)))
  ]
  receive_lem (line ∷ lines) (suc fuel) s there ends held enough = elim (Bool-cases (is_end line)) [
    | inl last ↦
        let cut = up_to_end-last line lines last in
        let (t, came, there', p) =
          fifo.receive_lem s (message line) [] there (held ∙ ap (map message) cut) in
        let (u, gone, away) = fifo.remove_lem t there' in
        (
          u,
          receive_last ipc line fuel s t u last came gone ∙ ap (λ l. (l, exits 0, u)) (sym cut),
          away,
        )
    | inr more ↦
        let cut = up_to_end-next line lines more in
        let (t, came, there', p) =
          fifo.receive_lem s (message line) (map message (up_to_end lines)) there
            (held ∙ ap (map message) cut) in
        let (u, done, away) =
          receive_lem lines fuel t there' (has_end-next line lines more ends) p
            (omega (arith, enough, ap length cut)) in
        (
          u,
          receive_next ipc line fuel s t more came
              ∙ ap (print_first ipc line) done
              ∙ ap (λ l. (l, exits 0, u)) (sym cut),
          away,
        )
  ]

  -- Let the calls keep the messages in order, no message be held, and one of the lines begin with
  -- "end". If no line up to that one is longer than 511 bytes and the queue has room for
  -- them all, the sender exits with 0, and a receiver that runs after it prints exactly these lines,
  -- the last one included, in their order, exits with 0, and
  -- leaves no queue behind.
  pub msgqueue-Delivers :
      (lines : List Text) (fuel : ℕ) (s : ipc.State)
      → fifo.pending s ≡ []
      → has_end lines ≡ true
      → All (λ line. length line < max_text) (up_to_end lines)
      → length (up_to_end lines) ≤ capacity
      → length (up_to_end lines) ≤ fuel
      → (t : ipc.State) × (u : ipc.State) × (msgqueue_send ipc lines s ≡ ok (exits 0, t))
        × (fifo.is_there t ≡ true)
        × (msgqueue_recv ipc fuel t ≡ (up_to_end lines, exits 0, u))
        × (fifo.is_there u ≡ false)
  unfolding msgqueue_send msgqueue_recv
  msgqueue-Delivers lines fuel s none_held ends short room enough =
      let (s₁, got, there, p) = fifo.get_lem s in
      let empty : fifo.pending s₁ ≡ [] = p ∙ none_held in
      let free : length (fifo.pending s₁) ≡ 0 = ap length empty in
      let (t, sent, left, held) =
        send_lines_lem lines s₁ there ends short (omega (arith, free, room)) in
      let (t₁, got', there', p') = fifo.get_lem t in
      let all : fifo.pending t₁ ≡ map message (up_to_end lines) = p' ∙ held ∙ rw empty refl in
      let (u, done, away) = receive_lem lines fuel t₁ there' ends all enough in
      (t, u, rw got sent, left, rw got' done, away)
