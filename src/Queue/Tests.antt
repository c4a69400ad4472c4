-- ===== src/Queue/Tests.antt =====
-- The message queue of src/process_interactive.c with a concrete queue.
use a_test.Base.{
  ◌⊎◌, ◌≤◌, ◌*◌, length, ◌≡◌, refl, Bool, true, false, List, [], ◌∷◌, ◌++◌, some, arith,
}
use a_test.Memory.{ok}
use a_test.System.{exits}
use a_test.Exchange.{Text, is_end}
use a_test.Queue.{MyMsg, Arrival, arrived, blocked, Ipc, msgqueue_send, msgqueue_recv}
use a_test.Queue.Together.{
  stops, stop_at, Traffic, Moves, sends, receives, Leads, at_once, then_moves, waiting,
}
use a_test.Queue.Complete.{msgqueue-Together}
use a_test.Queue.Delivery.{msgqueue-Delivers}
use a_test.Queue.Fifo.{IsFifo, up_to_end, has_end}

abbrev receive_first : Bool → List MyMsg → Arrival (Bool × List MyMsg)
receive_first there [] = blocked
receive_first there (m ∷ ms) = arrived m (there, ms)

-- One queue that is never full, and whether it is there.
abbrev QueueState : Type 0
QueueState = Bool × List MyMsg

abbrev one_queue : Ipc
one_queue = record {
  State = QueueState;
  msgget = λ (there, ms). some (true, ms);
  msgsnd = λ (there, ms) m. some (there, ms ++ m ∷ []);
  msgrcv = λ (there, ms). receive_first there ms;
  msgctl_rmid = λ (there, ms). some (false, []);
}

abbrev one_queue-IsFifo : IsFifo one_queue 32
one_queue-IsFifo = record {
  is_there = λ (there, ms). there;
  pending = λ (there, ms). ms;
  get_lem = λ (there, ms). ((true, ms), refl, refl, refl);
  send_lem = λ (there, ms) m at lt. ((there, ms ++ m ∷ []), refl, at, refl);
  receive_lem = λ (there, held) m ms at e. ((there, ms), rw e refl, at, refl);
  remove_lem = λ s at. ((false, []), refl, refl);
}

-- "hi\n", "end\n" and "no\n"
abbrev entered : List Text
entered = (104 ∷ 105 ∷ 10 ∷ []) ∷ (101 ∷ 110 ∷ 100 ∷ 10 ∷ []) ∷ (110 ∷ 111 ∷ 10 ∷ []) ∷ []

-- No queue is there.
abbrev none_pending : QueueState
none_pending = (false, [])

entered_ends : has_end entered ≡ true
unfolding is_end
entered_ends = refl

msgqueue-Delivers_example :
    (t : QueueState) × (u : QueueState) × (msgqueue_send one_queue entered none_pending
      ≡ ok (exits 0, t))
    × (one_queue-IsFifo.is_there t ≡ true)
    × (msgqueue_recv one_queue 5 t ≡ (up_to_end entered, exits 0, u))
    × (one_queue-IsFifo.is_there u ≡ false)
unfolding is_end
msgqueue-Delivers_example =
    msgqueue-Delivers one_queue 32 one_queue-IsFifo entered 5 none_pending refl entered_ends
      (omega arith, (omega arith, tt)) (omega arith) (omega arith)

-- In a queue with room for one message: "hi" was sent and received, and the sender goes on.
abbrev hi : Text
hi = 104 ∷ 105 ∷ 10 ∷ []

abbrev sent_hi : Traffic
sent_hi = record (waiting entered) {
  lines = (101 ∷ 110 ∷ 100 ∷ 10 ∷ []) ∷ (110 ∷ 111 ∷ 10 ∷ []) ∷ [];
  pending = hi ∷ [];
  sender = stop_at (is_end hi);
}

abbrev got_hi : Traffic
got_hi = record sent_hi { pending = []; printed = hi ∷ []; receiver = stop_at (is_end hi) }

got_hi-Leads : Leads 1 (waiting entered) 2 got_hi
got_hi-Leads =
    let r : Leads 1 (waiting entered) 1 sent_hi =
      then_moves at_once (sends (waiting entered) hi _ refl refl (omega arith) (omega arith)) in
    then_moves r (receives sent_hi hi [] refl refl)

msgqueue-Together_example :
    (((got_hi.sender ≡ stops) × (got_hi.receiver ≡ stops) × (got_hi.printed ≡ up_to_end entered))
      ⊎ ((t : Traffic) × Moves 1 got_hi t))
    × (2 ≤ 2 * length (up_to_end entered))
unfolding is_end
msgqueue-Together_example =
    msgqueue-Together 1 2 entered got_hi (omega arith) entered_ends (omega arith, (omega arith, tt))
      got_hi-Leads
