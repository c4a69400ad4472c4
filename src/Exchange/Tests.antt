-- ===== src/Exchange/Tests.antt =====
-- The processes of src/process_interactive.c on concrete lines.
use a_test.Base.{◌≡◌, refl, ◌⊎◌, false, [], ◌∷◌, ◌++◌, arith, map}
use a_test.Exchange.{
  Text, is_end, cut, waiting, ended, polling, stopped, System, next_producer, next_customer,
  goes_on, enters, copies, flags, sees, prints, resets, checks, Reach, here, next,
}
use a_test.Exchange.Order.{IsStart, Reach-IsOrdered}
use a_test.Exchange.End.{}

abbrev start : System
start = record {
  producer = waiting;
  customer = polling;
  written_by_you = false;
  some_text = [];
  entered = [];
  printed = [];
}

start-IsStart : IsStart start
unfolding is_end
start-IsStart = record {
  no_line = refl;
  no_output = refl;
  flag_down = refl;
  producer_waits = refl;
  customer_polls = refl;
  no_end = refl;
}

-- "end\n"
abbrev end_line : Text
end_line = 101 ∷ 110 ∷ 100 ∷ 10 ∷ []

-- The line was entered, printed and compared.
abbrev finished : System
finished = record {
  producer = ended;
  customer = stopped;
  written_by_you = false;
  some_text = end_line;
  entered = end_line ∷ [];
  printed = end_line ∷ [];
}

run : Reach start finished
unfolding next_producer next_customer is_end cut
run =
    next
      (next
        (next
          (next
            (next
              (next (next (next here (goes_on start refl refl)) (enters _ end_line refl))
                (copies _ end_line refl))
              (flags _ end_line refl))
            (sees _ refl refl))
          (prints _ refl (omega arith)))
        (resets _ refl))
      (checks _ refl)

Reach-IsOrdered_example :
    (map cut (end_line ∷ []) ≡ end_line ∷ [])
    ⊎ ((last : Text) × (map cut (end_line ∷ []) ≡ (end_line ∷ []) ++ last ∷ []))
Reach-IsOrdered_example = Reach-IsOrdered start-IsStart run
