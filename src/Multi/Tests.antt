-- ===== src/Multi/Tests.antt =====
-- Runs of the multicast protocol of src/protocol_socket.c on concrete datagrams and ticks.
use a_test.Base.{ℕ, ◌≡◌, ◌≢◌, refl, Bool, true, false, List, [], ◌∷◌, arith, some, if◌then◌else◌}
use a_test.Memory.{ok, fault, spinning, Object, object_of}
use a_test.Multi.{
  Note, rxlen_err, msg_type_err, multi_data_rx, Multi, dist_len_snd, State, multi_tx, dist_init,
}
use a_test.Multi.Parse.{multi_data_rx_parses}
use a_test.Multi.Bounds.{rx_loop_ends, multi_data_rx_safe}
use a_test.Multi.Schedule.{run_ticks, any_due, multi_tx_after_ticks}

-- A package of type 7 with one byte of data, and one of type 1 with none.
abbrev packages : Object
packages =
    object_of (0 ∷ 0xFB ∷ 9 ∷ 0 ∷ 7 ∷ 0 ∷ 33 ∷ 0xBF ∷ 0 ∷ 0 ∷ 0xFB ∷ 8 ∷ 0 ∷ 1 ∷ 0 ∷ 0xBF ∷ 0 ∷ [])

multi_data_rx_parses_example : multi_data_rx packages 17 ≡ ok (msg_type_err 7 ∷ rxlen_err 0 ∷ [])
multi_data_rx_parses_example =
    multi_data_rx_parses ((7, 1) ∷ (1, 0) ∷ []) packages 17
      (
        record {
          head = refl;
          length_is = refl;
          typed = refl;
          tail = refl;
          inside = omega arith;
          small = omega arith;
        },
        (
          record {
            head = refl;
            length_is = refl;
            typed = refl;
            tail = refl;
            inside = omega arith;
            small = omega arith;
          },
          tt,
        ),
      )
      refl

rx_loop_ends_example : multi_data_rx packages 17 ≢ spinning
rx_loop_ends_example = rx_loop_ends packages 17

multi_data_rx_safe_example : (notes : List Note) × (multi_data_rx packages 12 ≡ ok notes)
multi_data_rx_safe_example = multi_data_rx_safe packages 12 (omega arith) (λ _. omega arith)

abbrev short : Object
short = object_of (0 ∷ 0xFB ∷ 1 ∷ 0 ∷ 0 ∷ 0 ∷ [])

abbrev buffer : Object
buffer = record { size = 10240; byte = λ i. 0 }

abbrev entry : Bool → List ℕ → Multi
entry flg bs = record {
  flg = flg;
  expire = 10000;
  payload = some (object_of bs);
  func = some dist_len_snd;
}

abbrev state : State
state = record {
  g_multi_fd = 3;
  g_multi = entry true (11 ∷ 12 ∷ []) ∷ entry false (21 ∷ 22 ∷ []) ∷ [];
  tx = record { len = 5; buf = buffer };
  rx = record { len = 5; buf = buffer };
}

multi_tx_after_ticks_example :
    (s' s'' : State) × (run_ticks (99 ∷ 100 ∷ []) (dist_init 3 state) ≡ ok s')
    × (multi_tx s' ≡ (if any_due (99 ∷ 100 ∷ []) then fault else ok (s'', [])))
multi_tx_after_ticks_example = multi_tx_after_ticks 3 state (99 ∷ 100 ∷ [])
