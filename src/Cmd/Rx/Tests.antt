-- ===== src/Cmd/Rx/Tests.antt =====
-- Runs of the receiver of src/cmd_handle.c on concrete packets and frames.
use a_test.Base.{ℕ, ◌+◌, ◌-◌, ◌≡◌, refl, true, false, List, [], ◌∷◌, arith, set, length, ◌⊎◌}
use mathlib.Core.List.{flatten}
use a_test.Memory.{ok, fault, spinning, Object, object_of, load, read, put, store, memcpy}
use a_test.Cmd.{CmdBuf, AllCmdBuf, cmd_pdu_at, mac_pdu_at, hello_len, cmd_hdr_len}
use a_test.Cmd.Rx.{
  cover, append, combine, is_complete, rx_cmd_frag_combine, rx_check_cmddata_complete, Call, Rx,
  rx_hello, rx_dist_rpt, dispatch, rx_step, rx_loop, rx_cmd,
}
use a_test.Cmd.Rx.Packets.{Packet, feed}
use a_test.Cmd.Rx.Reassembly.{feed_reassembles}
use a_test.Cmd.Rx.Frames.{DeliversAll, rx_cmd_delivers, rx_cmd_spins}
use a_test.Cmd.Rx.Messages.{AreBuffers, Message}
use a_test.Cmd.Rx.Bounds.{Fits, start, combine_outcome}
use a_test.Cmd.Rx.Types.{}

abbrev empty : ℕ → CmdBuf
empty type = record {
  len = 0;
  cmd_hdr = record {
    cmd_pdu_type = type;
    firstpkg = false;
    fragment = false;
    index = 0;
    sublen = 0;
  };
  payload = record { size = hello_len; byte = λ i. 0 };
}

abbrev buffers : List CmdBuf
buffers = empty 0 ∷ empty 1 ∷ empty 2 ∷ []

abbrev node : AllCmdBuf
node = record { cmd_buf = buffers }

buffers-AreBuffers : AreBuffers buffers
buffers-AreBuffers = record { three = refl; rooms = (refl, (refl, (refl, tt))) }

abbrev first : Packet
first = record {
  pdu = record { cmd_pdu_type = 1; firstpkg = true; fragment = true; index = 5; sublen = 7 };
  src = object_of (1 ∷ 2 ∷ 3 ∷ []);
  off = 0;
}

abbrev second : Packet
second = record {
  pdu = record { cmd_pdu_type = 1; firstpkg = false; fragment = false; index = 5; sublen = 6 };
  src = object_of (0 ∷ 4 ∷ 5 ∷ []);
  off = 1;
}

feed_reassembles_example :
    (b' : CmdBuf) × (feed (first ∷ second ∷ []) node
      ≡ ok (record { cmd_buf = set buffers 1 b' }, false ∷ true ∷ []))
    × (b'.len ≡ 5)
    × (read b'.payload.byte 0 5 ≡ 1 ∷ 2 ∷ 3 ∷ 4 ∷ 5 ∷ [])
    × (is_complete b' ≡ true)
unfolding flatten load read
feed_reassembles_example =
    feed_reassembles 1 5 first (second ∷ []) (1 ∷ 2 ∷ 3 ∷ []) ((4 ∷ 5 ∷ []) ∷ []) buffers (empty 1)
      refl refl
      (record {
        carries = record { loads = refl; sized = refl };
        typed = refl;
        indexed = refl;
        is_first = refl;
        fragmented = refl;
      })
      (
        record {
          carries = record { loads = refl; sized = refl };
          typed = refl;
          indexed = refl;
          is_first = refl;
          fragmented = refl;
        },
        tt,
      )
      (omega arith) (omega arith)

-- A frame of 0xAAB with a hello of two bytes and a report of one.
abbrev frame : Object
frame =
    object_of
      (0xAB ∷ 0xA ∷ 0 ∷ 0 ∷ 11 ∷ 0 ∷ 1 ∷ 0 ∷ 0 ∷ 1 ∷ 6 ∷ 0 ∷ 70 ∷ 71 ∷ 2 ∷ 9 ∷ 5 ∷ 0 ∷ 80 ∷ [])

abbrev hello : Message
hello = record { type = 0; index = 0; text = 70 ∷ 71 ∷ [] }

abbrev report : Message
report = record { type = 2; index = 2; text = 80 ∷ [] }

rx_cmd_delivers_example :
    (bufs' : List CmdBuf) × (calls : List Call) × (rx_cmd 3 frame 19 node
      ≡ ok (record { bufs = record { cmd_buf = bufs' }; calls = calls }))
    × DeliversAll (hello ∷ report ∷ []) calls
    × AreBuffers bufs'
unfolding cmd_pdu_at mac_pdu_at load read
rx_cmd_delivers_example =
    rx_cmd_delivers (hello ∷ report ∷ []) 3 frame 19 buffers buffers-AreBuffers (omega arith) refl
      refl
      (
        record {
          reads = refl;
          loads = refl;
          inside = omega arith;
          typed = omega arith;
          some_data = omega arith;
          fits = omega arith;
        },
        (
          record {
            reads = refl;
            loads = refl;
            inside = omega arith;
            typed = omega arith;
            some_data = omega arith;
            fits = omega arith;
          },
          tt,
        ),
      )
      (omega arith)

-- The same with a first packet that announces another fragment.
abbrev fragmented_frame : Object
fragmented_frame = object_of (0xAB ∷ 0xA ∷ 0 ∷ 0 ∷ 6 ∷ 0 ∷ 1 ∷ 0 ∷ 0 ∷ 3 ∷ 6 ∷ 0 ∷ 70 ∷ 71 ∷ [])

rx_cmd_spins_example : rx_cmd 1000 fragmented_frame 14 node ≡ spinning
unfolding cmd_pdu_at mac_pdu_at load read
rx_cmd_spins_example =
    rx_cmd_spins 1000 hello fragmented_frame 14 buffers buffers-AreBuffers (omega arith) refl
      (omega arith)
      (record {
        reads = refl;
        loads = refl;
        inside = omega arith;
        typed = omega arith;
        some_data = omega arith;
        fits = omega arith;
      })

combine_outcome_example :
    (Fits first.pdu first.src 0 (empty 1) (start (empty 1) first.pdu)
      × ((b' : CmdBuf) × (combine first.pdu first.src 0 (empty 1) ≡ ok b')
          × (b'.len ≡ start (empty 1) first.pdu + (first.pdu.sublen - cmd_hdr_len))
          × (b'.payload.size ≡ hello_len)))
    ⊎ ((¬ Fits first.pdu first.src 0 (empty 1) (start (empty 1) first.pdu))
        × (combine first.pdu first.src 0 (empty 1) ≡ fault))
combine_outcome_example = combine_outcome first.pdu first.src 0 (empty 1) refl

-- The buffer that holds the message.
abbrev holding : Message → CmdBuf
holding q = record {
  len = length q.text;
  cmd_hdr = record {
    cmd_pdu_type = q.type;
    firstpkg = true;
    fragment = false;
    index = q.index;
    sublen = length q.text + cmd_hdr_len;
  };
  payload = record { size = hello_len; byte = put (λ i. 0) 0 q.text };
}

abbrev after_hello : AllCmdBuf
after_hello = record { cmd_buf = holding hello ∷ empty 1 ∷ empty 2 ∷ [] }

abbrev after_report : AllCmdBuf
after_report = record { cmd_buf = holding hello ∷ empty 1 ∷ holding report ∷ [] }

abbrev received : Rx
received = record {
  bufs = after_report;
  calls = rx_hello after_hello ∷ rx_dist_rpt after_report ∷ [];
}

runs : rx_cmd 3 frame 19 node ≡ ok received
unfolding rx_cmd rx_loop rx_step rx_cmd_frag_combine rx_check_cmddata_complete combine cover append
    dispatch cmd_pdu_at mac_pdu_at memcpy load store read
runs = refl
