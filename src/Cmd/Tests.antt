-- ===== src/Cmd/Tests.antt =====
-- Runs of the sender of src/cmd_handle.c on concrete buffers, and of the receiver on its frames.
use Prim.Native.Nat.{}
use a_test.Base.{ℕ, zero, suc, ◌≡◌, refl, true, false, List, [], ◌∷◌, arith, All}
use a_test.Memory.{ok, fault, Object}
use a_test.Cmd.{CmdBuf, AllCmdBuf, Globals, hello_len}
use a_test.Cmd.Tx.{TxResult, tx_cmd}
use a_test.Cmd.Tx.Send.{IsQueued, pending}
use a_test.Cmd.Tx.Result.{IsFrame, Written, tx_cmd-Written}
use a_test.Cmd.Tx.Rounds.{tx_rounds, tx_rounds_drain}
use a_test.Cmd.Rx.{rx_cmd}
use a_test.Cmd.Rx.Messages.{AreBuffers}
use a_test.Cmd.Link.{tx_rx_fault}
use a_test.Cmd.Init.{}

abbrev buffer : ℕ → ℕ → CmdBuf
buffer type len = record {
  len = len;
  cmd_hdr = record {
    cmd_pdu_type = type;
    firstpkg = true;
    fragment = false;
    index = 1;
    sublen = 0;
  };
  payload = record { size = hello_len; byte = λ i. i };
}

-- Ten bytes of a hello and five of a report, and nothing between.
abbrev queue : List CmdBuf
queue = buffer 0 10 ∷ buffer 1 0 ∷ buffer 2 5 ∷ []

abbrev frame : Object
frame = record { size = 100; byte = λ i. 0 }

queue-IsQueued : All IsQueued queue
queue-IsQueued = (
  record { room = refl; bounded = omega arith },
  (
    record { room = refl; bounded = omega arith },
    (record { room = refl; bounded = omega arith }, tt),
  ),
)

frame-IsFrame : IsFrame 20 frame
frame-IsFrame = record { has_header = omega arith; word = omega arith; fits = omega arith }

tx_cmd-Written_example :
    (k : ℕ) × (r : TxResult) × (tx_cmd 20 (record { cmd_buf = queue }) frame ≡ ok r)
    × Written 20 k queue frame r
tx_cmd-Written_example = tx_cmd-Written 20 queue frame frame-IsFrame queue-IsQueued

tx_rounds_drain_example :
    (bs' : List CmdBuf) × (tx_rounds 15 20 (record { cmd_buf = queue }) frame
      ≡ ok (record { cmd_buf = bs' }))
    × (pending bs' ≡ 0)
    × All IsQueued bs'
tx_rounds_drain_example =
    tx_rounds_drain 15 20 queue frame frame-IsFrame (omega arith) queue-IsQueued (omega arith)

tx_rx_fault_example :
    (r : TxResult) × (tx_cmd 20 (record { cmd_buf = queue }) frame ≡ ok r)
    × (rx_cmd 8 r.mactx_buf 20 (record { cmd_buf = queue }) ≡ fault)
tx_rx_fault_example =
    tx_rx_fault 20 7 20 (buffer 0 10) (buffer 1 0 ∷ buffer 2 5 ∷ []) frame
      (record { cmd_buf = queue }) frame-IsFrame (omega arith) queue-IsQueued (omega arith)
      (record { type_byte = omega arith; index_bits = omega arith; sublen_word = omega arith })
      (omega arith)

abbrev nodes : ℕ → List AllCmdBuf
nodes zero = []
nodes (suc n) = record { cmd_buf = queue } ∷ nodes n

abbrev globals : Globals
globals = record { g_tx_cmd_buf = record { cmd_buf = queue }; g_rx_cmd_buf = nodes 32 }

queue-AreBuffers : AreBuffers queue
queue-AreBuffers = record { three = refl; rooms = (refl, (refl, (refl, tt))) }

nodes-AreBuffers : (n : ℕ) → All (λ a. AreBuffers a.cmd_buf) (nodes n)
nodes-AreBuffers zero = tt
nodes-AreBuffers (suc n) = (queue-AreBuffers, nodes-AreBuffers n)
