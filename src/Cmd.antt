-- ===== src/Cmd.antt =====
-- include/cmd_handle.h, and the initialisation and the handlers of src/cmd_handle.c that both
-- directions share. A command buffer holds one signalling command: `len` is the length that was
-- received or that is left to send. Sizes are those of the GCC x86-64 layout: `cmd_pdu_t` has 4
-- bytes (type, bit fields from the lowest bit on, `sublen` little-endian), `mac_pdu_t` has 8.
pub mod Rx
pub mod Tx
pub mod Header
pub mod Link
pub mod Init
mod Tests
use a_test.Base.{
  ℕ, zero, suc, ◌+◌, ◌*◌, ◌/◌, ◌%◌, ◌^◌, ◌≤◌, ◌<◌, Bool, true, false, List, [], ◌∷◌, ◌==◌,
  if◌then◌else◌, replicate,
}
use a_test.Memory.{Object, u16_at}

abbrev pub hello_len : ℕ
hello_len = 0x1000

abbrev pub cmd_hdr_len : ℕ
cmd_hdr_len = 4

abbrev pub mac_hdr_len : ℕ
mac_hdr_len = 8

-- enum E_CMD_TYPE
abbrev pub mac_node_hello : ℕ
mac_node_hello = 0

abbrev pub dist_base_data : ℕ
dist_base_data = 1

abbrev pub dist_report : ℕ
dist_report = 2

abbrev pub max_cmd_type : ℕ
max_cmd_type = 3

abbrev pub max_node_num : ℕ
max_node_num = 32

pub record CmdPdu : Type 0 where
  pub cmd_pdu_type : ℕ
  pub firstpkg : Bool
  pub fragment : Bool
  pub index : ℕ
  pub sublen : ℕ

pub record CmdBuf : Type 0 where
  pub len : ℕ
  pub cmd_hdr : CmdPdu
  pub payload : Object

pub record AllCmdBuf : Type 0 where
  pub cmd_buf : List CmdBuf

pub record MacPdu : Type 0 where
  pub mac_pdu_type : ℕ
  pub mac_frame_len : ℕ
  pub crc : ℕ

-- A header as it is read through `(cmd_pdu_t*)(buf + off)`.
unfoldable pub cmd_pdu_at : (ℕ → ℕ) → ℕ → CmdPdu
cmd_pdu_at m off = record {
  cmd_pdu_type = m off;
  firstpkg = m (off + 1) % 2 == 1;
  fragment = m (off + 1) / 2 % 2 == 1;
  index = m (off + 1) / 4;
  sublen = u16_at m (off + 2);
}

unfoldable pub mac_pdu_at : (ℕ → ℕ) → MacPdu
mac_pdu_at m = record {
  mac_pdu_type = u16_at m 0 + 2 ^ 16 * u16_at m 2;
  mac_frame_len = u16_at m 4;
  crc = u16_at m 6;
}

abbrev pub bit : Bool → ℕ
bit true = 1
bit false = 0

-- A header as it lies in memory.
abbrev pub cmd_pdu_bytes : CmdPdu → List ℕ
cmd_pdu_bytes p =
    p.cmd_pdu_type
    ∷ (bit p.firstpkg + 2 * bit p.fragment + 4 * p.index)
    ∷ p.sublen % 2 ^ 8
    ∷ p.sublen / 2 ^ 8
    ∷ []

-- The ranges of the header's fields.
pub record IsHeader (p : CmdPdu) : Type 0 where
  pub type_byte : p.cmd_pdu_type < 2 ^ 8
  pub index_bits : p.index < 2 ^ 6
  pub sublen_word : p.sublen < 2 ^ 16

-- What `cmd_buf_init` writes to the buffer of type `i`; it leaves the payload alone.
unfoldable pub reset_buf : Bool → ℕ → CmdBuf → CmdBuf
reset_buf first i b = record b {
  len = 0;
  cmd_hdr = record { cmd_pdu_type = i; firstpkg = first; fragment = false; index = 0; sublen = 0 };
}

-- for (i = 0; i < MAX_CMD_TYPE; i++)
unfoldable pub reset_bufs : Bool → ℕ → List CmdBuf → List CmdBuf
unfolding reset_buf
reset_bufs first i [] = []
reset_bufs first i (b ∷ bs) = reset_buf first i b ∷ reset_bufs first (suc i) bs

-- The globals g_tx_cmd_buf and g_rx_cmd_buf.
pub record Globals : Type 0 where
  pub g_tx_cmd_buf : AllCmdBuf
  pub g_rx_cmd_buf : List AllCmdBuf

-- for (j = 0; j < MAX_NODE_NUM; j++)
unfoldable pub reset_nodes : List AllCmdBuf → List AllCmdBuf
unfolding reset_bufs
reset_nodes [] = []
reset_nodes (a ∷ rest) = record { cmd_buf = reset_bufs false 0 a.cmd_buf } ∷ reset_nodes rest

unfoldable pub cmd_buf_init : Globals → Globals
unfolding reset_nodes
cmd_buf_init g = record {
  g_tx_cmd_buf = record { cmd_buf = reset_bufs true 0 g.g_tx_cmd_buf.cmd_buf };
  g_rx_cmd_buf = reset_nodes g.g_rx_cmd_buf;
}
