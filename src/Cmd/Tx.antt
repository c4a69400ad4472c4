-- ===== src/Cmd/Tx.antt =====
-- The sending half of src/cmd_handle.c. An `int` is its 32-bit pattern; where the code compares or
-- subtracts it with a `size_t`, such as CMD_HDR_LEN, its sign is extended to 64 bits.
pub mod Send
pub mod Balance
pub mod Result
pub mod Rounds
use a_test.Base.{
  ℕ, zero, suc, ◌+◌, ◌-◌, ◌*◌, ◌/◌, ◌%◌, ◌^◌, Bool, true, false, List, [], ◌∷◌, ◌==◌, ltb, leb, not,
  if◌then◌else◌, get_or,
}
use a_test.Memory.{Run, ok, fault, ◌>>=◌, Object, memcpy, store}
use a_test.Words.{add32, sub32, sub64, to_size}
use a_test.Cmd.{CmdPdu, CmdBuf, AllCmdBuf, MacPdu, cmd_pdu_bytes, cmd_hdr_len, mac_hdr_len}

-- The part of a buffer that starts at `&cmd_buf_data->cmd_hdr`: the header and then the payload.
unfoldable pub from_header : CmdBuf → Object
from_header b = record {
  size = cmd_hdr_len + b.payload.size;
  byte = λ i.
      if ltb i cmd_hdr_len
      then get_or (cmd_pdu_bytes b.cmd_hdr) i 0
      else b.payload.byte (i - cmd_hdr_len);
}

pub record Tx : Type 0 where
  pub wlen : ℕ
  pub mactx_buf : Object

-- The length of the packet, `int sublen`.
abbrev pub sublen_for : ℕ → ℕ → ℕ
sublen_for remain len =
    if leb (len + cmd_hdr_len) (to_size remain) then (len + cmd_hdr_len) % 2 ^ 32 else remain

-- The new state of a buffer of which a packet of `sublen` bytes was written.
unfoldable pub mark_sent : ℕ → CmdBuf → CmdBuf
mark_sent sublen b =
    let len = (b.len + 2 ^ 64 - sub64 (to_size sublen) cmd_hdr_len) % 2 ^ 32 in
    record b {
      len = len;
      cmd_hdr = record (b.cmd_hdr) {
        firstpkg = false;
        fragment = not (len == 0);
        sublen = sublen % 2 ^ 16;
      };
    }

unfoldable pub tx_packet : ℕ → CmdBuf → Tx → Run (CmdBuf × Tx)
tx_packet remain b t = do
  let sublen = sublen_for remain b.len
  mactx_buf ← memcpy t.mactx_buf (to_size t.wlen) (from_header b) 0 (to_size sublen)
  ok (mark_sent sublen b, record { wlen = add32 t.wlen sublen; mactx_buf = mactx_buf })

-- for (i = 0; i < MAX_CMD_TYPE; i++); at the `break` the other buffers stay as they are.
unfoldable pub tx_loop : ℕ → List CmdBuf → Tx → Run (List CmdBuf × Tx)
tx_loop max_maclen [] t = ok ([], t)
tx_loop max_maclen (b ∷ bs) t =
    let remain = sub32 max_maclen t.wlen in
    let skip = tx_loop max_maclen bs t >>= (λ rest. ok (b ∷ rest.0, rest.1)) in
    let send =
      tx_packet remain b t
      >>= (λ sent. tx_loop max_maclen bs sent.1 >>= (λ rest. ok (sent.0 ∷ rest.0, rest.1))) in
    if b.len == 0 then skip else if ltb cmd_hdr_len (to_size remain) then send else ok (b ∷ bs, t)

-- The MAC header as it lies in memory.
abbrev pub mac_pdu_bytes : MacPdu → List ℕ
mac_pdu_bytes m =
    m.mac_pdu_type % 2 ^ 8
    ∷ m.mac_pdu_type / 2 ^ 8 % 2 ^ 8
    ∷ m.mac_pdu_type / 2 ^ 16 % 2 ^ 8
    ∷ m.mac_pdu_type / 2 ^ 24
    ∷ m.mac_frame_len % 2 ^ 8
    ∷ m.mac_frame_len / 2 ^ 8
    ∷ m.crc % 2 ^ 8
    ∷ m.crc / 2 ^ 8
    ∷ []

pub record TxResult : Type 0 where
  pub remaining : ℕ
  pub all_cmd : AllCmdBuf
  pub mactx_buf : Object

-- `01010101` is an octal literal.
unfoldable pub tx_cmd : ℕ → AllCmdBuf → Object → Run TxResult
tx_cmd max_maclen all_cmd mactx_buf = do
  r ← tx_loop max_maclen all_cmd.cmd_buf (record { wlen = mac_hdr_len; mactx_buf = mactx_buf })
  let cmds : AllCmdBuf = record { cmd_buf = r.0 }
  let mac : MacPdu = record { mac_pdu_type = 0o1010101; mac_frame_len = r.1.wlen % 2 ^ 16; crc = 1 }
  let write = store r.1.mactx_buf 0 (mac_pdu_bytes mac) >>= (λ written. ok (record {
    remaining = sub32 max_maclen mac.mac_frame_len;
    all_cmd = cmds;
    mactx_buf = written;
  }))
  if r.1.wlen == mac_hdr_len
      then ok (record { remaining = max_maclen; all_cmd = cmds; mactx_buf = r.1.mactx_buf })
      else write

unfoldable pub tx_add_cmd : CmdBuf → CmdBuf
tx_add_cmd b = record b { len = 100 }

unfoldable pub tx_check_isget_cmd : CmdBuf → Bool
tx_check_isget_cmd b = b.len == 0

-- `index` is a field of six bits.
unfoldable pub tx_new_cmd_reset : CmdBuf → CmdBuf
tx_new_cmd_reset b = record b {
  len = 0;
  cmd_hdr = record (b.cmd_hdr) {
    firstpkg = true;
    fragment = false;
    index = (b.cmd_hdr.index + 1) % 2 ^ 6;
    sublen = 0;
  };
}

unfoldable pub tx_cmd_indata : CmdBuf → CmdBuf
unfolding tx_add_cmd tx_check_isget_cmd tx_new_cmd_reset
tx_cmd_indata b = if tx_check_isget_cmd b then tx_add_cmd (tx_new_cmd_reset b) else b
