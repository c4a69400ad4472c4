-- ===== src/Cmd/Rx.antt =====
-- The receiving half of src/cmd_handle.c.
pub mod Packets
pub mod Reassembly
pub mod Messages
pub mod Frames
pub mod Bounds
pub mod Types
mod Tests
use a_test.Base.{
  ℕ, zero, suc, ◌+◌, ◌-◌, ◌%◌, ◌^◌, Bool, true, false, List, [], ◌∷◌, ◌++◌, ◌==◌, ltb, leb,
  if◌then◌else◌, ◌&&◌, ◌||◌, not, get_elem?, set,
}
use a_test.Memory.{Run, ok, fault, spinning, ◌>>=◌, ◌>>◌, require, from_option, Object, memcpy}
use a_test.Cmd.{
  CmdPdu, CmdBuf, AllCmdBuf, MacPdu, cmd_pdu_at, mac_pdu_at, cmd_hdr_len, mac_hdr_len,
  mac_node_hello, dist_base_data, dist_report,
}

-- `data` points into `src` at `off`. A `sublen` below the header's size makes the count of bytes
-- negative, which `memcpy` takes for one that no object has.
unfoldable pub cover : CmdPdu → Object → ℕ → CmdBuf → Run CmdBuf
cover pdu src off b = do
  require (leb cmd_hdr_len pdu.sublen)
  let datalen = pdu.sublen - cmd_hdr_len
  payload ← memcpy b.payload 0 src off datalen
  ok (record b { payload = payload; len = datalen; cmd_hdr = pdu })

unfoldable pub append : CmdPdu → Object → ℕ → CmdBuf → Run CmdBuf
append pdu src off b = do
  require (leb cmd_hdr_len pdu.sublen)
  let datalen = pdu.sublen - cmd_hdr_len
  payload ← memcpy b.payload b.len src off datalen
  ok (record b {
    payload = payload;
    len = (b.len + datalen) % 2 ^ 32;
    cmd_hdr = record (b.cmd_hdr) { fragment = pdu.fragment };
  })

-- There is data before it, which this packet continues.
abbrev pub continues : CmdBuf → CmdPdu → Bool
continues b pdu =
    b.cmd_hdr.firstpkg && b.cmd_hdr.fragment && (b.cmd_hdr.index == pdu.index) && not pdu.firstpkg

unfoldable pub combine : CmdPdu → Object → ℕ → CmdBuf → Run CmdBuf
combine pdu src off b =
    if b.len == 0
    then cover pdu src off b
    else if continues b pdu
    then append pdu src off b
    else cover pdu src off b

unfoldable pub rx_cmd_frag_combine : CmdPdu → Object → ℕ → AllCmdBuf → Run AllCmdBuf
rx_cmd_frag_combine pdu src off rx = do
  b ← from_option (get_elem? rx.cmd_buf pdu.cmd_pdu_type)
  b' ← combine pdu src off b
  ok (record { cmd_buf = set rx.cmd_buf pdu.cmd_pdu_type b' })

-- `cmd_buf->len && cmd_buf->cmd_hdr.firstpkg && !cmd_buf->cmd_hdr.fragment`
abbrev pub is_complete : CmdBuf → Bool
is_complete b = not (b.len == 0) && b.cmd_hdr.firstpkg && not b.cmd_hdr.fragment

unfoldable pub rx_check_cmddata_complete : ℕ → AllCmdBuf → Run Bool
rx_check_cmddata_complete type rx = do
  b ← from_option (get_elem? rx.cmd_buf type)
  ok (is_complete b)

-- The handlers' bodies are empty; a call is recorded with the buffers that it is given.
pub data Call : Type 0 where
  rx_hello rx_dist_base rx_dist_rpt : AllCmdBuf → Call
  cmd_type_err : ℕ → Call

unfoldable pub dispatch : ℕ → AllCmdBuf → Call
dispatch type rx =
    if type == mac_node_hello
    then rx_hello rx
    else if type == dist_base_data
    then rx_dist_base rx
    else if type == dist_report
    then rx_dist_rpt rx
    else cmd_type_err type

pub record Rx : Type 0 where
  pub bufs : AllCmdBuf
  pub calls : List Call

-- What is left of a round behind the check: the `continue` with the old `rxlen`, or the switch.
abbrev pub advance : CmdPdu → ℕ → Rx → AllCmdBuf → Bool → ℕ × Rx
advance pdu rxlen s bufs false = (rxlen, record { bufs = bufs; calls = s.calls })
advance pdu rxlen s bufs true = (
  rxlen + pdu.sublen,
  record { bufs = bufs; calls = s.calls ++ dispatch pdu.cmd_pdu_type bufs ∷ [] },
)

-- One round of the loop: the next `rxlen`, which is the old one at `continue`.
unfoldable pub rx_step : Object → ℕ → Rx → Run (ℕ × Rx)
rx_step buf rxlen s = do
  require (leb (mac_hdr_len + rxlen + cmd_hdr_len) buf.size)
  let pdu = cmd_pdu_at buf.byte (mac_hdr_len + rxlen)
  bufs ← rx_cmd_frag_combine pdu buf (mac_hdr_len + rxlen + cmd_hdr_len) s.bufs
  complete ← rx_check_cmddata_complete pdu.cmd_pdu_type bufs
  ok (advance pdu rxlen s bufs complete)

-- while (rxlen < mac_pdu->mac_frame_len)
unfoldable pub rx_loop : ℕ → Object → ℕ → ℕ → Rx → Run Rx
rx_loop zero buf frame_len rxlen s = spinning
rx_loop (suc fuel) buf frame_len rxlen s =
    if ltb rxlen frame_len
    then rx_step buf rxlen s >>= (λ r. rx_loop fuel buf frame_len r.0 r.1)
    else ok s

-- The three returns of FALSE.
abbrev pub refused : MacPdu → ℕ → Bool
refused mac len =
    not (mac.crc == 1)
    || ((mac.mac_pdu_type == 0xAAA || mac.mac_pdu_type == 0xBBB) && not (mac.mac_frame_len == len))
    || (mac.mac_pdu_type == 0xAAB && leb len mac.mac_frame_len)

-- A refused frame gives the buffers back with no call. The value of `rx_cmd` after its loop is not
-- defined by the code and is left out.
unfoldable pub rx_cmd : ℕ → Object → ℕ → AllCmdBuf → Run Rx
rx_cmd fuel buf len rx = do
  require (leb mac_hdr_len buf.size)
  let mac = mac_pdu_at buf.byte
  let start : Rx = record { bufs = rx; calls = [] }
  if refused mac len then ok start else rx_loop fuel buf mac.mac_frame_len 0 start
