-- ===== src/Multi.antt =====
-- The multicast protocol of src/protocol_socket.c (from line 559 on) and its types in
-- include/protocol_socket.h. `int` values that the code keeps non-negative (lengths, indices, the
-- counter of `expire_handle`) are numbers. What recvfrom delivers and what sendto is given are
-- values; the console output is a list of notes,
-- without the messages head fail, len fail and tail fail.
pub mod Parse
pub mod Bounds
pub mod Schedule
mod Tests
use a_test.Base.{
  ℕ, zero, suc, ◌+◌, ◌-◌, ◌%◌, Bool, true, false, List, [], ◌∷◌, ◌++◌, Option, none, some, ◌==◌,
  ltb, leb, if◌then◌else◌, ◌||◌, length,
}
use a_test.Memory.{
  Run, ok, fault, spinning, ◌>>=◌, ◌>>◌, require, from_option, Object, load_u16, memcpy, read, put,
}
use a_test.Words.{sub32}

abbrev pub multi_head : ℕ
multi_head = 0xFB00

abbrev pub multi_tail : ℕ
multi_tail = 0x00BF

abbrev pub sizeof_pdu_hdr : ℕ
sizeof_pdu_hdr = 6

abbrev pub sizeof_pdu_til : ℕ
sizeof_pdu_til = 2

-- int nodeid and 32 pairs of int
abbrev pub sizeof_mac_twr_hello_data : ℕ
sizeof_mac_twr_hello_data = 260

-- four bytes, 32 bytes and two arrays of 32 int
abbrev pub sizeof_mac_node_len_data : ℕ
sizeof_mac_node_len_data = 292

-- enum E_MULTI_P_TYPE
abbrev pub e_dist_basedata : ℕ
e_dist_basedata = 0

abbrev pub e_dist_len : ℕ
e_dist_len = 1

-- The package's tail, and its length or FALSE. The tail's place is computed in `size_t`: below 0 it
-- wraps and lies outside of every object.
unfoldable pub check_til : Object → ℕ → ℕ → Run ℕ
check_til buf dataidx pdu_len = do
  require (leb sizeof_pdu_til (dataidx + pdu_len))
  tail ← load_u16 buf (dataidx + pdu_len - sizeof_pdu_til)
  ok (if tail == multi_tail then pdu_len else 0)

-- The package's length, where it ends within the data.
unfoldable pub check_len : Object → ℕ → ℕ → Run ℕ
check_len buf len dataidx = do
  pdu_len ← load_u16 buf (dataidx + 2)
  if leb (pdu_len + dataidx) len then check_til buf dataidx pdu_len else ok 0

-- The three messages for what failed are left out.
unfoldable pub check_p_hdr_til : Object → ℕ → ℕ → Run ℕ
check_p_hdr_til buf len dataidx = do
  head ← load_u16 buf dataidx
  if head == multi_head then check_len buf len dataidx else ok 0

-- The handlers that a package reaches (their bodies are empty), and the error messages of
-- multi_pdu_rx and multi_data_rx.
pub data Note : Type 0 where
  dist_basedata_rcv dist_len_rcv : Note
  rxlen_err msg_type_err loss_pkg_len : ℕ → Note

-- `int sdu_len` is below 0 for a package that is shorter than its header and tail.
unfoldable pub multi_pdu_rx : Object → ℕ → Run Note
multi_pdu_rx buf at = do
  pdu_len ← load_u16 buf (at + 2)
  msg_type ← load_u16 buf (at + 4)
  let sdu_len = sub32 pdu_len (sizeof_pdu_hdr + sizeof_pdu_til)
  ok (
      if msg_type == e_dist_basedata
      then if sdu_len == sizeof_mac_twr_hello_data then dist_basedata_rcv else rxlen_err sdu_len
      else if msg_type == e_dist_len
      then if sdu_len == sizeof_mac_node_len_data then dist_len_rcv else rxlen_err sdu_len
      else msg_type_err msg_type)

-- while (dataidx < len)
unfoldable pub rx_loop : ℕ → Object → ℕ → ℕ → List Note → Run (List Note)
rx_loop zero buf len dataidx notes = spinning
rx_loop (suc fuel) buf len dataidx notes =
    if ltb dataidx len
    then check_p_hdr_til buf len dataidx >>= (λ pkglen.
      if pkglen == 0
      then ok (notes ++ loss_pkg_len (len - dataidx) ∷ [])
      else (multi_pdu_rx buf dataidx >>= λ note.
          rx_loop fuel buf len (dataidx + pkglen) (notes ++ note ∷ [])))
    else ok notes

-- A round takes a byte at least, so `len` rounds and the last test are enough (`rx_loop_ends`).
unfoldable pub multi_data_rx : Object → ℕ → Run (List Note)
multi_data_rx buf len = rx_loop (suc len) buf len 0 []

pub data MultiFunc : Type 0 where
  dist_basedata_snd dist_len_snd : MultiFunc

-- `none` is the NULL pointer. The code has no use of the field `cnt`.
pub record Multi : Type 0 where
  pub flg : Bool
  pub expire : ℕ
  pub payload : Option Object
  pub func : Option MultiFunc

pub record DataBuf : Type 0 where
  pub len : ℕ
  pub buf : Object

pub record State : Type 0 where
  pub g_multi_fd : ℕ
  pub g_multi : List Multi
  pub tx : DataBuf
  pub rx : DataBuf

-- g_databuf[e_tx].len += 1 and a copy of that many bytes to the buffer's start; the two functions
-- of the table have the same body.
unfoldable pub snd : MultiFunc → Option Object → DataBuf → Run DataBuf
snd f payload d = do
  src ← from_option payload
  buf ← memcpy d.buf 0 src 0 (d.len + 1)
  ok (record { len = d.len + 1; buf = buf })

-- for (i = 0; i < e_multi_p_max; i++)
unfoldable pub collect : List Multi → DataBuf → Run DataBuf
collect [] d = ok d
collect (m ∷ ms) d =
    if m.flg then (from_option m.func >>= λ f. snd f m.payload d) >>= collect ms else collect ms d

-- The new state, and the bytes that sendto is given.
unfoldable pub multi_tx : State → Run (State × List ℕ)
multi_tx s = do
  d ← collect s.g_multi (record (s.tx) { len = 0 })
  ok (record s { tx = d }, read d.buf.byte 0 d.len)

-- `received` is what recvfrom returned and wrote: nothing (0 or an error), or bytes.
unfoldable pub multi_rx : List ℕ → State → Run (State × List Note)
multi_rx [] s = ok (s, [])
multi_rx (c ∷ cs) s = do
  let d : DataBuf = record {
    len = length (c ∷ cs);
    buf = record (s.tx.buf) { byte = put s.tx.buf.byte 0 (c ∷ cs) };
  }
  notes ← multi_data_rx d.buf d.len
  ok (record s { tx = d }, notes)

unfoldable pub init_entry : MultiFunc → Multi
init_entry f = record { flg = false; expire = 10000; payload = none; func = some f }

-- `fd` is the result of init_udpmulti.
unfoldable pub dist_init : ℕ → State → State
dist_init fd s = record {
  g_multi_fd = fd;
  g_multi = init_entry dist_basedata_snd ∷ init_entry dist_len_snd ∷ [];
  tx = record (s.tx) { len = 0 };
  rx = record (s.rx) { len = 0 };
}

-- icount % expire == 100; a remainder by 0 is undefined.
unfoldable pub expire_entry : ℕ → Multi → Run Multi
expire_entry icount m = do
  require (ltb 0 m.expire)
  ok (if icount % m.expire == 100 then record m { flg = true } else m)

unfoldable pub expire_all : ℕ → List Multi → Run (List Multi)
expire_all icount [] = ok []
expire_all icount (m ∷ ms) = do
  m' ← expire_entry icount m
  ms' ← expire_all icount ms
  ok (m' ∷ ms')

unfoldable pub expire_handle : ℕ → State → Run State
expire_handle icount s = do ms ← expire_all icount s.g_multi; ok (record s { g_multi = ms })
