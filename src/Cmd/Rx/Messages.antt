-- ===== src/Cmd/Rx/Messages.antt =====
-- A command that fits one packet, in `rx_cmd` of src/cmd_handle.c.
use a_test.Base.{
  ℕ, zero, suc, ◌+◌, ◌≤◌, ◌<◌, ◌≡◌, refl, ◌∙◌, Bool, true, false, not, List, [], ◌∷◌, ◌++◌, arith,
  leb, length, get_elem?, set, get-set_here, length-set, some, All, get_of_All, set-All,
}
use mathlib.Core.List.{}
use a_test.Memory.{ok, Object, load, read}
use a_test.Cmd.{
  CmdPdu, CmdBuf, AllCmdBuf, hello_len, cmd_hdr_len, mac_hdr_len, max_cmd_type, cmd_pdu_at,
}
use a_test.Cmd.Rx.{
  rx_cmd_frag_combine, rx_check_cmddata_complete, Call, rx_hello, rx_dist_base, rx_dist_rpt,
  dispatch, rx_step,
}
use a_test.Cmd.Rx.Packets.{Packet, IsPart, Holds, combine_first, rx_combine_lem, check_lem}

abbrev pub HasRoom : CmdBuf → Type 0
HasRoom b = b.payload.size ≡ hello_len

-- The receive buffers of one node: three, each with its 4096 bytes.
pub record AreBuffers (bufs : List CmdBuf) : Type 0 where
  pub three : length bufs ≡ max_cmd_type
  pub rooms : All HasRoom bufs

-- A command that fits one packet.
pub record Message : Type 0 where
  pub type : ℕ
  pub index : ℕ
  pub text : List ℕ

abbrev pub header : Message → Bool → CmdPdu
header q more = record {
  cmd_pdu_type = q.type;
  firstpkg = true;
  fragment = more;
  index = q.index;
  sublen = length q.text + cmd_hdr_len;
}

-- The packet lies in the frame `rxlen` bytes behind the MAC header.
pub record LiesAt (buf : Object) (rxlen : ℕ) (q : Message) (more : Bool) : Type 0 where
  pub reads : cmd_pdu_at buf.byte (mac_hdr_len + rxlen) ≡ header q more
  pub loads : load buf (mac_hdr_len + rxlen + cmd_hdr_len) (length q.text) ≡ ok q.text
  pub inside : mac_hdr_len + rxlen + cmd_hdr_len ≤ buf.size
  pub typed : q.type < max_cmd_type
  pub some_data : 0 < length q.text
  pub fits : length q.text ≤ hello_len

abbrev pub handler : ℕ → AllCmdBuf → Call
handler zero = rx_hello
handler (suc zero) = rx_dist_base
handler (suc (suc _)) = rx_dist_rpt

-- The call of the message's handler, with buffers of which the one of its type holds its bytes.
pub record Delivers (q : Message) (call : Call) : Type 0 where
  pub given : AllCmdBuf
  pub buffer : CmdBuf
  pub is_call : call ≡ handler q.type given
  pub found : get_elem? given.cmd_buf q.type ≡ some buffer
  pub counted : buffer.len ≡ length q.text
  pub holds : read buffer.payload.byte 0 (length q.text) ≡ q.text

pub dispatch-handler : (type : ℕ) (rx : AllCmdBuf) → type < 3 → dispatch type rx ≡ handler type rx
unfolding dispatch
dispatch-handler zero rx h = refl
dispatch-handler (suc zero) rx h = refl
dispatch-handler (suc (suc n)) rx h = ground arith

-- What combining and checking the packet does to the buffers.
pub combined :
    (buf : Object) (rxlen : ℕ) (q : Message) (more : Bool) (bufs : List CmdBuf)
    → AreBuffers bufs
    → LiesAt buf rxlen q more
    → (b : CmdBuf) × (rx_cmd_frag_combine
          (header q more)
          buf
          (mac_hdr_len + rxlen + cmd_hdr_len)
          (record { cmd_buf = bufs })
        ≡ ok (record { cmd_buf = set bufs q.type b }))
      × (rx_check_cmddata_complete q.type (record { cmd_buf = set bufs q.type b }) ≡ ok (not more))
      × (get_elem? (set bufs q.type b) q.type ≡ some b)
      × Holds q.index more q.text b
      × AreBuffers (set bufs q.type b)
combined buf rxlen q more bufs ready lies =
    let p : Packet = record {
      pdu = header q more;
      src = buf;
      off = mac_hdr_len + rxlen + cmd_hdr_len;
    } in
    let part : IsPart q.type q.index true more p q.text = record {
      carries = record { loads = lies.loads; sized = refl };
      typed = refl;
      indexed = refl;
      is_first = refl;
      fragmented = refl;
    } in
    let (b₀, found, room) =
      get_of_All HasRoom bufs q.type ready.rooms (omega (arith, lies.typed)) in
    let (b, e, held) = combine_first q.index more q.type p q.text b₀ part room lies.fits in
    let there = get-set_here bufs q.type b₀ b found in
    (
      b,
      rx_combine_lem p (record { cmd_buf = bufs }) b₀ b found e,
      check_lem q.type q.index more q.text (record { cmd_buf = set bufs q.type b }) b there held
          lies.some_data,
      there,
      held,
      record {
        three = length-set bufs q.type b ∙ ready.three;
        rooms = set-All HasRoom bufs q.type b ready.rooms held.room;
      },
    )

pub step-Delivers :
    (buf : Object) (rxlen : ℕ) (q : Message) (bufs : List CmdBuf) (calls : List Call)
    → AreBuffers bufs
    → LiesAt buf rxlen q false
    → (bufs' : List CmdBuf) × (call : Call) × (rx_step buf rxlen
          (record { bufs = record { cmd_buf = bufs }; calls = calls })
        ≡ ok (
          rxlen + (length q.text + cmd_hdr_len),
          record { bufs = record { cmd_buf = bufs' }; calls = calls ++ call ∷ [] },
        ))
      × Delivers q call
      × AreBuffers bufs'
unfolding rx_step
step-Delivers buf rxlen q bufs calls ready lies =
    let (b, puts, checks, there, held, ready') = combined buf rxlen q false bufs ready lies in
    let bufs' : AllCmdBuf = record { cmd_buf = set bufs q.type b } in
    let inside : leb (mac_hdr_len + rxlen + cmd_hdr_len) buf.size ≡ true =
      ground (arith, lies.inside) in
    (
      set bufs q.type b,
      dispatch q.type bufs',
      rw (inside, lies.reads, puts, checks),
      record {
        given = bufs';
        buffer = b;
        is_call = dispatch-handler q.type bufs' lies.typed;
        found = there;
        counted = held.counted;
        holds = held.holds;
      },
      ready',
    )
