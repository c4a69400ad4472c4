-- ===== src/Cmd/Rx/Frames.antt =====
-- `rx_cmd` of src/cmd_handle.c on whole frames.
use a_test.Base.{
  ℕ, zero, suc, ◌+◌, ◌≤◌, ◌<◌, ◌≡◌, refl, true, false, List, [], ◌∷◌, ◌++◌, arith, ltb, leb, length,
  set,
}
use mathlib.Core.List.{append_assoc, append-nil}
use a_test.Memory.{ok, spinning, Object}
use a_test.Cmd.{CmdBuf, cmd_hdr_len, mac_hdr_len, mac_pdu_at}
use a_test.Cmd.Rx.{Call, rx_step, rx_loop, refused, rx_cmd}
use a_test.Cmd.Rx.Packets.{}
use a_test.Cmd.Rx.Messages.{AreBuffers, Message, LiesAt, Delivers, combined, step-Delivers}

-- The frame's packets, one behind the other from `rxlen` on.
abbrev pub AreLaid : Object → ℕ → List Message → Type 0
AreLaid buf rxlen [] = Unit {0}
AreLaid buf rxlen (q ∷ qs) =
    LiesAt buf rxlen q false × AreLaid buf (rxlen + (length q.text + cmd_hdr_len)) qs

abbrev pub total : List Message → ℕ
total [] = 0
total (q ∷ qs) = length q.text + cmd_hdr_len + total qs

abbrev pub DeliversAll : List Message → List Call → Type 0
DeliversAll [] [] = Unit {0}
DeliversAll (q ∷ qs) (call ∷ calls) = Delivers q call × DeliversAll qs calls
DeliversAll _ _ = ⊥

rx_loop_delivers :
    (qs : List Message) (fuel : ℕ) (buf : Object) (frame_len rxlen : ℕ) (bufs : List CmdBuf)
    (calls : List Call)
    → AreBuffers bufs
    → AreLaid buf rxlen qs
    → frame_len ≡ rxlen + total qs
    → length qs < fuel
    → (bufs' : List CmdBuf) × (new : List Call) × (rx_loop fuel buf frame_len rxlen
          (record { bufs = record { cmd_buf = bufs }; calls = calls })
        ≡ ok (record { bufs = record { cmd_buf = bufs' }; calls = calls ++ new }))
      × DeliversAll qs new
      × AreBuffers bufs'
unfolding rx_loop
rx_loop_delivers [] zero buf frame_len rxlen bufs calls ready laid e enough = absurd (omega arith)
rx_loop_delivers (q ∷ qs) zero buf frame_len rxlen bufs calls ready laid e enough =
    absurd (omega arith)
rx_loop_delivers [] (suc fuel) buf frame_len rxlen bufs calls ready laid e enough =
    let ends : ltb rxlen frame_len ≡ false = ground arith in
    (bufs, [], rw (ends, append-nil), tt, ready)
rx_loop_delivers (q ∷ qs) (suc fuel) buf frame_len rxlen bufs calls ready (lies, laid) e enough =
    let goes_on : ltb rxlen frame_len ≡ true = ground arith in
    let (bufs₁, call, steps, delivers, ready₁) = step-Delivers buf rxlen q bufs calls ready lies in
    let (bufs', new, loops, all, ready') =
      rx_loop_delivers qs fuel buf frame_len (rxlen + (length q.text + cmd_hdr_len)) bufs₁
        (calls ++ call ∷ []) ready₁ laid (omega arith) (omega arith) in
    (bufs', call ∷ new, rw (goes_on, steps, loops, append_assoc), (delivers, all), ready')

-- A frame that passes the three checks and whose length field is exactly the length of its
-- packets, each of them a whole command of one of the three types with 1 to 4096 bytes, is
-- received whatever the buffers held before: with more fuel than packets the loop ends without an
-- access outside of an object, and it makes one call per packet, in the packets' order, of the
-- handler of its type, whose buffer then holds the packet's bytes and their count.
pub rx_cmd_delivers :
    (qs : List Message) (fuel : ℕ) (buf : Object) (len : ℕ) (bufs : List CmdBuf)
    → AreBuffers bufs
    → mac_hdr_len ≤ buf.size
    → refused (mac_pdu_at buf.byte) len ≡ false
    → (mac_pdu_at buf.byte).mac_frame_len ≡ total qs
    → AreLaid buf 0 qs
    → length qs < fuel
    → (bufs' : List CmdBuf) × (calls : List Call) × (rx_cmd fuel buf len (record { cmd_buf = bufs })
        ≡ ok (record { bufs = record { cmd_buf = bufs' }; calls = calls }))
      × DeliversAll qs calls
      × AreBuffers bufs'
unfolding rx_cmd
rx_cmd_delivers qs fuel buf len bufs ready has_header passes framed laid enough =
    let inside : leb mac_hdr_len buf.size ≡ true = ground arith in
    let (bufs', new, loops, all, ready') =
      rx_loop_delivers qs fuel buf (mac_pdu_at buf.byte).mac_frame_len 0 bufs [] ready laid
        (omega arith) enough in
    (bufs', new, rw (inside, passes, loops), all, ready')

spins :
    (fuel : ℕ) (buf : Object) (frame_len rxlen : ℕ) (q : Message) (bufs : List CmdBuf)
    (calls : List Call)
    → AreBuffers bufs
    → LiesAt buf rxlen q true
    → rxlen < frame_len
    → rx_loop fuel buf frame_len rxlen (record { bufs = record { cmd_buf = bufs }; calls = calls })
      ≡ spinning
unfolding rx_loop rx_step
spins zero buf frame_len rxlen q bufs calls ready lies more = refl
spins (suc fuel) buf frame_len rxlen q bufs calls ready lies more =
    let goes_on : ltb rxlen frame_len ≡ true = ground arith in
    let inside : leb (mac_hdr_len + rxlen + cmd_hdr_len) buf.size ≡ true =
      ground (arith, lies.inside) in
    let (b, puts, checks, there, held, ready') = combined buf rxlen q true bufs ready lies in
    rw (goes_on, inside, lies.reads, puts, checks)
      (spins fuel buf frame_len rxlen q (set bufs q.type b) calls ready' lies more)

-- A frame that passes the three checks and whose first packet is a first packet with data which
-- announces another fragment never leaves the loop: the packet is not complete, `continue` leaves
-- `rxlen` where it was, and no amount of fuel is enough.
pub rx_cmd_spins :
    (fuel : ℕ) (q : Message) (buf : Object) (len : ℕ) (bufs : List CmdBuf)
    → AreBuffers bufs
    → mac_hdr_len ≤ buf.size
    → refused (mac_pdu_at buf.byte) len ≡ false
    → 0 < (mac_pdu_at buf.byte).mac_frame_len
    → LiesAt buf 0 q true
    → rx_cmd fuel buf len (record { cmd_buf = bufs }) ≡ spinning
unfolding rx_cmd
rx_cmd_spins fuel q buf len bufs ready has_header passes some_frame lies =
    let inside : leb mac_hdr_len buf.size ≡ true = ground arith in
    rw (inside, passes)
      (spins fuel buf (mac_pdu_at buf.byte).mac_frame_len 0 q bufs [] ready lies some_frame)
