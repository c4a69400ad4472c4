-- ===== src/Cmd/Link.antt =====
-- What the receiver of src/cmd_handle.c makes of the frames of its sender.
use a_test.Base.{
  ℕ, suc, ◌+◌, ◌-◌, ◌≤◌, ◌<◌, ◌≡◌, refl, ap, ◌∙◌, true, false, List, [], ◌∷◌, ◌++◌, arith, ◌==◌,
  ltb, leb, All, Bool-cases, Option-cases, inl, inr, get_elem?,
}
use a_test.Memory.{ok, fault, Object, read}
use a_test.Cmd.{
  CmdPdu, CmdBuf, AllCmdBuf, cmd_pdu_at, cmd_pdu_bytes, mac_hdr_len, cmd_hdr_len, IsHeader,
}
use a_test.Cmd.Header.{header_decodes_prefix}
use a_test.Cmd.Tx.{TxResult, tx_cmd}
use a_test.Cmd.Tx.Send.{IsQueued, pending, Sent, sent, wire}
use a_test.Cmd.Tx.Result.{IsFrame, Written, tx_cmd-Written, filled_result}
use a_test.Cmd.Tx.Rounds.{Sent-pending, shrinks}
use a_test.Cmd.Rx.{cover, append, combine, rx_cmd_frag_combine, Rx, rx_step, rx_loop, rx_cmd}

-- The frame's first packet is of the first buffer, where that has data.
pub record Leads (max : ℕ) (b : CmdBuf) (bs : List CmdBuf) (r : TxResult) : Type 0 where
  pub n : ℕ
  pub rest : List CmdBuf
  pub pos : 0 < n
  pub in_buffer : n ≤ b.len
  pub bufs : r.all_cmd.cmd_buf ≡ sent n b ∷ rest
  pub less : pending rest ≤ pending bs
  pub reads : read r.mactx_buf.byte mac_hdr_len (cmd_hdr_len + n) ≡ wire n b

leads :
    (max k : ℕ) (b : CmdBuf) (bs : List CmdBuf) (o : Object) (r : TxResult) (bs' : List CmdBuf)
    → r.all_cmd.cmd_buf ≡ bs'
    → Sent r.mactx_buf.byte mac_hdr_len k (b ∷ bs) bs'
    → (k ≡ 0 → ⊥)
    → 0 < b.len
    → Leads max b bs r
leads max k b bs o r [] e s some_packets some_data = absurd s
leads max k b bs o r (b' ∷ rest) e (inl (same, waits, s)) some_packets some_data =
    absurd (elim waits [ inl empty ↦ omega arith | inr none ↦ some_packets none ])
leads max k b bs o r (b' ∷ rest) e (inr (n, j, pos, le, is_sent, count, reads, s)) some_packets
      some_data =
    record {
      n = n;
      rest = rest;
      pos = pos;
      in_buffer = le;
      bufs = rw (e, is_sent);
      less =
          omega (
            arith,
            (Sent-pending r.mactx_buf.byte (mac_hdr_len + (cmd_hdr_len + n)) j bs rest s).0,
          );
      reads = reads;
    }

some_packets :
    (max k : ℕ) (b : CmdBuf) (bs : List CmdBuf) (o : Object) (r : TxResult)
    → Written max k (b ∷ bs) o r
    → mac_hdr_len + cmd_hdr_len < max
    → 0 < b.len
    → k ≡ 0
    → ⊥
some_packets max k b bs o r w room some_data none =
    let sums = Sent-pending r.mactx_buf.byte mac_hdr_len k (b ∷ bs) r.all_cmd.cmd_buf w.writes in
    let pos : 0 < pending (b ∷ bs) = omega arith in
    omega (arith, sums.1 none, shrinks max k (b ∷ bs) o r w room pos)

combine_short :
    (pdu : CmdPdu) (src : Object) (off : ℕ) (b : CmdBuf)
    → pdu.sublen < cmd_hdr_len
    → combine pdu src off b ≡ fault
unfolding combine cover append
combine_short pdu src off b h =
    let short : leb cmd_hdr_len pdu.sublen ≡ false = ground arith in rw short (ground arith)

rx_combine_short :
    (pdu : CmdPdu) (src : Object) (off : ℕ) (rx : AllCmdBuf)
    → pdu.sublen < cmd_hdr_len
    → rx_cmd_frag_combine pdu src off rx ≡ fault
unfolding rx_cmd_frag_combine
rx_combine_short pdu src off rx h = elim (Option-cases (get_elem? rx.cmd_buf pdu.cmd_pdu_type)) [
  | inl none ↦ rw none
  | inr (b, found) ↦ rw (found, combine_short pdu src off b h)
]

step_short :
    (buf : Object) (s : Rx)
    → (cmd_pdu_at buf.byte mac_hdr_len).sublen < cmd_hdr_len
    → rx_step buf 0 s ≡ fault
unfolding rx_step
step_short buf s h = elim (Bool-cases (leb (mac_hdr_len + 0 + cmd_hdr_len) buf.size)) [
  | inr out ↦ rw out
  | inl inside ↦ rw (inside, rx_combine_short (cmd_pdu_at buf.byte mac_hdr_len) buf _ s.bufs h)
]

-- The two halves do not fit: the sender sets a header's packet length only after it has copied the
-- header. If the first buffer holds a new command (its packet length is below the header's size, as
-- `tx_cmd_indata` leaves it), a call of `tx_cmd` with room for data gives a frame, and `rx_cmd` of
-- any node makes an access outside of an object on it.
pub tx_rx_fault :
    (max fuel len : ℕ) (b : CmdBuf) (bs : List CmdBuf) (o : Object) (rx : AllCmdBuf)
    → IsFrame max o
    → mac_hdr_len + cmd_hdr_len < max
    → All IsQueued (b ∷ bs)
    → 0 < b.len
    → IsHeader b.cmd_hdr
    → b.cmd_hdr.sublen < cmd_hdr_len
    → (r : TxResult) × (tx_cmd max (record { cmd_buf = b ∷ bs }) o ≡ ok r)
      × (rx_cmd (suc fuel) r.mactx_buf len rx ≡ fault)
unfolding rx_cmd rx_loop
tx_rx_fault max fuel len b bs o rx frame room queued some_data ranges short =
    let (k, r, runs, w) = tx_cmd-Written max (b ∷ bs) o frame queued in
    let some = some_packets max k b bs o r w room some_data in
    let first = leads max k b bs o r r.all_cmd.cmd_buf refl w.writes some some_data in
    let header =
      header_decodes_prefix r.mactx_buf.byte mac_hdr_len first.n b.cmd_hdr
        (read b.payload.byte 0 first.n) ranges first.reads in
    let pos : 0 < k = elim (Bool-cases (k == 0)) [
      | inl none ↦ absurd (some (ground arith))
      | inr more ↦ ground arith
    ] in
    let mac = (filled_result w pos).1 in
    let inside : leb mac_hdr_len r.mactx_buf.size ≡ true =
      ground (arith, w.same_size, frame.has_header, frame.fits) in
    let bytes : 0 < max - r.remaining =
      omega (arith, (filled_result w pos).0, shrinks max k (b ∷ bs) o r w room (omega arith)) in
    let goes_on : ltb 0 (max - r.remaining) ≡ true = ground arith in
    let stuck = step_short r.mactx_buf (record { bufs = rx; calls = [] }) (rw header short) in
    (r, runs, rw (inside, mac, goes_on, stuck))

-- Two calls on a command that the first frame cannot take whole: both packets carry the payload
-- from its first byte on, though the second one is marked as a later fragment.
pub tx_cmd_resends :
    (max : ℕ) (b : CmdBuf) (bs : List CmdBuf) (o : Object)
    → IsFrame max o
    → mac_hdr_len + cmd_hdr_len < max
    → All IsQueued (b ∷ bs)
    → max < b.len + mac_hdr_len + cmd_hdr_len
    → (r₁ r₂ : TxResult) × (n₁ n₂ : ℕ) × (tx_cmd max (record { cmd_buf = b ∷ bs }) o ≡ ok r₁)
      × (tx_cmd max r₁.all_cmd r₁.mactx_buf ≡ ok r₂)
      × (0 < n₁)
      × (0 < n₂)
      × (read r₁.mactx_buf.byte mac_hdr_len (cmd_hdr_len + n₁)
          ≡ cmd_pdu_bytes b.cmd_hdr ++ read b.payload.byte 0 n₁)
      × (read r₂.mactx_buf.byte mac_hdr_len (cmd_hdr_len + n₂)
          ≡ cmd_pdu_bytes (sent n₁ b).cmd_hdr ++ read b.payload.byte 0 n₂)
      × ((sent n₁ b).cmd_hdr.firstpkg ≡ false)
tx_cmd_resends max b bs o frame room queued large =
    let some_data : 0 < b.len = omega arith in
    let (k, r₁, runs₁, w₁) = tx_cmd-Written max (b ∷ bs) o frame queued in
    let some₁ = some_packets max k b bs o r₁ w₁ room some_data in
    let first = leads max k b bs o r₁ r₁.all_cmd.cmd_buf refl w₁.writes some₁ some_data in
    let b' = sent first.n b in
    let after : pending r₁.all_cmd.cmd_buf ≡ b.len - first.n + pending first.rest =
      ap pending first.bufs in
    let pos : 0 < k = elim (Bool-cases (k == 0)) [
      | inl none ↦ absurd (some₁ (ground arith))
      | inr more ↦ ground arith
    ] in
    let left : 0 < b'.len =
      omega (arith, (filled_result w₁ pos).0, first.less, first.in_buffer, after) in
    let again : IsFrame max r₁.mactx_buf = record {
      has_header = frame.has_header;
      word = frame.word;
      fits = omega (arith, frame.fits, w₁.same_size);
    } in
    let queued' : All IsQueued (b' ∷ first.rest) = rw first.bufs at w₁.queued in
    let (j, r₂, runs₂, w₂) = tx_cmd-Written max (b' ∷ first.rest) r₁.mactx_buf again queued' in
    let some₂ = some_packets max j b' first.rest r₁.mactx_buf r₂ w₂ room left in
    let second =
      leads max j b' first.rest r₁.mactx_buf r₂ r₂.all_cmd.cmd_buf refl w₂.writes some₂ left in
    (
      r₁,
      r₂,
      first.n,
      second.n,
      runs₁,
      ap (λ (l : List CmdBuf). tx_cmd max (record { cmd_buf = l }) r₁.mactx_buf) first.bufs ∙ runs₂,
      first.pos,
      second.pos,
      first.reads,
      second.reads,
      refl,
    )
