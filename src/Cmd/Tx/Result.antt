-- ===== src/Cmd/Tx/Result.antt =====
-- The result of one `tx_cmd` of src/cmd_handle.c.
use a_test.Base.{
  ℕ, ◌+◌, ◌-◌, ◌*◌, ◌%◌, ◌^◌, ◌≤◌, ◌<◌, ◌≡◌, refl, ap, sym, true, false, List, arith, length, ◌==◌,
  leb, All, Bool-cases, ◌⊎◌, inl, inr,
}
use a_test.Memory.{ok, Object, store, put, put-above}
use a_test.Words.{sub32}
use a_test.Cmd.{CmdBuf, MacPdu, mac_pdu_at, mac_hdr_len, cmd_hdr_len}
use a_test.Cmd.Tx.{Tx, tx_loop, mac_pdu_bytes, TxResult, tx_cmd}
use a_test.Cmd.Tx.Send.{IsQueued, IsOpen, pending, Sent, Sent-congr, Effect}
use a_test.Cmd.Tx.Balance.{loop_runs}

-- A caller's limit and object: the limit holds a MAC header, fits the length field and the object.
pub record IsFrame (max : ℕ) (o : Object) : Type 0 where
  pub has_header : mac_hdr_len ≤ max
  pub word : max < 2 ^ 16
  pub fits : max ≤ o.size

-- `k` packets of the buffers `bs` were written to a frame of at most `max` bytes.
pub record Written (max k : ℕ) (bs : List CmdBuf) (o : Object) (r : TxResult) : Type 0 where
  pub writes : Sent r.mactx_buf.byte mac_hdr_len k bs r.all_cmd.cmd_buf
  pub queued : All IsQueued r.all_cmd.cmd_buf
  pub same_size : r.mactx_buf.size ≡ o.size
  pub tally :
      ((k ≡ 0) × (r.remaining ≡ max) × (r.mactx_buf ≡ o))
      ⊎ ((0 < k)
          × (max + pending r.all_cmd.cmd_buf ≡ r.remaining + mac_hdr_len + pending bs + 4 * k)
          × (mac_pdu_at r.mactx_buf.byte
              ≡ record { mac_pdu_type = 0o1010101; mac_frame_len = max - r.remaining; crc = 1 }))
  pub in_limit : r.remaining ≤ max
  pub full : (pending r.all_cmd.cmd_buf ≡ 0) ⊎ (max ≤ mac_hdr_len + cmd_hdr_len) ⊎ (r.remaining ≤ 4)

module _ {max k : ℕ} {bs : List CmdBuf} {o : Object} {r : TxResult} (w : Written max k bs o r) where
  pub idle_result : k ≡ 0 → r.remaining ≡ max
  idle_result none = elim w.tally [
    | inl (_, same, _) ↦ same
    | inr (some, _, _) ↦ absurd (omega arith)
  ]

  pub filled_result :
      0 < k
      → (max + pending r.all_cmd.cmd_buf ≡ r.remaining + mac_hdr_len + pending bs + 4 * k)
        × (mac_pdu_at r.mactx_buf.byte
            ≡ record { mac_pdu_type = 0o1010101; mac_frame_len = max - r.remaining; crc = 1 })
  filled_result some = elim w.tally [
    | inl (none, _, _) ↦ absurd (omega arith)
    | inr (_, a, b) ↦ (a, b)
  ]

  pub left_full : 0 < pending r.all_cmd.cmd_buf → mac_hdr_len + cmd_hdr_len < max → r.remaining ≤ 4
  left_full left room = elim w.full [
    | inl none ↦ absurd (omega arith)
    | inr (inl small) ↦ absurd (omega arith)
    | inr (inr few) ↦ few
  ]

header_reads : (m : ℕ → ℕ) (mac : MacPdu) → mac_pdu_at (put m 0 (mac_pdu_bytes mac)) ≡ mac
unfolding mac_pdu_at put
header_reads m mac = ground arith

module _ (max : ℕ) (bs bs' : List CmdBuf) (o : Object) (t : Tx) (k : ℕ) (frame : IsFrame max o)
    (e : tx_loop max bs (record { wlen = mac_hdr_len; mactx_buf = o }) ≡ ok (bs', t))
    (effect : Effect max k bs bs' (record { wlen = mac_hdr_len; mactx_buf = o }) t) where
  no_room : (pending bs' ≡ 0) ⊎ (max ≤ t.wlen + cmd_hdr_len)
  no_room = elim (Bool-cases (pending bs' == 0)) [
    | inl all_sent ↦ inl (ground arith)
    | inr some_left ↦ let left : 0 < pending bs' = ground arith in inr (effect.full left)
  ]

  idle_frame :
      k ≡ 0
      → (r : TxResult) × (tx_cmd max (record { cmd_buf = bs }) o ≡ ok r) × Written max k bs o r
  unfolding tx_cmd
  idle_frame none =
      let same = effect.idle none in
      (
        record { remaining = max; all_cmd = record { cmd_buf = bs' }; mactx_buf = o },
        rw (e, same),
        record {
          writes =
              Sent-congr t.mactx_buf.byte o.byte mac_hdr_len k bs bs'
                (λ i h. ap (λ (s : Tx). s.mactx_buf.byte i) (sym same)) effect.writes;
          queued = effect.queued;
          same_size = refl;
          tally = inl (none, refl, refl);
          in_limit = omega arith;
          full = elim no_room [
            | inl all_sent ↦ inl all_sent
            | inr tight ↦ inr (inl (ground (arith, same, tight)))
          ];
        },
      )

  filled_frame :
      0 < k
      → (r : TxResult) × (tx_cmd max (record { cmd_buf = bs }) o ≡ ok r) × Written max k bs o r
  unfolding tx_cmd store
  filled_frame some_packets =
      let grown = effect.grows some_packets in
      let more : (t.wlen == mac_hdr_len) ≡ false = ground (arith, grown) in
      let low : t.wlen % 2 ^ 16 ≡ t.wlen = omega (arith, effect.ready.within, frame.word) in
      let mac : MacPdu = record { mac_pdu_type = 0o1010101; mac_frame_len = t.wlen; crc = 1 } in
      let rest : sub32 max t.wlen ≡ max - t.wlen = omega (arith, effect.ready.within, frame.word) in
      let stored : leb (0 + length (mac_pdu_bytes mac)) t.mactx_buf.size ≡ true =
        ground (arith, effect.ready.fits, frame.has_header) in
      (
        record {
          remaining = max - t.wlen;
          all_cmd = record { cmd_buf = bs' };
          mactx_buf = record (t.mactx_buf) { byte = put t.mactx_buf.byte 0 (mac_pdu_bytes mac) };
        },
        rw (e, more, low, rest, stored),
        record {
          writes =
              Sent-congr t.mactx_buf.byte _ mac_hdr_len k bs bs'
                (λ i h. put-above t.mactx_buf.byte 0 i (mac_pdu_bytes mac) (omega arith))
                effect.writes;
          queued = effect.queued;
          same_size = effect.same_size;
          tally =
              let framed : t.wlen ≡ max - (max - t.wlen) = omega (arith, effect.ready.within) in
              inr (
                some_packets,
                omega (arith, effect.balance, effect.ready.within),
                rw (← framed) (header_reads t.mactx_buf.byte mac),
              );
          in_limit = omega arith;
          full = elim no_room [ inl all_sent ↦ inl all_sent | inr tight ↦ inr (inr (omega arith)) ];
        },
      )

-- For a limit of 8 to 65535 bytes that lies in the caller's object, and buffers of at most 4096
-- bytes each, `tx_cmd` runs without an access outside of an object. Each buffer either stays as it
-- was or has a packet written: behind the MAC header, one packet after the other, lie the buffer's
-- header as it was before the call and the first bytes of its payload, and the buffer then counts
-- the bytes that are left, with its flags and its packet length set for them. Where no packet
-- is written the whole limit is returned and the object is untouched; where some are, the bytes
-- still pending, the limit and the rest returned balance with 8 bytes for the frame and 4 for each
-- packet, and the MAC header says a length of the limit less the rest. Bytes stay pending under a
-- limit above 12 only if the rest is at most 4 bytes.
pub tx_cmd-Written :
    (max : ℕ) (bs : List CmdBuf) (o : Object)
    → IsFrame max o
    → All IsQueued bs
    → (k : ℕ) × (r : TxResult) × (tx_cmd max (record { cmd_buf = bs }) o ≡ ok r)
      × Written max k bs o r
tx_cmd-Written max bs o frame queued =
    let start : IsOpen max (record { wlen = mac_hdr_len; mactx_buf = o }) = record {
      word = frame.word;
      begun = omega arith;
      within = frame.has_header;
      fits = frame.fits;
    } in
    let (k, bs', t, e, effect) = loop_runs max bs _ start queued in
    elim (Bool-cases (k == 0)) [
      | inl none ↦
          let (r, runs, written) = idle_frame max bs bs' o t k frame e effect (ground arith) in
          (k, r, runs, written)
      | inr some_packets ↦
          let (r, runs, written) = filled_frame max bs bs' o t k frame e effect (ground arith) in
          (k, r, runs, written)
    ]
