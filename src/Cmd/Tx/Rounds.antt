-- ===== src/Cmd/Tx/Rounds.antt =====
-- A sender that calls `tx_cmd` of src/cmd_handle.c again and again, and `tx_cmd_indata`.
use a_test.Base.{
  ℕ, zero, suc, ◌+◌, ◌-◌, ◌^◌, ◌≤◌, ◌<◌, ◌≡◌, refl, ap, true, false, List, [], ◌∷◌, arith, ◌==◌,
  All, Bool-cases, inl, inr, ◌⊎◌, ◌≢◌,
}
use a_test.Memory.{Run, ok, ◌>>=◌, Object}
use a_test.Cmd.{CmdBuf, AllCmdBuf, mac_hdr_len, cmd_hdr_len}
use a_test.Cmd.Tx.{TxResult, tx_cmd, tx_cmd_indata}
use a_test.Cmd.Tx.Send.{IsQueued, pending, Sent}
use a_test.Cmd.Tx.Result.{IsFrame, Written, tx_cmd-Written, idle_result, left_full}

-- `n` calls with one limit and one object, and no new command between them.
pub tx_rounds : ℕ → ℕ → AllCmdBuf → Object → Run AllCmdBuf
tx_rounds zero max cmds o = ok cmds
tx_rounds (suc n) max cmds o = tx_cmd max cmds o >>= (λ r. tx_rounds n max r.all_cmd r.mactx_buf)

pub Sent-pending :
    (m : ℕ → ℕ) (at k : ℕ) (bs bs' : List CmdBuf)
    → Sent m at k bs bs'
    → (pending bs' + k ≤ pending bs) × (k ≡ 0 → pending bs' ≡ pending bs)
Sent-pending m at k [] [] s = omega arith
Sent-pending m at k (b ∷ bs) (b' ∷ bs') (inl (same, waits, s)) =
    let rest = Sent-pending m at k bs bs' s in
    let len : b'.len ≡ b.len = ap (λ (x : CmdBuf). x.len) same in
    (omega (arith, rest.0), λ none. omega (arith, rest.1 none))
Sent-pending m at k (b ∷ bs) (b' ∷ bs') (inr (n, j, pos, le, e, count, reads, s)) =
    let rest = Sent-pending m (at + (cmd_hdr_len + n)) j bs bs' s in
    let len : b'.len ≡ b.len - n = ap (λ (x : CmdBuf). x.len) e in
    (omega (arith, rest.0), λ none. absurd (omega arith))
Sent-pending m at k [] (b' ∷ bs') s = absurd s
Sent-pending m at k (b ∷ bs) [] s = absurd s

-- A call with room for a packet's data sends at least one of the bytes that are pending.
pub shrinks :
    (max k : ℕ) (bs : List CmdBuf) (o : Object) (r : TxResult)
    → Written max k bs o r
    → mac_hdr_len + cmd_hdr_len < max
    → 0 < pending bs
    → pending r.all_cmd.cmd_buf < pending bs
shrinks max k bs o r w room some_data =
    let sums = Sent-pending r.mactx_buf.byte mac_hdr_len k bs r.all_cmd.cmd_buf w.writes in
    elim (Bool-cases (k == 0)) [
      | inr some_packets ↦ let pos : 0 < k = ground arith in omega (arith, sums.0)
      | inl none ↦
          let k0 : k ≡ 0 = ground arith in
          let all_left : 0 < pending r.all_cmd.cmd_buf = omega (arith, sums.1 k0) in
          absurd (omega (arith, left_full w all_left room, idle_result w k0))
    ]

-- Whatever is queued goes out: with a limit above 12 bytes, as many calls of `tx_cmd` as bytes are
-- pending, or more, leave nothing to send, and none of them makes an access outside of an object.
pub tx_rounds_drain :
    (n max : ℕ) (bs : List CmdBuf) (o : Object)
    → IsFrame max o
    → mac_hdr_len + cmd_hdr_len < max
    → All IsQueued bs
    → pending bs ≤ n
    → (bs' : List CmdBuf) × (tx_rounds n max (record { cmd_buf = bs }) o
        ≡ ok (record { cmd_buf = bs' }))
      × (pending bs' ≡ 0)
      × All IsQueued bs'
unfolding tx_rounds
tx_rounds_drain zero max bs o frame room queued enough = (bs, refl, omega arith, queued)
tx_rounds_drain (suc n) max bs o frame room queued enough =
    let (k, r, runs, w) = tx_cmd-Written max bs o frame queued in
    let sums = Sent-pending r.mactx_buf.byte mac_hdr_len k bs r.all_cmd.cmd_buf w.writes in
    let smaller : pending r.all_cmd.cmd_buf ≤ n = elim (Bool-cases (pending bs == 0)) [
      | inl none ↦ let nothing : pending bs ≡ 0 = ground arith in omega (arith, sums.0)
      | inr some ↦
          let pos : 0 < pending bs = ground arith in omega (arith, shrinks max k bs o r w room pos)
    ] in
    let again : IsFrame max r.mactx_buf = record {
      has_header = frame.has_header;
      word = frame.word;
      fits = omega (arith, frame.fits, w.same_size);
    } in
    let (bs', loops, done, queued') =
      tx_rounds_drain n max r.all_cmd.cmd_buf r.mactx_buf again room w.queued smaller in
    (bs', rw (runs, loops), done, queued')

-- `tx_cmd_indata` leaves a buffer with bytes to send as it is. Into an empty one it puts a new
-- command of 100 bytes: a first and unfragmented packet with the same type and payload and the next
-- of the 64 indices.
pub tx_cmd_indata_lem :
    (b : CmdBuf)
    → b.cmd_hdr.index < 2 ^ 6
    → ((0 < b.len) × (tx_cmd_indata b ≡ b))
      ⊎ ((b.len ≡ 0)
          × ((tx_cmd_indata b).len ≡ 100)
          × ((tx_cmd_indata b).cmd_hdr.cmd_pdu_type ≡ b.cmd_hdr.cmd_pdu_type)
          × ((tx_cmd_indata b).cmd_hdr.firstpkg ≡ true)
          × ((tx_cmd_indata b).cmd_hdr.fragment ≡ false)
          × ((tx_cmd_indata b).cmd_hdr.sublen ≡ 0)
          × ((tx_cmd_indata b).cmd_hdr.index < 2 ^ 6)
          × ((tx_cmd_indata b).cmd_hdr.index ≢ b.cmd_hdr.index)
          × ((tx_cmd_indata b).payload ≡ b.payload))
unfolding tx_cmd_indata
tx_cmd_indata_lem b small = elim (Bool-cases (b.len == 0)) [
  | inl empty ↦ inr (ground arith)
  | inr some_data ↦ inl (ground arith)
]
