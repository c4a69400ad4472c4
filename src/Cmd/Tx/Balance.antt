-- ===== src/Cmd/Tx/Balance.antt =====
-- The loop of `tx_cmd` of src/cmd_handle.c over the buffers.
use Prim.Native.Nat.{min}
use a_test.Base.{
  ℕ, suc, ◌+◌, ◌-◌, ◌<◌, ◌≡◌, refl, ap, sym, ◌∙◌, true, false, List, [], ◌∷◌, arith, ◌==◌, ltb, All,
  Bool-cases, inl, inr,
}
use a_test.Memory.{ok, read, put, put-below, read_congr, read-put_self}
use a_test.Words.{sub32, to_size}
use a_test.Cmd.{CmdBuf, cmd_hdr_len}
use a_test.Cmd.Tx.{Tx, tx_packet, tx_loop}
use a_test.Cmd.Tx.Send.{
  IsQueued, IsOpen, sent, wire, length-wire, after_packet, tx_packet_lem, pending, Effect, stops,
}

-- What a run of the loop from `t` over `bs` makes.
abbrev pub Loops : ℕ → List CmdBuf → Tx → Type 0
Loops max bs t =
    (k : ℕ) × (bs' : List CmdBuf) × (t' : Tx) × (tx_loop max bs t ≡ ok (bs', t'))
    × Effect max k bs bs' t t'

skips :
    (max : ℕ) (b : CmdBuf) (bs : List CmdBuf) (t : Tx)
    → b.len ≡ 0
    → IsQueued b
    → Loops max bs t
    → Loops max (b ∷ bs) t
unfolding tx_loop
skips max b bs t none queued (k, bs', t', e, rest) =
    let empty : (b.len == 0) ≡ true = ground arith in
    (
      k,
      b ∷ bs',
      t',
      rw (empty, e),
      record {
        ready = rest.ready;
        same_size = rest.same_size;
        queued = (queued, rest.queued);
        balance = omega (arith, rest.balance);
        writes = inl (refl, inl none, rest.writes);
        keeps = rest.keeps;
        idle = rest.idle;
        monotone = rest.monotone;
        grows = rest.grows;
        full = λ h. rest.full (omega arith);
      },
    )

still_there :
    (n : ℕ) (b : CmdBuf) (t : Tx) (m : ℕ → ℕ)
    → ((i : ℕ) → i < t.wlen + (cmd_hdr_len + n) → m i ≡ put t.mactx_buf.byte t.wlen (wire n b) i)
    → read m t.wlen (cmd_hdr_len + n) ≡ wire n b
still_there n b t m keeps =
    read_congr m _ t.wlen (cmd_hdr_len + n) (λ i p q. keeps i q)
    ∙ ap (read (put t.mactx_buf.byte t.wlen (wire n b)) t.wlen) (sym (length-wire b n))
    ∙ read-put_self t.mactx_buf.byte t.wlen (wire n b)

sends :
    (max n : ℕ) (b : CmdBuf) (bs : List CmdBuf) (t : Tx)
    → IsOpen max t
    → IsQueued b
    → 0 < b.len
    → t.wlen + cmd_hdr_len < max
    → n ≡ min b.len (max - t.wlen - cmd_hdr_len)
    → tx_packet (sub32 max t.wlen) b t ≡ ok (sent n b, after_packet n b t)
    → Loops max bs (after_packet n b t)
    → Loops max (b ∷ bs) t
unfolding tx_loop
sends max n b bs t ready queued some_data some_room count packet (k, bs', t', e, rest) =
    let filled : (b.len == 0) ≡ false = ground arith in
    let room : ltb cmd_hdr_len (to_size (sub32 max t.wlen)) ≡ true =
      ground (arith, ready.word, ready.within) in
    let stays = still_there n b t t'.mactx_buf.byte rest.keeps in
    (
      suc k,
      sent n b ∷ bs',
      t',
      rw (filled, room, packet, e),
      record {
        ready = rest.ready;
        same_size = rest.same_size;
        queued =
            (record { room = queued.room; bounded = omega (arith, queued.bounded) }, rest.queued);
        balance = omega (arith, rest.balance);
        writes = inr (n, k, omega arith, omega arith, refl, refl, stays, rest.writes);
        keeps = λ i h.
            ground
              (arith, rest.keeps i (omega arith), put-below t.mactx_buf.byte t.wlen i (wire n b) h);
        idle = λ h. absurd (omega arith);
        monotone = omega (arith, rest.monotone);
        grows = λ _. omega (arith, rest.monotone);
        full = λ h. elim (Bool-cases (pending bs' == 0)) [
          | inl last ↦ let empty : pending bs' ≡ 0 = ground arith in omega (arith, rest.monotone)
          | inr others ↦ let some_left : 0 < pending bs' = ground arith in rest.full some_left
        ];
      },
    )

ends :
    (max : ℕ) (b : CmdBuf) (bs : List CmdBuf) (t : Tx)
    → IsOpen max t
    → (b.len == 0) ≡ false
    → ltb (t.wlen + cmd_hdr_len) max ≡ false
    → tx_loop max (b ∷ bs) t ≡ ok (b ∷ bs, t)
unfolding tx_loop
ends max b bs t ready filled no_room =
    let full : ltb cmd_hdr_len (to_size (sub32 max t.wlen)) ≡ false =
      ground (arith, ready.word, ready.within) in
    rw (filled, full)

-- The loop runs through, from any state in range.
pub loop_runs :
    (max : ℕ) (bs : List CmdBuf) (t : Tx) → IsOpen max t → All IsQueued bs → Loops max bs t
loop_runs max [] t ready queued = (
  0,
  [],
  t,
  unfold tx_loop in refl,
  record {
    ready = ready;
    same_size = refl;
    queued = tt;
    balance = omega arith;
    writes = refl;
    keeps = λ i h. refl;
    idle = λ _. refl;
    monotone = omega arith;
    grows = λ h. absurd (omega arith);
    full = λ h. absurd (omega arith);
  },
)
loop_runs max (b ∷ bs) t ready queued = elim (Bool-cases (b.len == 0)) [
  | inl empty ↦ skips max b bs t (ground arith) queued.0 (loop_runs max bs t ready queued.1)
  | inr filled ↦ elim (Bool-cases (ltb (t.wlen + cmd_hdr_len) max)) [
    | inr no_room ↦ (
      0,
      b ∷ bs,
      t,
      ends max b bs t ready filled no_room,
      stops max (b ∷ bs) t ready queued (ground arith),
    )
    | inl room ↦
        let n = min b.len (max - t.wlen - cmd_hdr_len) in
        let some_data : 0 < b.len = ground arith in
        let some_room : t.wlen + cmd_hdr_len < max = ground arith in
        let packet = tx_packet_lem max n b t ready queued.0 some_data some_room refl in
        let t₁ = after_packet n b t in
        let ready₁ : IsOpen max t₁ = record {
          word = ready.word;
          begun = omega (arith, ready.begun);
          within = omega arith;
          fits = ready.fits;
        } in
        sends max n b bs t ready queued.0 some_data some_room refl packet
          (loop_runs max bs t₁ ready₁ queued.1)
  ]
]
