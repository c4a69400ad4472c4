-- ===== src/Cmd/Tx/Send.antt =====
-- What `tx_cmd` of src/cmd_handle.c writes and what it leaves in the buffers, where the lengths are
-- in range.
use Prim.Native.Nat.{min}
use a_test.Base.{
  ℕ, suc, ◌+◌, ◌-◌, ◌*◌, ◌%◌, ◌^◌, ◌≤◌, ◌<◌, ◌≡◌, refl, ap₂, ◌∙◌, true, false, not, List, [], ◌∷◌,
  ◌++◌, arith, length, ◌==◌, leb, All, inl, inr, ◌⊎◌,
}
use a_test.Memory.{
  ok, Object, load, store, memcpy, read, put, read-append, read_moved, read_congr, length-read,
}
use a_test.Words.{sub32, sub64, to_size}
use a_test.Cmd.{CmdBuf, cmd_pdu_bytes, hello_len, cmd_hdr_len, mac_hdr_len}
use a_test.Cmd.Tx.{from_header, Tx, sublen_for, mark_sent, tx_packet}

-- A buffer with a payload of 4096 bytes that has at most that many to send.
pub record IsQueued (b : CmdBuf) : Type 0 where
  pub room : b.payload.size ≡ hello_len
  pub bounded : b.len ≤ hello_len

-- The limit fits the frame's length field, and the frame the caller's object.
pub record IsOpen (max : ℕ) (t : Tx) : Type 0 where
  pub word : max < 2 ^ 16
  pub begun : mac_hdr_len ≤ t.wlen
  pub within : t.wlen ≤ max
  pub fits : max ≤ t.mactx_buf.size

-- What one packet of `n` bytes of data leaves to send.
abbrev pub sent : ℕ → CmdBuf → CmdBuf
sent n b = record b {
  len = b.len - n;
  cmd_hdr = record (b.cmd_hdr) {
    firstpkg = false;
    fragment = not (b.len - n == 0);
    sublen = n + cmd_hdr_len;
  };
}

-- The packet on the wire: the header as it was before, and the first bytes of the payload.
abbrev pub wire : ℕ → CmdBuf → List ℕ
wire n b = cmd_pdu_bytes b.cmd_hdr ++ read b.payload.byte 0 n

-- The frame with the packet behind what was written before.
abbrev pub after_packet : ℕ → CmdBuf → Tx → Tx
after_packet n b t = record {
  wlen = t.wlen + (cmd_hdr_len + n);
  mactx_buf = record (t.mactx_buf) { byte = put t.mactx_buf.byte t.wlen (wire n b) };
}

read-header : (b : CmdBuf) → read (from_header b).byte 0 cmd_hdr_len ≡ cmd_pdu_bytes b.cmd_hdr
unfolding from_header read
read-header b = refl

read-from_header : (b : CmdBuf) (n : ℕ) → read (from_header b).byte 0 (cmd_hdr_len + n) ≡ wire n b
unfolding from_header
read-from_header b n =
    read-append (from_header b).byte 0 cmd_hdr_len n
    ∙ ap₂ ◌++◌ (read-header b)
        (read_moved (from_header b).byte b.payload.byte cmd_hdr_len 0 n (λ i p. ground arith))

pub length-wire : (b : CmdBuf) (n : ℕ) → length (wire n b) ≡ cmd_hdr_len + n
length-wire b n = omega (arith, length-read b.payload.byte 0 n)

copy_wire :
    (dst : Object) (at n : ℕ) (b : CmdBuf)
    → n ≤ b.payload.size
    → at + (cmd_hdr_len + n) ≤ dst.size
    → memcpy dst at (from_header b) 0 (cmd_hdr_len + n)
      ≡ ok (record dst { byte = put dst.byte at (wire n b) })
unfolding memcpy load store
copy_wire dst at n b h k =
    let inside : leb (0 + (cmd_hdr_len + n)) (from_header b).size ≡ true =
      unfold from_header in ground arith in
    rw (inside, read-from_header b n) (ground (arith, length-wire b n))

pub tx_packet_lem :
    (max n : ℕ) (b : CmdBuf) (t : Tx)
    → IsOpen max t
    → IsQueued b
    → 0 < b.len
    → t.wlen + cmd_hdr_len < max
    → n ≡ min b.len (max - t.wlen - cmd_hdr_len)
    → tx_packet (sub32 max t.wlen) b t ≡ ok (sent n b, after_packet n b t)
unfolding tx_packet mark_sent
tx_packet_lem max n b t ready queued some_data some_room e =
    let remain : sub32 max t.wlen ≡ max - t.wlen = omega (arith, ready.word, ready.within) in
    let length_is : sublen_for (max - t.wlen) b.len ≡ cmd_hdr_len + n =
      ground (arith, ready.word, queued.bounded) in
    let copies =
      copy_wire t.mactx_buf t.wlen n b (omega (arith, queued.room, queued.bounded))
        (omega (arith, ready.fits)) in
    let as_size : to_size (cmd_hdr_len + n) ≡ cmd_hdr_len + n = ground (arith, ready.word) in
    let at : to_size t.wlen ≡ t.wlen = ground (arith, ready.word, ready.within) in
    let left : (b.len + 2 ^ 64 - sub64 (cmd_hdr_len + n) cmd_hdr_len) % 2 ^ 32 ≡ b.len - n =
      omega (arith, queued.bounded, ready.word) in
    let low : (cmd_hdr_len + n) % 2 ^ 16 ≡ n + cmd_hdr_len = omega (arith, ready.word) in
    let next : (t.wlen + (cmd_hdr_len + n)) % 2 ^ 32 ≡ t.wlen + (cmd_hdr_len + n) =
      omega (arith, ready.word) in
    rw (remain, length_is, at, as_size, copies, left, low, next)

abbrev pub pending : List CmdBuf → ℕ
pending [] = 0
pending (b ∷ bs) = b.len + pending bs

-- `k` buffers had a packet with data written, one behind the other from `at` on, and the others
-- stayed as they were; one with data is passed over only if none behind it is sent.
abbrev pub Sent : (ℕ → ℕ) → ℕ → ℕ → List CmdBuf → List CmdBuf → Type 0
Sent m at k [] [] = k ≡ 0
Sent m at k (b ∷ bs) (b' ∷ bs') =
    ((b' ≡ b) × ((b.len ≡ 0) ⊎ (k ≡ 0)) × Sent m at k bs bs')
    ⊎ ((n : ℕ) × (j : ℕ) × (0 < n)
        × (n ≤ b.len)
        × (b' ≡ sent n b)
        × (k ≡ suc j)
        × (read m at (cmd_hdr_len + n) ≡ wire n b)
        × Sent m (at + (cmd_hdr_len + n)) j bs bs')
Sent m at k _ _ = ⊥

-- A write below the packets leaves them as they are.
pub Sent-congr :
    (m m' : ℕ → ℕ) (at k : ℕ) (bs bs' : List CmdBuf)
    → ((i : ℕ) → at ≤ i → m' i ≡ m i)
    → Sent m at k bs bs'
    → Sent m' at k bs bs'
Sent-congr m m' at k [] [] h s = s
Sent-congr m m' at k (b ∷ bs) (b' ∷ bs') h (inl (same, waits, s)) =
    inl (same, waits, Sent-congr m m' at k bs bs' h s)
Sent-congr m m' at k (b ∷ bs) (b' ∷ bs') h (inr (n, j, pos, le, e, count, reads, s)) = inr (
  n,
  j,
  pos,
  le,
  e,
  count,
  read_congr m' m at (cmd_hdr_len + n) (λ i p q. h i p) ∙ reads,
  Sent-congr m m' (at + (cmd_hdr_len + n)) j bs bs' (λ i p. h i (omega arith)) s,
)
Sent-congr m m' at k [] (b' ∷ bs') h s = absurd s
Sent-congr m m' at k (b ∷ bs) [] h s = absurd s

pub record Effect (max k : ℕ) (bs bs' : List CmdBuf) (t t' : Tx) : Type 0 where
  pub ready : IsOpen max t'
  pub same_size : t'.mactx_buf.size ≡ t.mactx_buf.size
  pub queued : All IsQueued bs'
  pub balance : t'.wlen + pending bs' ≡ t.wlen + pending bs + 4 * k
  pub writes : Sent t'.mactx_buf.byte t.wlen k bs bs'
  pub keeps : (i : ℕ) → i < t.wlen → t'.mactx_buf.byte i ≡ t.mactx_buf.byte i
  pub idle : k ≡ 0 → t' ≡ t
  pub monotone : t.wlen ≤ t'.wlen
  pub grows : 0 < k → t.wlen + cmd_hdr_len < t'.wlen
  pub full : 0 < pending bs' → max ≤ t'.wlen + cmd_hdr_len

Sent-refl : (m : ℕ → ℕ) (at : ℕ) (bs : List CmdBuf) → Sent m at 0 bs bs
Sent-refl m at [] = refl
Sent-refl m at (b ∷ bs) = inl (refl, inr refl, Sent-refl m at bs)

-- The loop ends at the first buffer with data that the frame has no room for.
pub stops :
    (max : ℕ) (bs : List CmdBuf) (t : Tx)
    → IsOpen max t
    → All IsQueued bs
    → max ≤ t.wlen + cmd_hdr_len
    → Effect max 0 bs bs t t
stops max bs t ready queued no_room = record {
  ready = ready;
  same_size = refl;
  queued = queued;
  balance = omega arith;
  writes = Sent-refl t.mactx_buf.byte t.wlen bs;
  keeps = λ i h. refl;
  idle = λ _. refl;
  monotone = omega arith;
  grows = λ h. absurd (omega arith);
  full = λ _. no_room;
}
