-- ===== src/Cmd/Rx/Bounds.antt =====
-- Which packets the receiver of src/cmd_handle.c takes without leaving an object.
use a_test.Base.{
  ℕ, ◌+◌, ◌-◌, ◌≤◌, ◌≡◌, refl, inl, inr, ◌⊎◌, ◌&&◌, true, arith, if◌then◌else◌, ◌==◌, Bool-cases,
  leb,
}
use a_test.Memory.{Run, ok, fault, Object, copy_fits, load, store, memcpy, put, read, length-read}
use a_test.Cmd.{CmdPdu, CmdBuf, hello_len, cmd_hdr_len}
use a_test.Cmd.Rx.{cover, append, continues, combine}

-- Where the packet's data goes.
abbrev pub start : CmdBuf → CmdPdu → ℕ
start b pdu = if b.len == 0 then 0 else if continues b pdu then b.len else 0

-- The length field covers its header, the data lies in the frame, and the buffer has room for it.
pub record Fits (pdu : CmdPdu) (src : Object) (off : ℕ) (b : CmdBuf) (at : ℕ) : Type 0 where
  pub has_header : cmd_hdr_len ≤ pdu.sublen
  pub in_frame : off + (pdu.sublen - cmd_hdr_len) ≤ src.size
  pub in_buffer : at + (pdu.sublen - cmd_hdr_len) ≤ hello_len

-- The two branches of the outcome.
abbrev Branches : CmdPdu → Object → ℕ → CmdBuf → ℕ → Run CmdBuf → Type 0
Branches pdu src off b at r =
    (Fits pdu src off b at
      → (b' : CmdBuf) × (r ≡ ok b')
        × (b'.len ≡ at + (pdu.sublen - cmd_hdr_len))
        × (b'.payload.size ≡ hello_len))
    × (¬ Fits pdu src off b at → r ≡ fault)

copy_faults :
    (dst src : Object) (doff off n : ℕ)
    → ¬ ((off + n ≤ src.size) × (doff + n ≤ dst.size))
    → memcpy dst doff src off n ≡ fault
unfolding memcpy load store
copy_faults dst src doff off n h = elim (Bool-cases (leb (off + n) src.size)) [
  | inr out ↦ rw out
  | inl within ↦ rw within (ground (arith, length-read src.byte off n, h))
]

not_copied :
    (pdu : CmdPdu) (src : Object) (off : ℕ) (b : CmdBuf) (at : ℕ)
    → b.payload.size ≡ hello_len
    → ¬ Fits pdu src off b at
    → leb cmd_hdr_len pdu.sublen ≡ true
    → ¬ (
        (off + (pdu.sublen - cmd_hdr_len) ≤ src.size)
        × (at + (pdu.sublen - cmd_hdr_len) ≤ b.payload.size))
not_copied pdu src off b at room nf enough k =
    nf (record { has_header = ground arith; in_frame = k.0; in_buffer = omega arith })

cover_outcome :
    (pdu : CmdPdu) (src : Object) (off : ℕ) (b : CmdBuf)
    → b.payload.size ≡ hello_len
    → Branches pdu src off b 0 (cover pdu src off b)
unfolding cover
cover_outcome pdu src off b room = (
  λ f.
      let copies =
        copy_fits b.payload src 0 off (pdu.sublen - cmd_hdr_len) f.in_frame
          (omega (arith, f.in_buffer)) in
      (
        record b {
          payload = record (b.payload) {
            byte = put b.payload.byte 0 (read src.byte off (pdu.sublen - cmd_hdr_len));
          };
          len = pdu.sublen - cmd_hdr_len;
          cmd_hdr = pdu;
        },
        ground (arith, copies, f.has_header),
        omega arith,
        room,
      ),
  λ nf. elim (Bool-cases (leb cmd_hdr_len pdu.sublen)) [
    | inr short ↦ rw short
    | inl enough ↦
        let faults =
          copy_faults b.payload src 0 off (pdu.sublen - cmd_hdr_len)
            (not_copied pdu src off b 0 room nf enough) in
        rw (enough, faults)
  ],
)

append_outcome :
    (pdu : CmdPdu) (src : Object) (off : ℕ) (b : CmdBuf)
    → b.payload.size ≡ hello_len
    → Branches pdu src off b b.len (append pdu src off b)
unfolding append
append_outcome pdu src off b room = (
  λ f.
      let copies =
        copy_fits b.payload src b.len off (pdu.sublen - cmd_hdr_len) f.in_frame
          (omega (arith, f.in_buffer)) in
      (
        record b {
          payload = record (b.payload) {
            byte = put b.payload.byte b.len (read src.byte off (pdu.sublen - cmd_hdr_len));
          };
          len = b.len + (pdu.sublen - cmd_hdr_len);
          cmd_hdr = record (b.cmd_hdr) { fragment = pdu.fragment };
        },
        ground (arith, copies, f.has_header, f.in_buffer),
        refl,
        room,
      ),
  λ nf. elim (Bool-cases (leb cmd_hdr_len pdu.sublen)) [
    | inr short ↦ rw short
    | inl enough ↦
        let faults =
          copy_faults b.payload src b.len off (pdu.sublen - cmd_hdr_len)
            (not_copied pdu src off b b.len room nf enough) in
        rw (enough, faults)
  ],
)

combine-Branches :
    (pdu : CmdPdu) (src : Object) (off : ℕ) (b : CmdBuf)
    → b.payload.size ≡ hello_len
    → Branches pdu src off b (start b pdu) (combine pdu src off b)
unfolding combine
combine-Branches pdu src off b room = elim (Bool-cases (b.len == 0)) [
  | inl fresh ↦ rw fresh (cover_outcome pdu src off b room)
  | inr old ↦ elim (Bool-cases (continues b pdu)) [
    | inl goes_on ↦ rw (old, goes_on) (append_outcome pdu src off b room)
    | inr other ↦ rw (old, other) (cover_outcome pdu src off b room)
  ]
]

Fits-cases :
    (pdu : CmdPdu) (src : Object) (off : ℕ) (b : CmdBuf) (at : ℕ)
    → Fits pdu src off b at ⊎ (¬ Fits pdu src off b at)
Fits-cases pdu src off b at =
    let n = pdu.sublen - cmd_hdr_len in
    elim (Bool-cases
      (leb cmd_hdr_len pdu.sublen && leb (off + n) src.size && leb (at + n) hello_len)) [
        | inl within ↦ inl (record {
          has_header = ground arith;
          in_frame = ground arith;
          in_buffer = ground arith;
        })
        | inr outside ↦ inr (λ f. ground (arith, f.has_header, f.in_frame, f.in_buffer))
      ]

-- With the payload at its size, a packet of any header is taken exactly when its length field
-- covers the header, its data lies within the frame, and the data fits behind what the packet
-- continues (or at the start, where it replaces the buffer's contents): then the buffer counts
-- the bytes up to the packet's end. Any other packet makes an access outside of an object.
pub combine_outcome :
    (pdu : CmdPdu) (src : Object) (off : ℕ) (b : CmdBuf)
    → b.payload.size ≡ hello_len
    → (Fits pdu src off b (start b pdu)
        × ((b' : CmdBuf) × (combine pdu src off b ≡ ok b')
            × (b'.len ≡ start b pdu + (pdu.sublen - cmd_hdr_len))
            × (b'.payload.size ≡ hello_len)))
      ⊎ ((¬ Fits pdu src off b (start b pdu)) × (combine pdu src off b ≡ fault))
combine_outcome pdu src off b room =
    let (takes, faults) = combine-Branches pdu src off b room in
    elim (Fits-cases pdu src off b (start b pdu)) [
      | inl fits ↦ inl (fits, takes fits)
      | inr not_fit ↦ inr (not_fit, faults not_fit)
    ]
