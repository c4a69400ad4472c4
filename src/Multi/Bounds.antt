-- ===== src/Multi/Bounds.antt =====
-- `multi_data_rx` of src/protocol_socket.c on any datagram: it ends, and where it stays in bounds.
use a_test.Base.{
  ℕ, zero, suc, ◌+◌, ◌-◌, ◌≤◌, ◌<◌, ◌≡◌, refl, ◌≢◌, true, List, [], ◌∷◌, ◌++◌, arith, ◌==◌, ltb,
  leb, if◌then◌else◌, Bool-cases, inl, inr,
}
use a_test.Memory.{ok, fault, spinning, Object, load_u16, u16_at, Run-cases}
use a_test.Multi.{
  multi_head, multi_tail, sizeof_pdu_til, check_til, check_len, check_p_hdr_til, Note, loss_pkg_len,
  multi_pdu_rx, rx_loop, multi_data_rx,
}
use a_test.Multi.Parse.{head_at, len_at}

check-ne-spinning : (buf : Object) (len off : ℕ) → check_p_hdr_til buf len off ≢ spinning
unfolding check_p_hdr_til check_len check_til load_u16
check-ne-spinning buf len off h = ground arith

pdu-ne-spinning : (buf : Object) (off : ℕ) → multi_pdu_rx buf off ≢ spinning
unfolding multi_pdu_rx load_u16
pdu-ne-spinning buf off h = ground arith

loop_ends :
    (fuel : ℕ) (buf : Object) (len off : ℕ) (notes : List Note)
    → len - off < fuel
    → rx_loop fuel buf len off notes ≢ spinning
unfolding rx_loop
loop_ends zero buf len off notes h = absurd (omega arith)
loop_ends (suc fuel) buf len off notes h = elim (Bool-cases (ltb off len)) [
  | inr ends ↦ rw ends (λ e. cc)
  | inl goes_on ↦ rw goes_on (elim (Run-cases (check_p_hdr_til buf len off)) [
    | inr (inl f) ↦ rw f (λ e. cc)
    | inr (inr s) ↦ absurd (check-ne-spinning buf len off s)
    | inl (n, checked) ↦ rw checked (elim (Bool-cases (n == 0)) [
      | inl lost ↦ rw lost (λ e. cc)
      | inr some ↦ rw some (elim (Run-cases (multi_pdu_rx buf off)) [
        | inr (inl f) ↦ rw f (λ e. cc)
        | inr (inr s) ↦ absurd (pdu-ne-spinning buf off s)
        | inl (note, handled) ↦
            rw handled (loop_ends fuel buf len (off + n) (notes ++ note ∷ []) (ground arith))
      ])
    ])
  ])
]

-- On no datagram and at no length does the receiver keep on going: its `len + 1` rounds are enough.
pub rx_loop_ends : (buf : Object) (len : ℕ) → multi_data_rx buf len ≢ spinning
unfolding multi_data_rx
rx_loop_ends buf len = loop_ends (suc len) buf len 0 [] (omega arith)

-- The check's answer where all that it reads lies in the object.
verdict : Object → ℕ → ℕ → ℕ
verdict buf len off =
    if head_at buf off == multi_head
    then if leb (len_at buf off + off) len
      then if u16_at buf.byte (off + len_at buf off - sizeof_pdu_til) == multi_tail
        then len_at buf off
        else 0
      else 0
    else 0

verdict_facts :
    (buf : Object) (len off : ℕ)
    → 0 < verdict buf len off
    → (head_at buf off ≡ multi_head)
      × (verdict buf len off ≡ len_at buf off)
      × (verdict buf len off + off ≤ len)
unfolding verdict
verdict_facts buf len off h = ground arith

check_runs :
    (buf : Object) (len off : ℕ)
    → off < len
    → len + 5 ≤ buf.size
    → (head_at buf off ≡ multi_head → 2 ≤ off + len_at buf off)
    → check_p_hdr_til buf len off ≡ ok (verdict buf len off)
unfolding verdict check_p_hdr_til check_len check_til load_u16
check_runs buf len off inside room start = ground (arith, start)

pdu_runs :
    (buf : Object) (off len : ℕ)
    → off < len
    → len + 5 ≤ buf.size
    → (note : Note) × (multi_pdu_rx buf off ≡ ok note)
unfolding multi_pdu_rx load_u16
pdu_runs buf off len inside room =
    let a : leb (off + 2 + 2) buf.size ≡ true = ground arith in
    let b : leb (off + 4 + 2) buf.size ≡ true = ground arith in rw (a, b) (_, refl)

loop_safe :
    (fuel : ℕ) (buf : Object) (len off : ℕ) (notes : List Note)
    → len - off < fuel
    → len + 5 ≤ buf.size
    → (off ≡ 0 → head_at buf 0 ≡ multi_head → 2 ≤ len_at buf 0)
    → off ≢ 1
    → (notes' : List Note) × (rx_loop fuel buf len off notes ≡ ok notes')
unfolding rx_loop
loop_safe zero buf len off notes h room start odd = absurd (omega arith)
loop_safe (suc fuel) buf len off notes h room start odd = elim (Bool-cases (ltb off len)) [
  | inr ends ↦ (notes, rw ends)
  | inl goes_on ↦
      let before : off < len = ground arith in
      let checked = check_runs buf len off before room (λ e. ground (arith, start)) in
      elim (Bool-cases (verdict buf len off == 0)) [
        | inl lost ↦ (notes ++ loss_pkg_len (len - off) ∷ [], rw (goes_on, checked, lost))
        | inr some ↦
            let (note, handled) = pdu_runs buf off len before room in
            let facts = verdict_facts buf len off (ground arith) in
            let (notes', rest) =
              loop_safe fuel buf len (off + verdict buf len off) (notes ++ note ∷ [])
                (ground (arith, facts)) room (λ e. absurd (ground (arith, facts)))
                (ground (arith, facts, start)) in
            (notes', rw (goes_on, checked, some, handled, rest))
      ]
]

-- With five bytes of the object behind the data, a datagram that does not start with the head and a
-- length field of 0 or 1 is handled without an access outside of the object.
pub multi_data_rx_safe :
    (buf : Object) (len : ℕ)
    → len + 5 ≤ buf.size
    → (head_at buf 0 ≡ multi_head → 2 ≤ len_at buf 0)
    → (notes : List Note) × (multi_data_rx buf len ≡ ok notes)
unfolding multi_data_rx
multi_data_rx_safe buf len room start =
    loop_safe (suc len) buf len 0 [] (omega arith) room (λ _. start) (omega arith)

-- A datagram that does start so makes `check_p_hdr_til` look for a tail before the buffer's start.
pub multi_data_rx_underrun :
    (buf : Object) (len : ℕ)
    → 0 < len
    → 4 ≤ buf.size
    → head_at buf 0 ≡ multi_head
    → len_at buf 0 < 2
    → multi_data_rx buf len ≡ fault
unfolding multi_data_rx rx_loop check_p_hdr_til check_len check_til load_u16
multi_data_rx_underrun buf len some room head short = ground arith
