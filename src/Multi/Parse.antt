-- ===== src/Multi/Parse.antt =====
-- The receiving half of the multicast protocol of src/protocol_socket.c: `check_p_hdr_til`,
-- `multi_pdu_rx` and `multi_data_rx`.
use a_test.Base.{
  ℕ, zero, suc, ◌+◌, ◌-◌, ◌^◌, ◌≤◌, ◌<◌, ◌≡◌, refl, true, false, List, [], ◌∷◌, ◌++◌, arith, ◌==◌,
  ltb, leb, if◌then◌else◌,
}
use mathlib.Core.List.{append_assoc, append-nil}
use a_test.Memory.{ok, Object, load_u16, u16_at}
use a_test.Words.{sub32}
use a_test.Multi.{
  multi_head, multi_tail, sizeof_pdu_hdr, sizeof_pdu_til, check_til, check_len, check_p_hdr_til,
  Note, dist_basedata_rcv, dist_len_rcv, rxlen_err, msg_type_err, multi_pdu_rx, rx_loop,
  multi_data_rx,
}

abbrev pub head_at : Object → ℕ → ℕ
head_at buf off = u16_at buf.byte off

abbrev pub len_at : Object → ℕ → ℕ
len_at buf off = u16_at buf.byte (off + 2)

abbrev pub type_at : Object → ℕ → ℕ
type_at buf off = u16_at buf.byte (off + 4)

-- A package of the given type with `body` bytes of data lies at `off`.
pub record LiesAt (buf : Object) (off type body : ℕ) : Type 0 where
  pub head : head_at buf off ≡ multi_head
  pub length_is : len_at buf off ≡ sizeof_pdu_hdr + body + sizeof_pdu_til
  pub typed : type_at buf off ≡ type
  pub tail : u16_at buf.byte (off + sizeof_pdu_hdr + body) ≡ multi_tail
  pub inside : off + (sizeof_pdu_hdr + body + sizeof_pdu_til) ≤ buf.size
  pub small : body < 2 ^ 16

-- The answer to a package: by its type and the size of its data alone.
abbrev pub respond : ℕ → ℕ → Note
respond zero body = if body == 260 then dist_basedata_rcv else rxlen_err body
respond (suc zero) body = if body == 292 then dist_len_rcv else rxlen_err body
respond (suc (suc n)) body = msg_type_err (suc (suc n))

check_lies :
    (buf : Object) (len off type body : ℕ)
    → LiesAt buf off type body
    → off + (sizeof_pdu_hdr + body + sizeof_pdu_til) ≤ len
    → check_p_hdr_til buf len off ≡ ok (sizeof_pdu_hdr + body + sizeof_pdu_til)
unfolding check_p_hdr_til check_len check_til load_u16
check_lies buf len off type body lies fits =
    let at : off + (sizeof_pdu_hdr + body + sizeof_pdu_til) - sizeof_pdu_til
        ≡ off + sizeof_pdu_hdr + body =
      omega arith in
    let a : leb (off + 2) buf.size ≡ true = ground (arith, lies.inside) in
    let b : leb (off + 2 + 2) buf.size ≡ true = ground (arith, lies.inside) in
    let c : leb (sizeof_pdu_hdr + body + sizeof_pdu_til + off) len ≡ true = ground arith in
    let d : leb sizeof_pdu_til (off + (sizeof_pdu_hdr + body + sizeof_pdu_til)) ≡ true =
      ground arith in
    let e : leb (off + sizeof_pdu_hdr + body + 2) buf.size ≡ true = ground (arith, lies.inside) in
    rw (a, lies.head, b, lies.length_is, c, d, at, e, lies.tail)

pdu_lies :
    (buf : Object) (off type body : ℕ)
    → LiesAt buf off type body
    → multi_pdu_rx buf off ≡ ok (respond type body)
unfolding multi_pdu_rx load_u16
pdu_lies buf off type body lies =
    let a : leb (off + 2 + 2) buf.size ≡ true = ground (arith, lies.inside) in
    let b : leb (off + 4 + 2) buf.size ≡ true = ground (arith, lies.inside) in
    let sdu : sub32 (sizeof_pdu_hdr + body + sizeof_pdu_til) (sizeof_pdu_hdr + sizeof_pdu_til)
        ≡ body =
      omega (arith, lies.small) in
    rw (a, b, lies.typed, lies.length_is, sdu) (answers type body)
  where
    answers :
        (type body : ℕ)
        → ok (
            if type == 0
            then if body == 260 then dist_basedata_rcv else rxlen_err body
            else if type == 1
            then if body == 292 then dist_len_rcv else rxlen_err body
            else msg_type_err type)
          ≡ ok (respond type body)
    answers zero body = refl
    answers (suc zero) body = refl
    answers (suc (suc n)) body = ground arith

-- Packages as pairs of a type and the size of the data, one behind the other.
abbrev pub AreLaid : Object → ℕ → List (ℕ × ℕ) → Type 0
AreLaid buf off [] = Unit {0}
AreLaid buf off ((type, body) ∷ ps) =
    LiesAt buf off type body × AreLaid buf (off + (sizeof_pdu_hdr + body + sizeof_pdu_til)) ps

abbrev pub total : List (ℕ × ℕ) → ℕ
total [] = 0
total ((type, body) ∷ ps) = sizeof_pdu_hdr + body + sizeof_pdu_til + total ps

abbrev pub responses : List (ℕ × ℕ) → List Note
responses [] = []
responses ((type, body) ∷ ps) = respond type body ∷ responses ps

loop_parses :
    (ps : List (ℕ × ℕ)) (fuel : ℕ) (buf : Object) (len off : ℕ) (notes : List Note)
    → AreLaid buf off ps
    → len ≡ off + total ps
    → total ps < fuel
    → rx_loop fuel buf len off notes ≡ ok (notes ++ responses ps)
unfolding rx_loop
loop_parses [] zero buf len off notes laid e enough = absurd (omega arith)
loop_parses ((type, body) ∷ ps) zero buf len off notes laid e enough = absurd (omega arith)
loop_parses [] (suc fuel) buf len off notes laid e enough =
    let ends : ltb off len ≡ false = ground arith in rw (ends, append-nil)
loop_parses ((type, body) ∷ ps) (suc fuel) buf len off notes (lies, laid) e enough =
    let size = sizeof_pdu_hdr + body + sizeof_pdu_til in
    let goes_on : ltb off len ≡ true = ground arith in
    let checked = check_lies buf len off type body lies (omega arith) in
    let some : (size == 0) ≡ false = ground arith in
    let rest =
      loop_parses ps fuel buf len (off + size) (notes ++ respond type body ∷ []) laid (omega arith)
        (omega arith) in
    rw (goes_on, checked, some, pdu_lies buf off type body lies, rest, append_assoc)

-- A datagram that consists of packages, each with the head, a length field that counts its header,
-- data and tail, and the tail at its end, is taken apart completely: the loop ends, nothing is
-- reported lost, and the answers are, in the packages' order, the handler of a package of type 0
-- with 260 bytes or of type 1 with 292 bytes of data, and otherwise the message for its fault.
pub multi_data_rx_parses :
    (ps : List (ℕ × ℕ)) (buf : Object) (len : ℕ)
    → AreLaid buf 0 ps
    → len ≡ total ps
    → multi_data_rx buf len ≡ ok (responses ps)
unfolding multi_data_rx
multi_data_rx_parses ps buf len laid e =
    loop_parses ps (suc len) buf len 0 [] laid (omega arith) (omega arith)
