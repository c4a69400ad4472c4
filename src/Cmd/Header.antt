-- ===== src/Cmd/Header.antt =====
-- The packet header of include/cmd_handle.h in memory.
use a_test.Base.{ℕ, suc, ◌+◌, ◌*◌, ◌/◌, ◌%◌, ◌^◌, ◌≡◌, sym, ◌∙◌, Bool, List, ◌++◌, arith}
use a_test.Memory.{read, read-append}
use a_test.Cmd.{CmdPdu, cmd_pdu_at, cmd_pdu_bytes, cmd_hdr_len, IsHeader, bit}

flag_bits : (f g : Bool) (i : ℕ) → (bit f + 2 * bit g + 4 * i) % 2 ≡ bit f
flag_bits f g i = ground arith

fields :
    (m : ℕ → ℕ) (off : ℕ) (p : CmdPdu)
    → IsHeader p
    → m off ≡ p.cmd_pdu_type
    → m (off + 1) ≡ bit p.firstpkg + 2 * bit p.fragment + 4 * p.index
    → m (off + 2) ≡ p.sublen % 2 ^ 8
    → m (off + 2 + 1) ≡ p.sublen / 2 ^ 8
    → cmd_pdu_at m off ≡ p
unfolding cmd_pdu_at
fields m off p ranges a b c d = ground arith

-- Where the four bytes of a header lie in memory, with its fields in their ranges, a read through
-- a `cmd_pdu_t*` gives the header back.
header_decodes :
    (m : ℕ → ℕ) (off : ℕ) (p : CmdPdu)
    → IsHeader p
    → read m off cmd_hdr_len ≡ cmd_pdu_bytes p
    → cmd_pdu_at m off ≡ p
unfolding read
header_decodes m off p ranges e =
    let e₁ : suc off ≡ off + 1 = omega arith in
    let e₂ : suc (suc off) ≡ off + 2 = omega arith in
    let e₃ : suc (suc (suc off)) ≡ off + 2 + 1 = omega arith in
    fields m off p ranges (cc) (cc) (cc) (cc)

append-cancel :
    (m : ℕ → ℕ) (off n : ℕ) (p : CmdPdu) (rest : List ℕ)
    → read m off (cmd_hdr_len + n) ≡ cmd_pdu_bytes p ++ rest
    → read m off cmd_hdr_len ≡ cmd_pdu_bytes p
unfolding read
append-cancel m off n p rest e = let both = sym (read-append m off cmd_hdr_len n) ∙ e in cc both

-- The same for a header with bytes behind it.
pub header_decodes_prefix :
    (m : ℕ → ℕ) (off n : ℕ) (p : CmdPdu) (rest : List ℕ)
    → IsHeader p
    → read m off (cmd_hdr_len + n) ≡ cmd_pdu_bytes p ++ rest
    → cmd_pdu_at m off ≡ p
header_decodes_prefix m off n p rest ranges e =
    header_decodes m off p ranges (append-cancel m off n p rest e)
