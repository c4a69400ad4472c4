-- ===== src/Cmd/Rx/Types.antt =====
-- The `default` branch of the switch in `rx_cmd` of src/cmd_handle.c.
use a_test.Base.{
  ℕ, zero, suc, ◌+◌, ◌≤◌, ◌<◌, ◌≡◌, refl, subst, get_elem?-beyond, Bool, true, false, [], arith,
  length, get_elem?, length-set, lt_of_get, some, none, Option, All, All-append, ltb, leb,
  Bool-cases, inl, inr,
}
use a_test.Memory.{ok, fault, >>=-eq-ok, require, from_option, Object, Ensures}
use a_test.Cmd.{CmdPdu, AllCmdBuf, cmd_pdu_at, mac_pdu_at, max_cmd_type, mac_hdr_len, cmd_hdr_len}
use a_test.Cmd.Rx.{
  combine, rx_cmd_frag_combine, rx_check_cmddata_complete, Call, cmd_type_err, rx_hello,
  rx_dist_base, rx_dist_rpt, dispatch, Rx, advance, rx_step, rx_loop, refused, rx_cmd,
}

-- The call is no report of an unknown type.
abbrev pub IsKnown : Call → Type 0
IsKnown (rx_hello rx) = Unit {0}
IsKnown (rx_dist_base rx) = Unit {0}
IsKnown (rx_dist_rpt rx) = Unit {0}
IsKnown (cmd_type_err n) = ⊥

from_option-eq-ok {ℓ} : {A : Type ℓ} (o : Option A) (a : A) → from_option o ≡ ok a → o ≡ some a
from_option-eq-ok none a h = cc
from_option-eq-ok (some x) a h = cc

require-eq-ok : (b : Bool) (u : Unit {0}) → require b ≡ ok u → b ≡ true
require-eq-ok true u h = refl
require-eq-ok false u h = cc

dispatch-IsKnown : (type : ℕ) (rx : AllCmdBuf) → type < max_cmd_type → IsKnown (dispatch type rx)
unfolding dispatch
dispatch-IsKnown zero rx h = tt
dispatch-IsKnown (suc zero) rx h = tt
dispatch-IsKnown (suc (suc zero)) rx h = tt
dispatch-IsKnown (suc (suc (suc n))) rx h = absurd (omega arith)

-- A packet is combined only if its type is an index of the buffers, whose number stays.
combine-length :
    (pdu : CmdPdu) (src : Object) (off : ℕ) (rx rx' : AllCmdBuf)
    → rx_cmd_frag_combine pdu src off rx ≡ ok rx'
    → (pdu.cmd_pdu_type < length rx.cmd_buf) × (length rx'.cmd_buf ≡ length rx.cmd_buf)
unfolding rx_cmd_frag_combine
combine-length pdu src off rx rx' h =
    let (b, found, rest) = >>=-eq-ok _ (from_option (get_elem? rx.cmd_buf pdu.cmd_pdu_type)) h in
    let (b', e, last) = >>=-eq-ok _ (combine pdu src off b) rest in
    (
      lt_of_get rx.cmd_buf pdu.cmd_pdu_type b (from_option-eq-ok _ b found),
      ground (arith, length-set rx.cmd_buf pdu.cmd_pdu_type b'),
    )

abbrev pub IsFine : Rx → Type 0
IsFine s = (length s.bufs.cmd_buf ≡ max_cmd_type) × All IsKnown s.calls

advance-IsFine :
    (pdu : CmdPdu) (rxlen : ℕ) (s : Rx) (bufs : AllCmdBuf) (complete : Bool)
    → pdu.cmd_pdu_type < max_cmd_type
    → length bufs.cmd_buf ≡ max_cmd_type
    → All IsKnown s.calls
    → IsFine (advance pdu rxlen s bufs complete).1
advance-IsFine pdu rxlen s bufs false typed three known = (three, known)
advance-IsFine pdu rxlen s bufs true typed three known =
    (three, All-append IsKnown s.calls _ known (dispatch-IsKnown pdu.cmd_pdu_type bufs typed, tt))

step-IsFine :
    (buf : Object) (rxlen : ℕ) (s : Rx) (r : ℕ × Rx)
    → rx_step buf rxlen s ≡ ok r
    → IsFine s
    → IsFine r.1
unfolding rx_step
step-IsFine buf rxlen s r h fine =
    let pdu = cmd_pdu_at buf.byte (mac_hdr_len + rxlen) in
    let (u, inside, h₁) =
      >>=-eq-ok _ (require (leb (mac_hdr_len + rxlen + cmd_hdr_len) buf.size)) h in
    let (bufs, e, h₂) =
      >>=-eq-ok _ (rx_cmd_frag_combine pdu buf (mac_hdr_len + rxlen + cmd_hdr_len) s.bufs) h₁ in
    let (done, checked, h₃) = >>=-eq-ok _ (rx_check_cmddata_complete pdu.cmd_pdu_type bufs) h₂ in
    let (typed, kept) = combine-length pdu buf (mac_hdr_len + rxlen + cmd_hdr_len) s.bufs bufs e in
    subst (Ensures (λ (t : ℕ × Rx). IsFine t.1)) h₃
      (advance-IsFine pdu rxlen s bufs done (omega arith) (omega arith) fine.1)

loop-IsFine :
    (fuel : ℕ) (buf : Object) (frame_len rxlen : ℕ) (s s' : Rx)
    → rx_loop fuel buf frame_len rxlen s ≡ ok s'
    → IsFine s
    → IsFine s'
unfolding rx_loop
loop-IsFine zero buf frame_len rxlen s s' h fine = cc
loop-IsFine (suc fuel) buf frame_len rxlen s s' h fine = elim (Bool-cases (ltb rxlen frame_len)) [
  | inr ends ↦ subst (Ensures IsFine) (rw (ends, rx_loop) at h) fine
  | inl goes_on ↦
      let (r, steps, rest) = >>=-eq-ok _ (rx_step buf rxlen s) (rw (goes_on, rx_loop) at h) in
      loop-IsFine fuel buf frame_len r.0 r.1 s' rest (step-IsFine buf rxlen s r steps fine)
]

-- With the three buffers of a node, the branch for an unknown type is dead: on no frame does
-- `rx_cmd` report one, since a type of 3 or more has left the array of buffers before.
pub rx_cmd-IsKnown :
    (fuel : ℕ) (buf : Object) (len : ℕ) (rx : AllCmdBuf) (s : Rx)
    → length rx.cmd_buf ≡ max_cmd_type
    → rx_cmd fuel buf len rx ≡ ok s
    → All IsKnown s.calls
unfolding rx_cmd
rx_cmd-IsKnown fuel buf len rx s three h =
    let start : Rx = record { bufs = rx; calls = [] } in
    let (u, inside, h₁) = >>=-eq-ok _ (require (leb mac_hdr_len buf.size)) h in
    elim (Bool-cases (refused (mac_pdu_at buf.byte) len)) [
      | inl refuses ↦ (subst (Ensures IsFine) (rw refuses at h₁) (three, tt)).1
      | inr passes ↦
          (loop-IsFine fuel buf (mac_pdu_at buf.byte).mac_frame_len 0 start s (rw passes at h₁)
            (three, tt)).1
    ]

-- A packet whose type is 3 or more is an access outside of the array of buffers.
pub rx_combine_bad_type :
    (pdu : CmdPdu) (src : Object) (off : ℕ) (rx : AllCmdBuf)
    → length rx.cmd_buf ≤ pdu.cmd_pdu_type
    → rx_cmd_frag_combine pdu src off rx ≡ fault
unfolding rx_cmd_frag_combine
rx_combine_bad_type pdu src off rx h = rw (get_elem?-beyond rx.cmd_buf pdu.cmd_pdu_type h)
