-- ===== src/Cmd/Rx/Packets.antt =====
-- One packet that `rx_cmd_frag_combine` of src/cmd_handle.c puts into a buffer.
use a_test.Base.{
  ℕ, ◌+◌, ◌-◌, ◌≤◌, ◌<◌, ◌≡◌, refl, ap, ◌∙◌, Bool, true, false, not, List, [], ◌∷◌, ◌++◌, arith,
  length, get_elem?, set, some, length-append,
}
use mathlib.Core.List.{}
use a_test.Memory.{
  Run, ok, ◌>>=◌, Object, load, store, memcpy, read, put, read-put_self, read-put_append,
}
use a_test.Cmd.{CmdPdu, CmdBuf, AllCmdBuf, hello_len, cmd_hdr_len}
use a_test.Cmd.Rx.{cover, append, combine, rx_cmd_frag_combine, rx_check_cmddata_complete}

-- A packet as the receiver is given it: its header, and where its data lies.
pub record Packet : Type 0 where
  pub pdu : CmdPdu
  pub src : Object
  pub off : ℕ

-- Each packet is combined and then checked for completeness.
unfoldable pub feed : List Packet → AllCmdBuf → Run (AllCmdBuf × List Bool)
feed [] rx = ok (rx, [])
feed (p ∷ ps) rx = do
  rx' ← rx_cmd_frag_combine p.pdu p.src p.off rx
  complete ← rx_check_cmddata_complete (p.pdu.cmd_pdu_type) rx'
  rest ← feed ps rx'
  ok (rest.0, complete ∷ rest.1)

-- The packet's data are these bytes.
pub record Carries (p : Packet) (bs : List ℕ) : Type 0 where
  pub loads : load p.src p.off (length bs) ≡ ok bs
  pub sized : p.pdu.sublen ≡ length bs + cmd_hdr_len

abbrev pub has_more : List Packet → Bool
has_more [] = false
has_more (p ∷ ps) = true

pub record IsPart (type index : ℕ) (first more : Bool) (p : Packet) (bs : List ℕ) : Type 0 where
  pub carries : Carries p bs
  pub typed : p.pdu.cmd_pdu_type ≡ type
  pub indexed : p.pdu.index ≡ index
  pub is_first : p.pdu.firstpkg ≡ first
  pub fragmented : p.pdu.fragment ≡ more

-- The packets behind the first: none is a first one, and all but the last announce another.
abbrev pub IsRest : ℕ → ℕ → List Packet → List (List ℕ) → Type 0
IsRest type index [] [] = Unit {0}
IsRest type index (p ∷ ps) (c ∷ cs) =
    IsPart type index false (has_more ps) p c × IsRest type index ps cs
IsRest type index _ _ = ⊥

-- A buffer that holds the bytes so far.
pub record Holds (index : ℕ) (more : Bool) (bs : List ℕ) (b : CmdBuf) : Type 0 where
  pub room : b.payload.size ≡ hello_len
  pub counted : b.len ≡ length bs
  pub holds : read b.payload.byte 0 (length bs) ≡ bs
  pub begun : b.cmd_hdr.firstpkg ≡ true
  pub same_index : b.cmd_hdr.index ≡ index
  pub goes_on : b.cmd_hdr.fragment ≡ more

memcpy_lem :
    (dst src : Object) (doff off : ℕ) (bs : List ℕ)
    → load src off (length bs) ≡ ok bs
    → doff + length bs ≤ dst.size
    → memcpy dst doff src off (length bs) ≡ ok (record dst { byte = put dst.byte doff bs })
unfolding memcpy store
memcpy_lem dst src doff off bs h fits = rw h (ground arith)

cover_lem :
    (index : ℕ) (more : Bool) (type : ℕ) (p : Packet) (bs : List ℕ) (b : CmdBuf)
    → IsPart type index true more p bs
    → b.payload.size ≡ hello_len
    → length bs ≤ hello_len
    → (b' : CmdBuf) × (cover p.pdu p.src p.off b ≡ ok b') × Holds index more bs b'
unfolding cover
cover_lem index more type p bs b part room fits =
    let n : p.pdu.sublen - cmd_hdr_len ≡ length bs = omega (arith, part.carries.sized) in
    let copied = memcpy_lem b.payload p.src 0 p.off bs part.carries.loads (omega arith) in
    (
      record b {
        payload = record (b.payload) { byte = put b.payload.byte 0 bs };
        len = length bs;
        cmd_hdr = p.pdu;
      },
      rw (n, copied) (ground (arith, part.carries.sized)),
      record {
        room = room;
        counted = refl;
        holds = read-put_self b.payload.byte 0 bs;
        begun = part.is_first;
        same_index = part.indexed;
        goes_on = part.fragmented;
      },
    )

pub combine_first :
    (index : ℕ) (more : Bool) (type : ℕ) (p : Packet) (bs : List ℕ) (b : CmdBuf)
    → IsPart type index true more p bs
    → b.payload.size ≡ hello_len
    → length bs ≤ hello_len
    → (b' : CmdBuf) × (combine p.pdu p.src p.off b ≡ ok b') × Holds index more bs b'
unfolding combine
combine_first index more type p bs b part room fits =
    let (b', covers, held) = cover_lem index more type p bs b part room fits in
    (b', ground (arith, part.is_first), held)

append_lem :
    (index : ℕ) (more : Bool) (type : ℕ) (p : Packet) (old bs : List ℕ) (b : CmdBuf)
    → IsPart type index false more p bs
    → Holds index true old b
    → length old + length bs ≤ hello_len
    → (b' : CmdBuf) × (append p.pdu p.src p.off b ≡ ok b') × Holds index more (old ++ bs) b'
unfolding append
append_lem index more type p old bs b part held fits =
    let n : p.pdu.sublen - cmd_hdr_len ≡ length bs = omega (arith, part.carries.sized) in
    let copied = memcpy_lem b.payload p.src b.len p.off bs part.carries.loads (omega arith) in
    let total : length (old ++ bs) ≡ b.len + length bs = omega (arith, length-append old bs) in
    let kept : read b.payload.byte 0 b.len ≡ old =
      ap (read b.payload.byte 0) held.counted ∙ held.holds in
    (
      record b {
        payload = record (b.payload) { byte = put b.payload.byte b.len bs };
        len = length (old ++ bs);
        cmd_hdr = record (b.cmd_hdr) { fragment = p.pdu.fragment };
      },
      rw (n, copied) (ground (arith, part.carries.sized, total)),
      record {
        room = held.room;
        counted = refl;
        holds =
            ap (read (put b.payload.byte b.len bs) 0) total
            ∙ read-put_append b.payload.byte b.len bs
            ∙ ap (λ (l : List ℕ). l ++ bs) kept;
        begun = held.begun;
        same_index = held.same_index;
        goes_on = part.fragmented;
      },
    )

pub combine_next :
    (index : ℕ) (more : Bool) (type : ℕ) (p : Packet) (old bs : List ℕ) (b : CmdBuf)
    → IsPart type index false more p bs
    → Holds index true old b
    → 0 < length old
    → length old + length bs ≤ hello_len
    → (b' : CmdBuf) × (combine p.pdu p.src p.off b ≡ ok b') × Holds index more (old ++ bs) b'
unfolding combine
combine_next index more type p old bs b part held some_data fits =
    let (b', appends, held') = append_lem index more type p old bs b part held fits in
    (b', ground (arith, part.is_first, part.indexed), held')

pub rx_combine_lem :
    (p : Packet) (rx : AllCmdBuf) (b b' : CmdBuf)
    → get_elem? rx.cmd_buf p.pdu.cmd_pdu_type ≡ some b
    → combine p.pdu p.src p.off b ≡ ok b'
    → rx_cmd_frag_combine p.pdu p.src p.off rx
      ≡ ok (record { cmd_buf = set rx.cmd_buf p.pdu.cmd_pdu_type b' })
unfolding rx_cmd_frag_combine
rx_combine_lem p rx b b' found e = rw (found, e)

pub check_lem :
    (type index : ℕ) (more : Bool) (bs : List ℕ) (rx : AllCmdBuf) (b : CmdBuf)
    → get_elem? rx.cmd_buf type ≡ some b
    → Holds index more bs b
    → 0 < length bs
    → rx_check_cmddata_complete type rx ≡ ok (not more)
unfolding rx_check_cmddata_complete
check_lem type index more bs rx b found held some_data = rw found (ground arith)
