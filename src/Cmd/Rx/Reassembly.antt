-- ===== src/Cmd/Rx/Reassembly.antt =====
-- What `rx_cmd_frag_combine` and `rx_check_cmddata_complete` of src/cmd_handle.c make of a command
-- that comes in fragments.
use a_test.Base.{
  ℕ, ◌+◌, ◌≤◌, ◌<◌, ◌≡◌, refl, Bool, true, false, not, List, [], ◌∷◌, ◌++◌, arith, length,
  get_elem?, set, set-set, get-set_here, some, length-append,
}
use mathlib.Core.List.{flatten, append_assoc, append-nil}
use a_test.Memory.{ok, read}
use a_test.Cmd.{CmdBuf, AllCmdBuf, hello_len}
use a_test.Cmd.Rx.{combine, is_complete}
use a_test.Cmd.Rx.Packets.{
  Packet, feed, has_more, IsPart, IsRest, Holds, combine_first, combine_next, rx_combine_lem,
  check_lem,
}

-- The answers of the check: yes behind the last packet only.
abbrev pub last_only : List Packet → List Bool
last_only [] = []
last_only (p ∷ ps) = not (has_more ps) ∷ last_only ps

-- One packet that `combine` puts into the buffer, and then the others.
feed_step :
    (type index : ℕ) (more : Bool) (p : Packet) (ps : List Packet) (bs : List ℕ)
    (bufs : List CmdBuf)
    → (b b' : CmdBuf) → get_elem? bufs type ≡ some b
    → p.pdu.cmd_pdu_type ≡ type
    → combine p.pdu p.src p.off b ≡ ok b'
    → Holds index more bs b'
    → 0 < length bs
    → (r : AllCmdBuf × List Bool) → feed ps (record { cmd_buf = set bufs type b' }) ≡ ok r
    → feed (p ∷ ps) (record { cmd_buf = bufs }) ≡ ok (r.0, not more ∷ r.1)
unfolding feed
feed_step type index more p ps bs bufs b b' found typed e held some_data r rest =
    let there = get-set_here bufs type b b' found in
    let combined = rx_combine_lem p (record { cmd_buf = bufs }) b b' (rw typed found) e in
    let checked =
      check_lem type index more bs (record { cmd_buf = set bufs type b' }) b' there held
        some_data in
    rw (combined, typed, checked, rest)

feed_rest :
    (type index : ℕ) (ps : List Packet) (cs : List (List ℕ)) (old : List ℕ) (bufs : List CmdBuf)
    (b₀ b : CmdBuf)
    → get_elem? bufs type ≡ some b₀
    → Holds index (has_more ps) old b
    → 0 < length old
    → IsRest type index ps cs
    → length old + length (flatten cs) ≤ hello_len
    → (b' : CmdBuf) × (feed ps (record { cmd_buf = set bufs type b })
        ≡ ok (record { cmd_buf = set bufs type b' }, last_only ps))
      × Holds index false (old ++ flatten cs) b'
unfolding flatten
feed_rest type index [] [] old bufs b₀ b found held some_data rest fits =
    (b, unfold feed in refl, rw append-nil held)
feed_rest type index (p ∷ ps) (c ∷ cs) old bufs b₀ b found held some_data (part, rest) fits =
    let there = get-set_here bufs type b₀ b found in
    let (b₁, e, held₁) =
      combine_next index (has_more ps) type p old c b part held some_data
        (omega (arith, length-append c (flatten cs))) in
    let grown : 0 < length (old ++ c) = omega (arith, length-append old c) in
    let (b', fed, held') =
      feed_rest type index ps cs (old ++ c) bufs b₀ b₁ found held₁ grown rest
        (omega (arith, length-append old c, length-append c (flatten cs))) in
    let twice = set-set bufs type b b₁ in
    (
      b',
      feed_step type index (has_more ps) p ps (old ++ c) (set bufs type b) b b₁ there part.typed e
          held₁ grown _ (rw twice fed),
      rw (← append_assoc) held',
    )
feed_rest type index [] (c ∷ cs) old bufs b₀ b found held some_data rest fits = absurd rest
feed_rest type index (p ∷ ps) [] old bufs b₀ b found held some_data rest fits = absurd rest

-- A command of at most 4096 bytes that comes in packets of one type and one index, the first of
-- them marked as first and with data, the others not, and every packet but the last marked as
-- fragmented, is put together whatever the buffers held before: no access leaves an object, the
-- buffer of that type then holds the packets' data in order and counts them, the other buffers are
-- as they were, and the completeness check says no after every packet but the last and yes then.
pub feed_reassembles :
    (type index : ℕ) (p : Packet) (ps : List Packet) (c : List ℕ) (cs : List (List ℕ))
    (bufs : List CmdBuf) (b : CmdBuf)
    → get_elem? bufs type ≡ some b
    → b.payload.size ≡ hello_len
    → IsPart type index true (has_more ps) p c
    → IsRest type index ps cs
    → 0 < length c
    → length c + length (flatten cs) ≤ hello_len
    → (b' : CmdBuf) × (feed (p ∷ ps) (record { cmd_buf = bufs })
        ≡ ok (record { cmd_buf = set bufs type b' }, last_only (p ∷ ps)))
      × (b'.len ≡ length (c ++ flatten cs))
      × (read b'.payload.byte 0 (length (c ++ flatten cs)) ≡ c ++ flatten cs)
      × (is_complete b' ≡ true)
feed_reassembles type index p ps c cs bufs b found room part rest some_data fits =
    let (b₁, e, held₁) = combine_first index (has_more ps) type p c b part room (omega arith) in
    let (b', fed, held') = feed_rest type index ps cs c bufs b b₁ found held₁ some_data rest fits in
    let n = length-append c (flatten cs) in
    (
      b',
      feed_step type index (has_more ps) p ps c bufs b b₁ found part.typed e held₁ some_data _ fed,
      held'.counted,
      held'.holds,
      ground (arith, held'.counted, held'.begun, held'.goes_on, n),
    )
