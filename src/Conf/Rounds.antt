-- ===== src/Conf/Rounds.antt =====
-- The loop of `update_conf` in src/common.c on any file, to the line that fgets does not find.
use a_test.Base.{
  ap, subst, ℕ, zero, suc, ◌+◌, ◌-◌, ◌≤◌, ◌<◌, ◌≡◌, ◌≢◌, refl, sym, ◌∙◌, inl, inr, Bool, true,
  false, Bool-cases, [], ◌∷◌, ◌++◌, ◌==◌, arith, length, length-append, length-drop, drop,
}
use mathlib.Core.List.{}
use a_test.Exchange.{Text}
use a_test.Conf.Prefix.{exclusive}
use a_test.Conf.{
  file_buff_len, start_key, end_key, router_key, start_host, end_host, router_host, address, fgets,
  end_or, is_prefix, File, seek_back, write_over, replace_if, replace, conf_line, next_round,
  conf_loop, update_conf,
}

-- A run of the loop with no bound on its rounds: from the file at its position to its bytes in the
-- end.
pub data Runs (netseg : Text) : File → Text → Type 0 where
  ends : (before after : Text) → after ≡ [] → Runs netseg (before, after) (before ++ after)
  round :
      (before after line rest text : Text)
      → fgets (file_buff_len - 1) after ≡ (line, rest)
      → line ≢ []
      → Runs netseg (conf_line netseg line (before ++ line, rest)) text
      → Runs netseg (before, after) text

-- How much is left to read.
abbrev left : File → ℕ
left fp = length fp.1

length-fgets :
    (n : ℕ) (file : Text) → length (fgets n file).0 + length (fgets n file).1 ≡ length file
unfolding fgets
length-fgets zero file = omega arith
length-fgets (suc n) [] = omega arith
length-fgets (suc n) (b ∷ file) = elim (Bool-cases (b == 10)) [
  | inl e ↦ rw e (omega arith)
  | inr e ↦ rw e (omega (arith, length-fgets n file))
]

left-seek_back : (n : ℕ) (fp : File) → left (seek_back n fp) ≤ n + left fp
unfolding seek_back
left-seek_back n (before, after) = omega (
  arith,
  length-append (drop (length before - n) before) after,
  length-drop (length before - n) before,
)

left-write_over : (val : Text) (fp : File) → left (write_over val fp) ≤ left fp
left-write_over val (before, after) = omega (arith, length-drop (length val) after)

-- A test that succeeds goes back over less than the line.
left-replace_if :
    (key val line : Text) (fp : File)
    → left (replace_if true key val line fp) ≤ length line - length key + left fp
left-replace_if key val line fp = omega (
  arith,
  left-write_over val (seek_back (length line - length key) fp),
  left-seek_back (length line - length key) fp,
)

left-replace :
    (key val line : Text) (fp : File)
    → is_prefix key line ≡ true
    → left (replace key val line fp) ≤ length line - length key + left fp
left-replace key val line fp h = rw h (left-replace_if key val line fp)

replace_none :
    (key val line : Text) (fp : File) → is_prefix key line ≡ false → replace key val line fp ≡ fp
replace_none key val line fp h = rw h refl

-- One key at most begins the line.
router_alone :
    (netseg line : Text) (fp : File)
    → is_prefix start_key line ≡ false
    → is_prefix end_key line ≡ false
    → conf_line netseg line fp ≡ replace router_key (address netseg router_host) line fp
unfolding conf_line
router_alone netseg line fp s e = rw (s, e) refl

end_alone :
    (netseg line : Text) (fp : File)
    → is_prefix start_key line ≡ false
    → is_prefix end_key line ≡ true
    → conf_line netseg line fp ≡ replace end_key (address netseg end_host) line fp
unfolding conf_line
end_alone netseg line fp s e =
    let r : is_prefix router_key line ≡ false =
      exclusive 101 111 _ _ line (λ d. absurd (omega (arith, d))) e in
    rw (s, e, r) refl

start_alone :
    (netseg line : Text) (fp : File)
    → is_prefix start_key line ≡ true
    → conf_line netseg line fp ≡ replace start_key (address netseg start_host) line fp
unfolding conf_line
start_alone netseg line fp s =
    let e : is_prefix end_key line ≡ false =
      exclusive 115 101 _ _ line (λ d. absurd (omega (arith, d))) s in
    let r : is_prefix router_key line ≡ false =
      exclusive 115 111 _ _ line (λ d. absurd (omega (arith, d))) s in
    rw (s, e, r) refl

-- A round leaves less to read than there was before it read its line.
left-conf_line :
    (netseg line : Text) (fp : File)
    → 0 < length line
    → left (conf_line netseg line fp) < length line + left fp
left-conf_line netseg line fp some = elim (Bool-cases (is_prefix start_key line)) [
  | inl s ↦ omega (
    arith,
    ap left (start_alone netseg line fp s),
    left-replace start_key (address netseg start_host) line fp s,
  )
  | inr s ↦ elim (Bool-cases (is_prefix end_key line)) [
    | inl e ↦ omega (
      arith,
      ap left (end_alone netseg line fp s e),
      left-replace end_key (address netseg end_host) line fp e,
    )
    | inr e ↦ elim (Bool-cases (is_prefix router_key line)) [
      | inl r ↦ omega (
        arith,
        ap left (router_alone netseg line fp s e),
        left-replace router_key (address netseg router_host) line fp r,
      )
      | inr r ↦ omega (
        arith,
        ap left (
            router_alone netseg line fp s e
            ∙ replace_none router_key (address netseg router_host) line fp r),
      )
    ]
  ]
]

some_line : (c : Bool) (b : ℕ) (rest : Text) (more : Text × Text) → (end_or c b rest more).0 ≢ []
some_line true b rest more = λ e. cc
some_line false b rest (line, more) = λ e. cc

-- fgets finds nothing at the end of the file alone.
empty_read : (n : ℕ) (file rest : Text) → fgets (suc n) file ≡ ([], rest) → file ≡ []
unfolding fgets
empty_read n [] rest h = refl
empty_read n (b ∷ file) rest h =
    absurd (some_line (b == 10) b file (fgets n file) (ap (λ r. r.0) h))

empty_rest : (n : ℕ) (file rest : Text) → fgets (suc n) file ≡ ([], rest) → rest ≡ file
unfolding fgets
empty_rest n [] rest h = sym (ap (λ r. r.1) h)
empty_rest n (b ∷ file) rest h = absurd (cc (empty_read n (b ∷ file) rest h))

-- A round by what fgets has read, where the rounds behind it come to an end.
by_read :
    (fuel : ℕ) (netseg before after : Text)
    → ((fp : File) → length fp.1 < fuel → Runs netseg fp (conf_loop fuel netseg fp))
    → length after < suc fuel
    → (r : Text × Text) → fgets 999 after ≡ r
    → Runs netseg (before, after) (next_round (conf_loop fuel netseg) netseg before r)
by_read fuel netseg before after ih enough ([], rest) e =
    subst (λ t. Runs netseg (before, after) (before ++ t)) (sym (empty_rest 998 after rest e))
      (ends before after (empty_read 998 after rest e))
by_read fuel netseg before after ih enough (b ∷ line, rest) e =
    let fp = conf_line netseg (b ∷ line) (before ++ b ∷ line, rest) in
    let read : length (b ∷ line) + length rest ≡ length after =
      ap (λ r. length r.0 + length r.1) (sym e) ∙ length-fgets 999 after in
    let less = left-conf_line netseg (b ∷ line) (before ++ b ∷ line, rest) (omega arith) in
    round before after (b ∷ line) rest _ e (λ d. cc) (ih fp (omega (arith, read, less, enough)))

loop-Runs :
    (fuel : ℕ) (netseg : Text) (fp : File)
    → length fp.1 < fuel
    → Runs netseg fp (conf_loop fuel netseg fp)
unfolding conf_loop
loop-Runs zero netseg (before, after) enough = absurd (omega arith)
loop-Runs (suc fuel) netseg (before, after) enough =
    by_read fuel netseg before after (λ fp. loop-Runs fuel netseg fp) enough (fgets 999 after) refl

-- For every file and address update_conf comes to the end of the file: the bytes that it leaves
-- are those of a run of its loop that has no bound on the rounds and ends where fgets finds no line.
pub update_conf-Runs : (netseg file : Text) → Runs netseg ([], file) (update_conf netseg file)
unfolding update_conf
update_conf-Runs netseg file = loop-Runs (suc (length file)) netseg ([], file) (omega arith)
