-- ===== src/Conf/Line.antt =====
-- What a round of `update_conf` of src/common.c does to a line.
use a_test.Base.{
  ap, ◌+◌, ◌-◌, ◌≤◌, ◌≡◌, ◌≢◌, refl, sym, ◌∙◌, ◌⊎◌, inl, inr, true, false, Bool-cases, [], ◌∷◌,
  ◌++◌, arith, All, length, length-append, drop, if◌then◌else◌,
}
use mathlib.Core.List.{append_assoc}
use a_test.Exchange.{Text}
use a_test.Conf.Prefix.{newline, is_prefix_line, suffix_of, exclusive, drop_front, seek_back_lem}
use a_test.Conf.{
  start_key, end_key, router_key, start_host, end_host, router_host, address, is_prefix, File,
  replace, conf_line,
}

-- The key of a line, with the address behind it in place of what was there.
abbrev pub replaced : Text → Text → Text
replaced netseg l =
    if is_prefix start_key l
    then start_key ++ address netseg start_host
    else if is_prefix end_key l
    then end_key ++ address netseg end_host
    else if is_prefix router_key l
    then router_key ++ address netseg router_host
    else l

-- Where the line begins with the key, what is behind it is as long as the new address.
abbrev pub Fits : Text → Text → Text → Type 0
Fits key val l = (is_prefix key l ≡ false) ⊎ (length l ≡ length key + length val)

abbrev pub FitsAll : Text → Text → Type 0
FitsAll netseg l =
    Fits start_key (address netseg start_host) l
    × Fits end_key (address netseg end_host) l
    × Fits router_key (address netseg router_host) l

-- A test that matches: the address is written, and the line's end is still to be read.
replace_hit :
    (key val l before rest : Text)
    → All (λ b. b ≢ newline) key
    → is_prefix key l ≡ true
    → length l ≡ length key + length val
    → replace key val (l ++ newline ∷ []) (before ++ (l ++ newline ∷ []), rest)
      ≡ (before ++ (key ++ val), newline ∷ rest)
replace_hit key val l before rest plain hit fits =
    let (s, e) = suffix_of key l hit in
    let hit' : is_prefix key (l ++ newline ∷ []) ≡ true = is_prefix_line key l plain ∙ hit in
    let tail : Text = s ++ newline ∷ [] in
    let split : before ++ (l ++ newline ∷ []) ≡ (before ++ key) ++ tail =
      ap (λ x. before ++ (x ++ newline ∷ [])) e
      ∙ ap (λ x. before ++ x) (append_assoc key s (newline ∷ []))
      ∙ sym (append_assoc before key tail) in
    let behind : length (l ++ newline ∷ []) - length key ≡ length tail = omega (
      arith,
      length-append l (newline ∷ []),
      length-append s (newline ∷ []),
      ap length e,
      length-append key s,
    ) in
    let width : length val ≡ length s = omega (arith, fits, ap length e, length-append key s) in
    let left : drop (length val) (tail ++ rest) ≡ newline ∷ rest =
      ap (drop (length val)) (append_assoc s (newline ∷ []) rest)
      ∙ ap (λ n. drop n (s ++ newline ∷ rest)) width
      ∙ drop_front s (newline ∷ rest) in
    rw
      (
        hit',
        behind,
        split,
        seek_back_lem (before ++ key) tail rest,
        left,
        append_assoc before key val,
      )
      refl

replace_miss :
    (key val l : Text) (fp : File)
    → All (λ b. b ≢ newline) key
    → is_prefix key l ≡ false
    → replace key val (l ++ newline ∷ []) fp ≡ fp
replace_miss key val l fp plain miss =
    let miss' : is_prefix key (l ++ newline ∷ []) ≡ false = is_prefix_line key l plain ∙ miss in
    rw miss' refl

length_of :
    (key val l : Text)
    → is_prefix key l ≡ true
    → Fits key val l
    → length l ≡ length key + length val
length_of key val l hit (inl miss) = absurd (ground arith)
length_of key val l hit (inr n) = n

-- The keys hold no end of a line.
keys_plain :
    All (λ b. b ≢ newline) start_key
    × All (λ b. b ≢ newline) end_key
    × All (λ b. b ≢ newline) router_key
keys_plain = ground arith

-- A round leaves the line as it was, or with the address and with its end still to be read.
abbrev pub Rounded : Text → Text → Text → Text → File → Type 0
Rounded netseg l before rest fp =
    ((fp ≡ (before ++ (l ++ newline ∷ []), rest)) × (replaced netseg l ≡ l))
    ⊎ ((fp ≡ (before ++ replaced netseg l, newline ∷ rest)) × (1 ≤ length l))

pub conf_line-Rounded :
    (netseg l before rest : Text)
    → FitsAll netseg l
    → Rounded netseg l before rest
        (conf_line netseg (l ++ newline ∷ []) (before ++ (l ++ newline ∷ []), rest))
unfolding conf_line
conf_line-Rounded netseg l before rest (fit_s, fit_e, fit_r) =
    let (plain_s, plain_e, plain_r) = keys_plain in
    let val_s = address netseg start_host in
    let val_e = address netseg end_host in
    let val_r = address netseg router_host in
    let line = l ++ newline ∷ [] in
    let by_end = replace end_key val_e line in
    let by_router = replace router_key val_r line in
    elim (Bool-cases (is_prefix start_key l)) [
      | inl start ↦
          let no_end : is_prefix end_key l ≡ false = exclusive 115 101 _ _ l (omega arith) start in
          let no_router : is_prefix router_key l ≡ false =
            exclusive 115 111 _ _ l (omega arith) start in
          let n = length_of start_key val_s l start fit_s in
          let hit = replace_hit start_key val_s l before rest plain_s start n in
          let whole : replaced netseg l ≡ start_key ++ val_s = rw start refl in
          inr (
            ap (λ fp. by_router (by_end fp)) hit
                ∙ ap by_router (replace_miss end_key val_e l _ plain_e no_end)
                ∙ replace_miss router_key val_r l _ plain_r no_router
                ∙ ap (λ x. (before ++ x, newline ∷ rest)) (sym whole),
            omega (arith, n),
          )
      | inr no_start ↦
          let skip = replace_miss start_key val_s l (before ++ line, rest) plain_s no_start in
          elim (Bool-cases (is_prefix end_key l)) [
            | inl last ↦
                let no_router : is_prefix router_key l ≡ false =
                  exclusive 101 111 _ _ l (omega arith) last in
                let n = length_of end_key val_e l last fit_e in
                let hit = replace_hit end_key val_e l before rest plain_e last n in
                let whole : replaced netseg l ≡ end_key ++ val_e = rw (no_start, last) refl in
                inr (
                  ap (λ fp. by_router (by_end fp)) skip
                      ∙ ap by_router hit
                      ∙ replace_miss router_key val_r l _ plain_r no_router
                      ∙ ap (λ x. (before ++ x, newline ∷ rest)) (sym whole),
                  omega (arith, n),
                )
            | inr no_end ↦
                let skip' = replace_miss end_key val_e l (before ++ line, rest) plain_e no_end in
                let skips = ap (λ fp. by_router (by_end fp)) skip ∙ ap by_router skip' in
                elim (Bool-cases (is_prefix router_key l)) [
                  | inl router ↦
                      let n = length_of router_key val_r l router fit_r in
                      let whole : replaced netseg l ≡ router_key ++ val_r =
                        rw (no_start, no_end, router) refl in
                      inr (
                        skips
                            ∙ replace_hit router_key val_r l before rest plain_r router n
                            ∙ ap (λ x. (before ++ x, newline ∷ rest)) (sym whole),
                        omega (arith, n),
                      )
                  | inr no_router ↦ inl (
                    skips
                        ∙ replace_miss router_key val_r l (before ++ line, rest) plain_r no_router,
                    rw (no_start, no_end, no_router) refl,
                  )
                ]
          ]
    ]
