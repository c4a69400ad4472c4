-- ===== src/Conf/Update.antt =====
-- What `update_conf` of src/common.c does to a file of lines.
use a_test.Base.{
  ap, ℕ, zero, suc, ◌+◌, ◌≤◌, ◌<◌, ◌≡◌, ◌≢◌, refl, sym, ◌∙◌, inl, inr, List, [], ◌∷◌, ◌++◌, map,
  arith, All, length, length-append,
}
use mathlib.Core.List.{append_assoc}
use a_test.Exchange.{Text}
use a_test.Conf.Prefix.{newline}
use a_test.Conf.Line.{replaced, FitsAll, Rounded, conf_line-Rounded}
use a_test.Conf.{fgets, is_prefix, File, conf_line, conf_loop, update_conf}

-- The bytes of lines.
abbrev pub join : List Text → Text
join [] = []
join (l ∷ ls) = l ++ newline ∷ join ls

-- No end of a line is in the text.
abbrev pub IsLine : Text → Type 0
IsLine l = All (λ b. b ≢ newline) l × (length l < 999)

fgets_line :
    (n : ℕ) (l rest : Text)
    → All (λ b. b ≢ newline) l
    → length l < n
    → fgets n (l ++ newline ∷ rest) ≡ (l ++ newline ∷ [], rest)
unfolding fgets
fgets_line zero l rest plain short = absurd (omega arith)
fgets_line (suc n) [] rest plain short = refl
fgets_line (suc n) (b ∷ l) rest plain short =
    ground (arith, fgets_line n l rest plain.1 (omega arith))

-- A round on a whole line, and one on the end of a line alone.
module _ (netseg before rest : Text) (fuel : ℕ) where
  round_line :
      (l : Text)
      → IsLine l
      → conf_loop (suc fuel) netseg (before, l ++ newline ∷ rest)
        ≡ conf_loop fuel netseg
            (conf_line netseg (l ++ newline ∷ []) (before ++ (l ++ newline ∷ []), rest))
  unfolding conf_loop
  round_line [] (plain, short) = rw (fgets_line 999 [] rest plain short) refl
  round_line (b ∷ l) (plain, short) = rw (fgets_line 999 (b ∷ l) rest plain short) refl

  round_end :
      conf_loop (suc fuel) netseg (before, newline ∷ rest)
      ≡ conf_loop fuel netseg (before ++ newline ∷ [], rest)
  unfolding conf_loop fgets conf_line is_prefix
  round_end = refl

end_of_file :
    (netseg before : Text) (fuel : ℕ) → conf_loop (suc fuel) netseg (before, []) ≡ before ++ []
unfolding conf_loop fgets
end_of_file netseg before fuel = refl

-- The loop behind a line, where it is known for the lines that follow.
module _ (netseg rest done : Text)
    (ih : (before : Text) (fuel : ℕ)
      → length rest < fuel
      → conf_loop fuel netseg (before, rest) ≡ before ++ done) where
  written_next :
      (before new : Text) (fuel : ℕ)
      → suc (length rest) < fuel
      → conf_loop fuel netseg (before ++ new, newline ∷ rest) ≡ before ++ (new ++ newline ∷ done)
  written_next before new zero enough = absurd (omega (arith, enough))
  written_next before new (suc fuel) enough =
      round_end netseg (before ++ new) rest fuel
      ∙ ih ((before ++ new) ++ newline ∷ []) fuel (omega (arith, enough))
      ∙ append_assoc (before ++ new) (newline ∷ []) done
      ∙ append_assoc before new (newline ∷ done)

  Rounded-next :
      (before l : Text) (fuel : ℕ) (fp : File)
      → length l + suc (length rest) ≤ fuel
      → Rounded netseg l before rest fp
      → conf_loop fuel netseg fp ≡ before ++ (replaced netseg l ++ newline ∷ done)
  Rounded-next before l fuel fp enough (inl (e, same)) =
      ap (conf_loop fuel netseg) e
      ∙ ih (before ++ (l ++ newline ∷ [])) fuel (omega (arith, enough))
      ∙ append_assoc before (l ++ newline ∷ []) done
      ∙ ap (λ x. before ++ x) (append_assoc l (newline ∷ []) done)
      ∙ ap (λ x. before ++ (x ++ newline ∷ done)) (sym same)
  Rounded-next before l fuel fp enough (inr (e, pos)) =
      ap (conf_loop fuel netseg) e
      ∙ written_next before (replaced netseg l) fuel (omega (arith, enough, pos))

-- The files that the loop goes through.
conf_loop_lem :
    (netseg before : Text) (fuel : ℕ) (ls : List Text)
    → All IsLine ls
    → All (FitsAll netseg) ls
    → length (join ls) < fuel
    → conf_loop fuel netseg (before, join ls) ≡ before ++ join (map (replaced netseg) ls)
conf_loop_lem netseg before zero ls plain fits enough = absurd (omega (arith, enough))
conf_loop_lem netseg before (suc fuel) [] plain fits enough = end_of_file netseg before fuel
conf_loop_lem netseg before (suc fuel) (l ∷ ls) plain fits enough =
    let rest = join ls in
    let all = length-append l (newline ∷ rest) in
    round_line netseg before rest fuel l plain.0
    ∙ Rounded-next netseg rest (join (map (replaced netseg) ls))
        (λ b f lt. conf_loop_lem netseg b f ls plain.1 fits.1 lt) before l fuel _
        (omega (arith, enough, all)) (conf_line-Rounded netseg l before rest fits.0)

-- Let the file consist of lines that are shorter than 999 bytes, each with its end, and let a line
-- that begins with "start ", "end " or "opt router " have behind it as many bytes as the new address.
-- Then update_conf leaves the file with the new address behind each of these keys, and with every
-- other byte as it was.
pub update_conf-Replaces :
    (netseg : Text) (ls : List Text)
    → All IsLine ls
    → All (FitsAll netseg) ls
    → update_conf netseg (join ls) ≡ join (map (replaced netseg) ls)
unfolding update_conf
update_conf-Replaces netseg ls plain fits =
    conf_loop_lem netseg [] (suc (length (join ls))) ls plain fits (omega arith)
