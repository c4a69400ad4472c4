-- ===== src/Conf/Tests.antt =====
-- The file of the DHCP server of src/common.c.
use a_test.Base.{◌≡◌, refl, inl, inr, List, [], ◌∷◌, ◌++◌, map, All, arith}
use a_test.Exchange.{Text}
use a_test.Conf.{start_key, end_key, update_conf, fgets, is_prefix, seek_back, conf_line, conf_loop}
use a_test.Conf.Line.{FitsAll, replaced}
use a_test.Conf.Rounds.{Runs, update_conf-Runs}
use a_test.Conf.Update.{IsLine, join, update_conf-Replaces}

-- "max", "start 192.168.10.40" and "end 192.168.10.254"
abbrev old_lines : List Text
old_lines =
    (109 ∷ 97 ∷ 120 ∷ [])
    ∷ (start_key ++ 49 ∷ 57 ∷ 50 ∷ 46 ∷ 49 ∷ 54 ∷ 56 ∷ 46 ∷ 49 ∷ 48 ∷ 46 ∷ 52 ∷ 48 ∷ [])
    ∷ (end_key ++ 49 ∷ 57 ∷ 50 ∷ 46 ∷ 49 ∷ 54 ∷ 56 ∷ 46 ∷ 49 ∷ 48 ∷ 46 ∷ 50 ∷ 53 ∷ 52 ∷ [])
    ∷ []

-- "23"
abbrev segment : Text
segment = 50 ∷ 51 ∷ []

-- "max", "start 192.168.23.40" and "end 192.168.23.254"
abbrev new_lines : List Text
new_lines =
    (109 ∷ 97 ∷ 120 ∷ [])
    ∷ (start_key ++ 49 ∷ 57 ∷ 50 ∷ 46 ∷ 49 ∷ 54 ∷ 56 ∷ 46 ∷ 50 ∷ 51 ∷ 46 ∷ 52 ∷ 48 ∷ [])
    ∷ (end_key ++ 49 ∷ 57 ∷ 50 ∷ 46 ∷ 49 ∷ 54 ∷ 56 ∷ 46 ∷ 50 ∷ 51 ∷ 46 ∷ 50 ∷ 53 ∷ 52 ∷ [])
    ∷ []

segment_23 : update_conf segment (join old_lines) ≡ join new_lines
unfolding update_conf fgets is_prefix seek_back conf_line conf_loop
segment_23 = refl

old_lines-IsLine : All IsLine old_lines
old_lines-IsLine = ground arith

old_lines-FitsAll : All (FitsAll segment) old_lines
unfolding is_prefix
old_lines-FitsAll = (
  (inl refl, inl refl, inl refl),
  ((inr refl, inl refl, inl refl), ((inl refl, inr refl, inl refl), tt)),
)

update_conf-Replaces_example :
    update_conf segment (join old_lines) ≡ join (map (replaced segment) old_lines)
update_conf-Replaces_example =
    update_conf-Replaces segment old_lines old_lines-IsLine old_lines-FitsAll

update_conf-Runs_example : Runs segment ([], join old_lines) (update_conf segment (join old_lines))
update_conf-Runs_example = update_conf-Runs segment (join old_lines)
