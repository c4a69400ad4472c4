-- ===== src/Conf.antt =====
-- `update_conf` of src/common.c, which writes three addresses into the file of the DHCP server. The
-- file is the list of its bytes, of which none is 0, and it can be opened. The text of `netseg` in
-- decimal is an argument. A read after a write goes on where the write ended.
pub mod Prefix
pub mod Line
pub mod Update
pub mod Rounds
mod Tests
use a_test.Base.{
  ℕ, zero, suc, ◌+◌, ◌-◌, Bool, true, false, List, [], ◌∷◌, ◌++◌, ◌==◌, length, take, drop,
}
use a_test.Exchange.{Text}

-- A line that fgets reads is shorter.
abbrev pub file_buff_len : ℕ
file_buff_len = 1000

-- "start "
abbrev pub start_key : Text
start_key = 115 ∷ 116 ∷ 97 ∷ 114 ∷ 116 ∷ 32 ∷ []

-- "end "
abbrev pub end_key : Text
end_key = 101 ∷ 110 ∷ 100 ∷ 32 ∷ []

-- "opt router "
abbrev pub router_key : Text
router_key = 111 ∷ 112 ∷ 116 ∷ 32 ∷ 114 ∷ 111 ∷ 117 ∷ 116 ∷ 101 ∷ 114 ∷ 32 ∷ []

-- "192.168."
abbrev pub subnet : Text
subnet = 49 ∷ 57 ∷ 50 ∷ 46 ∷ 49 ∷ 54 ∷ 56 ∷ 46 ∷ []

-- ".40"
abbrev pub start_host : Text
start_host = 46 ∷ 52 ∷ 48 ∷ []

-- ".254"
abbrev pub end_host : Text
end_host = 46 ∷ 50 ∷ 53 ∷ 52 ∷ []

-- ".1"
abbrev pub router_host : Text
router_host = 46 ∷ 49 ∷ []

abbrev pub address : Text → Text → Text
address netseg host = subnet ++ netseg ++ host

-- fgets: at most `n` bytes, up to the end of the line, and what is left of the file.
abbrev pub first_byte : ℕ → Text × Text → Text × Text
first_byte b (line, rest) = (b ∷ line, rest)

abbrev pub end_or : Bool → ℕ → Text → Text × Text → Text × Text
end_or true b rest more = (b ∷ [], rest)
end_or false b rest more = first_byte b more

unfoldable pub fgets : ℕ → Text → Text × Text
fgets zero file = ([], file)
fgets (suc n) [] = ([], [])
fgets (suc n) (b ∷ file) = end_or (b == 10) b file (fgets n file)

-- strncmp(line, key, strlen(key)) == 0
abbrev pub both : Bool → Bool → Bool
both true b = b
both false b = false

unfoldable pub is_prefix : Text → Text → Bool
is_prefix [] line = true
is_prefix (k ∷ key) [] = false
is_prefix (k ∷ key) (b ∷ line) = both (k == b) (is_prefix key line)

-- The bytes before the position in the file and those behind it.
abbrev pub File : Type 0
File = Text × Text

-- fseek(fp, -n, SEEK_CUR)
unfoldable pub seek_back : ℕ → File → File
seek_back n (before, after) =
    let at = length before - n in (take at before, drop at before ++ after)

-- fwrite over what is there.
abbrev pub write_over : Text → File → File
write_over val (before, after) = (before ++ val, drop (length val) after)

-- One of the three tests on the line, and what it does.
abbrev pub replace_if : Bool → Text → Text → Text → File → File
replace_if false key val line fp = fp
replace_if true key val line fp = write_over val (seek_back (length line - length key) fp)

abbrev pub replace : Text → Text → Text → File → File
replace key val line fp = replace_if (is_prefix key line) key val line fp

-- The body of the loop.
unfoldable pub conf_line : Text → Text → File → File
conf_line netseg line fp = replace router_key (address netseg router_host) line (
    replace end_key (address netseg end_host) line
      (replace start_key (address netseg start_host) line fp))

-- The loop, for at most so many lines; fgets returns NULL at the end of the file.
abbrev pub next_round : (File → Text) → Text → Text → Text × Text → Text
next_round rest netseg before ([], after) = before ++ after
next_round rest netseg before (b ∷ line, after) =
    rest (conf_line netseg (b ∷ line) (before ++ b ∷ line, after))

unfoldable pub conf_loop : ℕ → Text → File → Text
conf_loop zero netseg (before, after) = before ++ after
conf_loop (suc fuel) netseg (before, after) =
    next_round (conf_loop fuel netseg) netseg before (fgets (file_buff_len - 1) after)

-- The bytes of the file afterwards; a round takes one byte at least.
unfoldable pub update_conf : Text → Text → Text
update_conf netseg file = conf_loop (suc (length file)) netseg ([], file)
