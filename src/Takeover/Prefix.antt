-- ===== src/Takeover/Prefix.antt =====
-- The parser of the prefix key of src/terminal_takeover.rs. A byte is a number.
pub mod Paste
use fx_rust.Prelude.{
  ℕ, zero, suc, ◌+◌, Bool, true, false, ◌||◌, List, [], ◌∷◌, Option, none, some, ◌==◌,
  if◌then◌else◌, get_elem?, length, is_some,
}

abbrev pub control_prefix : ℕ
control_prefix = 0x1d

-- ESC [ 2 0 0 ~ and ESC [ 2 0 1 ~
abbrev pub paste_begin : List ℕ
paste_begin = 0x1b ∷ 91 ∷ 50 ∷ 48 ∷ 48 ∷ 126 ∷ []

abbrev pub paste_end : List ℕ
paste_end = 0x1b ∷ 91 ∷ 50 ∷ 48 ∷ 49 ∷ 126 ∷ []

pub data PrefixAction : Type 0 where
  no_prefix_action : PrefixAction
  detach_action : PrefixAction
  help_action : PrefixAction

pub record PrefixResult : Type 0 where
  pub action : PrefixAction
  pub forwarded : Option ℕ

abbrev pub forward : ℕ → PrefixResult
forward byte = record { action = no_prefix_action; forwarded = some byte }

-- `byte == delimiter[i]`; the read panics where `i` is out of range
abbrev is_at : List ℕ → ℕ → ℕ → Option Bool
is_at delimiter i byte = test (get_elem? delimiter i)
  where
    test : Option ℕ → Option Bool
    test none = none
    test (some there) = some (byte == there)

abbrev pub advance_delimiter : ℕ → ℕ → List ℕ → Option ℕ
advance_delimiter current byte delimiter = first_test (is_at delimiter current byte)
  where
    second_test : Option Bool → Option ℕ
    second_test none = none
    second_test (some true) = some 1
    second_test (some false) = some 0

    first_test : Option Bool → Option ℕ
    first_test none = none
    first_test (some true) = some (current + 1)
    first_test (some false) = second_test (is_at delimiter 0 byte)

pub record PrefixParser : Type 0 where
  pub pending : Bool
  pub in_paste : Bool
  pub begin_match : ℕ
  pub end_match : ℕ

abbrev pub new_parser : PrefixParser
new_parser = record { pending = false; in_paste = false; begin_match = 0; end_match = 0 }

-- the match on the byte behind the prefix
abbrev pub prefixed : ℕ → PrefixResult
prefixed byte =
    if byte == b'd' || byte == b'D'
    then record { action = detach_action; forwarded = none }
    else if byte == b'?'
    then record { action = help_action; forwarded = none }
    else if byte == control_prefix
    then forward control_prefix
    else forward byte

-- `if match == delimiter.len() { flag; match = 0; }`
abbrev pub end_paste : PrefixParser → ℕ → PrefixParser
end_paste parser matched =
    if matched == length paste_end
    then record parser { in_paste = false; end_match = 0 }
    else record parser { end_match = matched }

abbrev pub begin_paste : PrefixParser → ℕ → PrefixParser
begin_paste parser matched =
    if matched == length paste_begin
    then record parser { in_paste = true; begin_match = 0 }
    else record parser { begin_match = matched }

-- the part of `feed` below the paste
abbrev pub key : PrefixParser → ℕ → PrefixParser × PrefixResult
key parser byte =
    if parser.pending
    then (record parser { pending = false }, prefixed byte)
    else if byte == control_prefix
    then (record parser { pending = true }, record { action = no_prefix_action; forwarded = none })
    else (parser, forward byte)

abbrev fed_paste : PrefixParser → ℕ → Option ℕ → Option (PrefixParser × PrefixResult)
fed_paste parser byte none = none
fed_paste parser byte (some matched) = some (end_paste parser matched, forward byte)

abbrev fed_key : PrefixParser → ℕ → Option ℕ → Option (PrefixParser × PrefixResult)
fed_key parser byte none = none
fed_key parser byte (some matched) = some (key (begin_paste parser matched) byte)

-- `none` is the panic of a read out of range
unfoldable pub feed : PrefixParser → ℕ → Option (PrefixParser × PrefixResult)
feed parser byte =
    if parser.in_paste
    then fed_paste parser byte (advance_delimiter parser.end_match byte paste_end)
    else fed_key parser byte (advance_delimiter parser.begin_match byte paste_begin)

abbrev next_results :
    (PrefixParser → Option (PrefixParser × List PrefixResult))
    → Option (PrefixParser × PrefixResult)
    → Option (PrefixParser × List PrefixResult)
next_results later none = none
next_results later (some (parser, result)) = prepend (later parser)
  where
    prepend : Option (PrefixParser × List PrefixResult) → Option (PrefixParser × List PrefixResult)
    prepend none = none
    prepend (some (last, results)) = some (last, result ∷ results)

-- one `feed` after the other
unfoldable pub feed_all : PrefixParser → List ℕ → Option (PrefixParser × List PrefixResult)
unfolding feed
feed_all parser [] = some (parser, [])
feed_all parser (byte ∷ bytes) = next_results (λ next. feed_all next bytes) (feed parser byte)
