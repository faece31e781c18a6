-- ===== src/Diff/Lines.antt =====
-- The lines of src/diff.rs and the marker of a trailing newline.
pub mod Joined
use fx_rust.Prelude.{
  ℕ, ◌+◌, Bool, true, false, ◌&&◌, ◌||◌, not, List, [], ◌∷◌, ◌++◌, Option, none, some, ◌==◌,
  if◌then◌else◌, is_empty, chars,
}

abbrev pub Line : Type 0
Line = List ℕ

abbrev pub trailing_newline_removed_marker : Line
trailing_newline_removed_marker = chars "(trailing newline removed)"

abbrev pub trailing_newline_added_marker : Line
trailing_newline_added_marker = chars "(trailing newline added)"

-- `text[start..]` is what was read since the last newline.
unfoldable pub lines_from : Line → List ℕ → List Line
lines_from current [] = if is_empty current then [] else current ∷ []
lines_from current (byte ∷ text) =
    let next = lines_from [] text in
    let longer = lines_from (current ++ byte ∷ []) text in
    if byte == b'\n' then current ∷ next else longer

unfoldable pub append_lines : List ℕ → List Line
unfolding lines_from
append_lines text = lines_from [] text

-- `text.ends_with('\n')`
abbrev pub ends_with_newline : List ℕ → Bool
ends_with_newline [] = false
ends_with_newline (byte ∷ []) = byte == b'\n'
ends_with_newline (byte ∷ next ∷ text) = ends_with_newline (next ∷ text)

abbrev pub same_bool : Bool → Bool → Bool
same_bool true b = b
same_bool false b = not b

unfoldable pub append_trailing_newline_marker : List ℕ → List ℕ → List Line × List Line
unfolding append_lines
append_trailing_newline_marker old_text new_text =
    if is_empty old_text
      || is_empty new_text
      || same_bool (ends_with_newline old_text) (ends_with_newline new_text)
    then (append_lines old_text, append_lines new_text)
    else if ends_with_newline old_text
    then (append_lines old_text ++ trailing_newline_removed_marker ∷ [], append_lines new_text)
    else (append_lines old_text, append_lines new_text ++ trailing_newline_added_marker ∷ [])

unfoldable pub trailing_newline_marker : List ℕ → List ℕ → Bool → Option Line
trailing_newline_marker old_text new_text old_side =
    if is_empty old_text
      || is_empty new_text
      || same_bool (ends_with_newline old_text) (ends_with_newline new_text)
    then none
    else if old_side && ends_with_newline old_text
    then some trailing_newline_removed_marker
    else if not old_side && ends_with_newline new_text
    then some trailing_newline_added_marker
    else none
