-- ===== src/Composer/Editor.antt =====
-- The text of the composer and its selection. A text is the list of its bytes; positions count bytes. What panics in
-- Rust, a slice that does not start and end at characters, is `none`.
pub mod Edits
use fx_rust.Prelude.{
  ℕ, ◌+◌, ◌-◌, min, max, Bool, true, false, ◌&&◌, ◌||◌, not, List, [], ◌∷◌, ◌++◌, Option, none,
  some, ltb, leb, ◌==◌, if◌then◌else◌, length, take, drop, is_some,
}

pub record EditorState : Type 0 where
  pub input : List ℕ
  pub cursor : ℕ
  pub selection_anchor : Option ℕ

-- a byte that continues a character in UTF-8
abbrev pub continues_char : ℕ → Bool
continues_char byte = leb 128 byte && ltb byte 192

abbrev pub starts_char : List ℕ → Bool
starts_char [] = true
starts_char (byte ∷ text) = not (continues_char byte)

-- `text.is_char_boundary(i)`
abbrev pub is_boundary : List ℕ → ℕ → Bool
is_boundary text i = i == 0 || (leb i (length text) && starts_char (drop i text))

-- `start..end` is a range of characters of the text
abbrev pub is_range : List ℕ → ℕ → ℕ → Bool
is_range text start end = leb start end && is_boundary text start && is_boundary text end

-- `&text[start..end]`
abbrev pub slice : List ℕ → ℕ → ℕ → Option (List ℕ)
slice text start end =
    if is_range text start end then some (take (end - start) (drop start text)) else none

-- `text.replace_range(start..end, with)`
abbrev pub replace_range : List ℕ → ℕ → ℕ → List ℕ → Option (List ℕ)
replace_range text start end new_text =
    if is_range text start end then some (take start text ++ (new_text ++ drop end text)) else none

abbrev pub set_text : List ℕ → EditorState → EditorState
set_text text s = record { input = text; cursor = length text; selection_anchor = none }

abbrev pub range_from : ℕ → Option ℕ → Option (ℕ × ℕ)
range_from cursor none = none
range_from cursor (some anchor) =
    if anchor == cursor then none else some (min anchor cursor, max anchor cursor)

unfoldable pub selection_range : EditorState → Option (ℕ × ℕ)
selection_range s = range_from s.cursor s.selection_anchor

abbrev is_at : Option ℕ → ℕ → Bool
is_at none offset = false
is_at (some anchor) offset = anchor == offset

-- each of these returns whether it changed the state
unfoldable pub begin_selection : ℕ → EditorState → EditorState × Bool
begin_selection offset s =
    let at_most = min offset (length s.input) in
    (
      record s { selection_anchor = some at_most; cursor = at_most },
      not (is_at s.selection_anchor at_most) || not (s.cursor == at_most),
    )

unfoldable pub extend_selection : ℕ → EditorState → EditorState × Bool
extend_selection offset s =
    let at_most = min offset (length s.input) in
    if not (is_some s.selection_anchor) || s.cursor == at_most
    then (s, false)
    else (record s { cursor = at_most }, true)

unfoldable pub clear_selection : EditorState → EditorState × Bool
clear_selection s =
    if is_some s.selection_anchor then (record s { selection_anchor = none }, true) else (s, false)

pub data SelectionEdge : Type 0 where
  start_edge : SelectionEdge
  end_edge : SelectionEdge

abbrev edge_of : SelectionEdge → ℕ → ℕ → ℕ
edge_of start_edge start end = start
edge_of end_edge start end = end

abbrev collapse_to : SelectionEdge → EditorState → Option (ℕ × ℕ) → EditorState × Option ℕ
collapse_to edge s none = (s, none)
collapse_to edge s (some (start, end)) =
    (record s { selection_anchor = none; cursor = edge_of edge start end }, some (end - start))

unfoldable pub collapse_selection : SelectionEdge → EditorState → EditorState × Option ℕ
unfolding selection_range
collapse_selection edge s = collapse_to edge s (selection_range s)

-- the text after an edit, the cursor behind it and no selection
abbrev edited : ℕ → Option (List ℕ) → Option EditorState
edited cursor none = none
edited cursor (some text) = some record { input = text; cursor = cursor; selection_anchor = none }

abbrev moved : EditorState → ℕ → Option (List ℕ) → Option EditorState
moved s cursor none = none
moved s cursor (some text) = some record s { input = text; cursor = cursor }

abbrev pub insert_at : List ℕ → EditorState → Option (ℕ × ℕ) → Option EditorState
insert_at text s (some (start, end)) =
    edited (start + length text) (replace_range s.input start end text)
insert_at text s none =
    let at_most = min s.cursor (length s.input) in
    moved s (at_most + length text) (replace_range s.input at_most at_most text)

-- the returned position is the start of the edit, `insert_str(at, text)` replaces the empty range
unfoldable pub insert_replacing_selection : List ℕ → EditorState → Option EditorState
unfolding selection_range
insert_replacing_selection text s = insert_at text s (selection_range s)

abbrev cut_at : EditorState → Option (ℕ × ℕ) → Option (Option (List ℕ) × EditorState)
cut_at s none = some (none, s)
cut_at s (some (start, end)) =
    both (slice s.input start end) (edited start (replace_range s.input start end []))
  where
    both : Option (List ℕ) → Option EditorState → Option (Option (List ℕ) × EditorState)
    both none _ = none
    both (some removed) none = none
    both (some removed) (some t) = some (some removed, t)

unfoldable pub cut_selection : EditorState → Option (Option (List ℕ) × EditorState)
unfolding selection_range
cut_selection s = cut_at s (selection_range s)
