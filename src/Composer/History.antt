-- ===== src/Composer/History.antt =====
-- The undo and redo of src/input_composer.rs. A stack is a list with its top first. What panics in Rust is `none`.
pub mod Undone
use fx_rust.Prelude.{
  ℕ, ◌+◌, Bool, true, false, ◌&&◌, ◌||◌, not, List, [], ◌∷◌, ◌++◌, Option, none, some, ltb, leb,
  ◌==◌, if◌then◌else◌, length, is_empty,
}
use fx_rust.Prelude.U64.{u64_max}
use fx_rust.Composer.Editor.{EditorState, slice, replace_range}

pub record EditEntry : Type 0 where
  pub start : ℕ
  pub inserted : List ℕ
  pub removed : List ℕ
  pub cursor_before : ℕ
  pub cursor_after : ℕ

pub record EditHistory : Type 0 where
  pub undo_stack : List EditEntry
  pub redo_stack : List EditEntry
  pub coalescing : Bool
  pub last_ts_ms : ℕ

abbrev pub push_entry : EditEntry → Bool → EditHistory → EditHistory
push_entry entry coalesce h = record h {
  undo_stack = entry ∷ h.undo_stack;
  redo_stack = [];
  coalescing = coalesce;
}

-- the new insertion continues the last one
abbrev pub coalesces : EditEntry → EditEntry → Bool
coalesces last entry =
    last.cursor_after == entry.start
    && not (is_empty last.inserted)
    && is_empty last.removed
    && is_empty entry.removed

abbrev record_onto : EditEntry → Bool → EditHistory → List EditEntry → EditHistory
record_onto entry coalesce h [] = push_entry entry coalesce h
record_onto entry coalesce h (last ∷ older) =
    if coalesces last entry
    then record h {
      undo_stack =
          record last {
            inserted = last.inserted ++ entry.inserted;
            cursor_after = entry.cursor_after;
          }
          ∷ older;
    }
    else push_entry entry coalesce h

unfoldable pub record_edit : EditEntry → Bool → EditHistory → EditHistory
record_edit entry coalesce h =
    if coalesce && h.coalescing
    then record_onto entry coalesce h h.undo_stack
    else push_entry entry coalesce h

abbrev pub same_bytes : List ℕ → List ℕ → Bool
same_bytes [] [] = true
same_bytes [] (y ∷ b) = false
same_bytes (x ∷ a) [] = false
same_bytes (x ∷ a) (y ∷ b) = x == y && same_bytes a b

abbrev pub cleared : EditHistory → EditHistory
cleared h = record h { undo_stack = []; redo_stack = [] }

-- `start.checked_add(len).filter(|e| *e <= text_len)`, where the largest number counts as none
abbrev pub has_end : ℕ → ℕ → ℕ → Bool
has_end start len text_len =
    leb (start + len) u64_max && leb (start + len) text_len && not (start + len == u64_max)

-- `&text[start..end] != expected`, then the replacement: `none` is a panic, `some none` a mismatch
abbrev pub swap_slice : List ℕ → ℕ → List ℕ → List ℕ → Option (Option (List ℕ))
swap_slice text start expected new_text =
    if has_end start (length expected) (length text)
    then compare_with (slice text start (start + length expected))
    else some none
  where
    replaced : Option (List ℕ) → Option (Option (List ℕ))
    replaced none = none
    replaced (some next) = some (some next)

    compare_with : Option (List ℕ) → Option (Option (List ℕ))
    compare_with none = none
    compare_with (some found) =
        if same_bytes found expected
        then replaced (replace_range text start (start + length expected) new_text)
        else some none

abbrev pub placed : EditorState → List ℕ → ℕ → EditorState
placed s text cursor = record s { input = text; cursor = cursor; selection_anchor = none }

abbrev pub undone :
    EditHistory
    → EditorState
    → EditEntry
    → List EditEntry
    → Option (Option (List ℕ))
    → Option (EditHistory × EditorState × Bool)
undone h s entry older none = none
undone h s entry older (some none) = some (cleared h, s, false)
undone h s entry older (some (some text)) = some (
  record h { undo_stack = older; redo_stack = entry ∷ h.redo_stack },
  placed s text entry.cursor_before,
  true,
)

abbrev undo_top :
    EditHistory → EditorState → List EditEntry → Option (EditHistory × EditorState × Bool)
undo_top h s [] = some (h, s, false)
undo_top h s (entry ∷ older) =
    undone h s entry older (swap_slice s.input entry.start entry.inserted entry.removed)

unfoldable pub undo : EditHistory → EditorState → Option (EditHistory × EditorState × Bool)
undo h s = undo_top h s h.undo_stack

abbrev pub redone :
    EditHistory
    → EditorState
    → EditEntry
    → List EditEntry
    → Option (Option (List ℕ))
    → Option (EditHistory × EditorState × Bool)
redone h s entry later none = none
redone h s entry later (some none) = some (cleared h, s, false)
redone h s entry later (some (some text)) = some (
  record h { redo_stack = later; undo_stack = entry ∷ h.undo_stack },
  placed s text entry.cursor_after,
  true,
)

abbrev redo_top :
    EditHistory → EditorState → List EditEntry → Option (EditHistory × EditorState × Bool)
redo_top h s [] = some (h, s, false)
redo_top h s (entry ∷ later) =
    redone h s entry later (swap_slice s.input entry.start entry.removed entry.inserted)

unfoldable pub redo : EditHistory → EditorState → Option (EditHistory × EditorState × Bool)
redo h s = redo_top h s h.redo_stack

abbrev pub reset : EditHistory → EditHistory
reset h = record h { undo_stack = []; redo_stack = []; coalescing = false }
