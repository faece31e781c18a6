-- ===== src/Tests/Composer.antt =====
-- Concrete edits of src/input_composer.rs.
use fx_rust.Prelude.{◌≡◌, refl, [], ◌∷◌, ◌++◌, true, false, some, none, chars, length, arith}
use fx_rust.Composer.Editor.{EditorState, insert_replacing_selection}
use fx_rust.Composer.Editor.Edits.{IsEditor, insert_replacing_selection-IsEditor}
use fx_rust.Composer.History.{EditHistory, record_edit, undo, placed}
use fx_rust.Composer.History.Undone.{edit_at, undo_typed}
use fx_rust.Composer.KillRing.{new_ring, yank, finish_kill}
use fx_rust.Composer.KillRing.Bounds.{
  kills, rotates, finishes, IsRing, apply_ops, kill_all, concat, new_ring-IsRing, yank-kill_all,
}

abbrev no_history : EditHistory
no_history = record { undo_stack = []; redo_stack = []; coalescing = false; last_ts_ms = 0 }

abbrev editor : EditorState
editor = record { input = chars "go on"; cursor = 2; selection_anchor = some 0 }

insert_replacing_selection-IsEditor_example :
    (t : EditorState) × (insert_replacing_selection (chars "run") editor ≡ some t) × IsEditor t
insert_replacing_selection-IsEditor_example =
    insert_replacing_selection-IsEditor (chars "run") editor refl (refl, refl, refl)

-- A selection that begins at the cursor stays when text is inserted, and the next insertion replaces it.
abbrev clicked : EditorState
clicked = record { input = []; cursor = 0; selection_anchor = some 0 }

first_letter :
    insert_replacing_selection (chars "a") clicked
    ≡ some record { input = chars "a"; cursor = 1; selection_anchor = some 0 }
unfolding insert_replacing_selection
first_letter = refl

second_letter :
    insert_replacing_selection
      (chars "b")
      (record { input = chars "a"; cursor = 1; selection_anchor = some 0 })
    ≡ some record { input = chars "b"; cursor = 1; selection_anchor = none }
unfolding insert_replacing_selection
second_letter = refl

undo_typed_example :
    (g : EditHistory) × (undo
        (record_edit
          (edit_at (chars "go" ++ chars "n") [] (chars "e") (length (chars "go" ++ chars "n")))
          true
          (record_edit (edit_at (chars "go") [] (chars "n") (length (chars "go"))) true no_history))
        (record editor { input = chars "go" ++ ((chars "n" ++ chars "e") ++ chars "!") })
      ≡ some (g, placed editor (chars "go" ++ chars "!") (length (chars "go")), true))
    × (g.undo_stack ≡ no_history.undo_stack)
undo_typed_example =
    undo_typed no_history editor (chars "go") (chars "n") (chars "e") (chars "!") refl refl refl
      refl (omega arith)

new_ring-IsRing_example :
    IsRing
      (apply_ops (new_ring 1) (kills (chars "a") ∷ finishes ∷ kills (chars "b") ∷ rotates ∷ []))
new_ring-IsRing_example =
    new_ring-IsRing 1 (kills (chars "a") ∷ finishes ∷ kills (chars "b") ∷ rotates ∷ [])

yank-kill_all_example :
    yank (kill_all (finish_kill (new_ring 2)) (chars "ab" ∷ chars "c" ∷ []))
    ≡ some (concat (chars "ab" ∷ chars "c" ∷ []))
yank-kill_all_example = yank-kill_all (new_ring 2) b'a' (b'b' ∷ []) (chars "c" ∷ []) (omega arith)
