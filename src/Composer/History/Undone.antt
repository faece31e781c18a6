-- ===== src/Composer/History/Undone.antt =====
-- Undo and redo of recorded edits.
use fx_rust.Prelude.{
  ℕ, ◌+◌, ◌-◌, ◌<◌, ◌≡◌, refl, sym, ap, Bool, true, false, ◌&&◌, List, [], ◌∷◌, ◌++◌, some, arith,
  length, take, drop, is_empty, length-append, append_assoc, ◌==◌, leb,
}
use fx_rust.Prelude.U64.{u64_max}
use fx_rust.Composer.Editor.{EditorState, is_range, is_boundary, starts_char}
use fx_rust.Composer.History.{
  EditEntry, EditHistory, record_edit, undo, swap_slice, has_end, same_bytes, placed,
}

drop-length_append : (xs ys : List ℕ) → drop (length xs) (xs ++ ys) ≡ ys
drop-length_append [] ys = refl
drop-length_append (x ∷ xs) ys = drop-length_append xs ys

take-length_append : (xs ys : List ℕ) → take (length xs) (xs ++ ys) ≡ xs
take-length_append [] ys = refl
take-length_append (x ∷ xs) ys = ap (λ zs. x ∷ zs) (take-length_append xs ys)

same_bytes_self : (a : List ℕ) → same_bytes a a ≡ true
same_bytes_self [] = refl
same_bytes_self (x ∷ a) = ground (arith, same_bytes_self a)

starts_char-append :
    (a b : List ℕ) → starts_char a ≡ true → starts_char b ≡ true → starts_char (a ++ b) ≡ true
starts_char-append [] b ha hb = hb
starts_char-append (x ∷ a) b ha hb = ha

-- Behind `pre` a text has a character boundary where the rest starts with a character.
boundary_behind :
    (pre rest : List ℕ) → starts_char rest ≡ true → is_boundary (pre ++ rest) (length pre) ≡ true
boundary_behind pre rest h =
    let fits : leb (length pre) (length (pre ++ rest)) ≡ true =
      ground (arith, length-append pre rest) in
    rw (drop-length_append pre rest) (rw h (rw fits (ground arith)))

all_three : (a b c : Bool) → a ≡ true → b ≡ true → c ≡ true → (a && b && c) ≡ true
all_three a b c ha hb hc = ground arith

swap_slice_lem :
    (pre a b post : List ℕ)
    → starts_char a ≡ true
    → starts_char post ≡ true
    → length (pre ++ (a ++ post)) < u64_max
    → swap_slice (pre ++ (a ++ post)) (length pre) a b ≡ some (some (pre ++ (b ++ post)))
swap_slice_lem pre a b post ha hpost small =
    let size : length (pre ++ (a ++ post)) ≡ length pre + (length a + length post) =
      omega (arith, length-append pre (a ++ post), length-append a post) in
    let ends : has_end (length pre) (length a) (length (pre ++ (a ++ post))) ≡ true =
      ground (arith, size) in
    let middle : length pre + length a ≡ length (pre ++ a) = sym (length-append pre a) in
    let whole : pre ++ (a ++ post) ≡ (pre ++ a) ++ post = sym (append_assoc pre a post) in
    let range : is_range (pre ++ (a ++ post)) (length pre) (length pre + length a) ≡ true =
      all_three (leb (length pre) (length pre + length a))
        (is_boundary (pre ++ (a ++ post)) (length pre))
        (is_boundary (pre ++ (a ++ post)) (length pre + length a)) (ground arith)
        (boundary_behind pre (a ++ post) (starts_char-append a post ha hpost))
        (rw middle (rw whole (boundary_behind (pre ++ a) post hpost))) in
    let rest_behind : drop (length pre + length a) (pre ++ (a ++ post)) ≡ post =
      rw middle (rw whole (drop-length_append (pre ++ a) post)) in
    let size_a : length pre + length a - length pre ≡ length a = omega arith in
    let found : take (length pre + length a - length pre) (drop (length pre) (pre ++ (a ++ post)))
        ≡ a =
      rw size_a (rw (drop-length_append pre (a ++ post)) (take-length_append a post)) in
    rw ends (
      rw range (
        rw found (
          rw (same_bytes_self a)
            (rw range (rw (take-length_append pre (a ++ post)) (rw rest_behind refl))))))

-- the edit that puts `inserted` in the place of `removed`, behind `pre`
abbrev pub edit_at : List ℕ → List ℕ → List ℕ → ℕ → EditEntry
edit_at pre removed inserted cursor = record {
  start = length pre;
  inserted = inserted;
  removed = removed;
  cursor_before = cursor;
  cursor_after = length pre + length inserted;
}

-- From a history that is not in a run of typing, two insertions behind each other that are recorded
-- as typing, of which the first is not empty and starts with a character, are undone by one step,
-- and the undo history is the one from before them; the text behind them starts with a character,
-- and the whole text is shorter than 2 ^ 64 - 1 bytes.
pub undo_typed :
    (h : EditHistory) (s : EditorState) (pre one two post : List ℕ)
    → h.coalescing ≡ false
    → is_empty one ≡ false
    → starts_char one ≡ true
    → starts_char post ≡ true
    → length (pre ++ ((one ++ two) ++ post)) < u64_max
    → (g : EditHistory) × (undo
          (record_edit
            (edit_at (pre ++ one) [] two (length (pre ++ one)))
            true
            (record_edit (edit_at pre [] one (length pre)) true h))
          (record s { input = pre ++ ((one ++ two) ++ post) })
        ≡ some (g, placed s (pre ++ post) (length pre), true))
      × (g.undo_stack ≡ h.undo_stack)
unfolding undo record_edit
undo_typed h s pre [] two post h_fresh not_empty h_one h_post small = absurd cc
undo_typed h s pre (x ∷ one) two post h_fresh not_empty h_one h_post small =
    let undoes = swap_slice_lem pre (x ∷ one ++ two) [] post h_one h_post small in
    let next : (length pre + length (x ∷ one) == length (pre ++ x ∷ one)) ≡ true =
      ground (arith, length-append pre (x ∷ one)) in
    let merged : EditEntry = record (edit_at pre [] (x ∷ one ++ two) (length pre)) {
      cursor_after = length (pre ++ x ∷ one) + length two;
    } in
    (
      record h { redo_stack = merged ∷ []; coalescing = true },
      rw h_fresh (rw next (rw undoes refl)),
      refl,
    )
