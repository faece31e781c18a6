-- ===== src/Composer/Editor/Edits.antt =====
-- Edits of src/input_composer.rs whose positions are characters' starts: they do not panic, and the positions stay so.
use fx_rust.Prelude.{
  ℕ, zero, suc, ◌+◌, ◌≤◌, ◌≡◌, refl, sym, ap, ◌∙◌, Bool, true, List, [], ◌∷◌, ◌++◌, Option, some,
  none, arith, length, take, drop, append_assoc, length-append, length-take, ◌==◌, leb, min, max,
  inl, inr, Bool-cases, ==_iff,
}
use fx_rust.Composer.Editor.{
  EditorState, is_boundary, starts_char, replace_range, insert_replacing_selection, range_from,
  insert_at,
}

-- The positions of the editor are characters' starts in a text that starts with a character.
abbrev pub at_boundary : List ℕ → Option ℕ → Bool
at_boundary text none = true
at_boundary text (some i) = is_boundary text i

abbrev pub IsEditor : EditorState → Type 0
IsEditor s =
    (starts_char s.input ≡ true)
    × (is_boundary s.input s.cursor ≡ true)
    × (at_boundary s.input s.selection_anchor ≡ true)

boundary_parts :
    (text : List ℕ) (i : ℕ)
    → starts_char text ≡ true
    → is_boundary text i ≡ true
    → (i ≤ length text) × (starts_char (drop i text) ≡ true)
boundary_parts text zero h b = (omega arith, h)
boundary_parts text (suc i) h b = (ground arith, ground arith)

drop_behind : (xs ys : List ℕ) → drop (length xs) (xs ++ ys) ≡ ys
drop_behind [] ys = refl
drop_behind (x ∷ xs) ys = drop_behind xs ys

is_boundary-append :
    (pre rest : List ℕ) → starts_char rest ≡ true → is_boundary (pre ++ rest) (length pre) ≡ true
is_boundary-append pre rest h =
    let fits : leb (length pre) (length (pre ++ rest)) ≡ true =
      ground (arith, length-append pre rest) in
    rw (drop_behind pre rest) (rw h (rw fits (ground arith)))

starts_char-append :
    (a b : List ℕ) → starts_char a ≡ true → starts_char b ≡ true → starts_char (a ++ b) ≡ true
starts_char-append [] b ha hb = hb
starts_char-append (x ∷ a) b ha hb = ha

starts_char-take :
    (text : List ℕ) (i : ℕ) → starts_char text ≡ true → starts_char (take i text) ≡ true
starts_char-take text zero h = refl
starts_char-take [] (suc i) h = refl
starts_char-take (x ∷ text) (suc i) h = h

-- A replaced range of characters.
Replaced : List ℕ → ℕ → ℕ → List ℕ → Type 0
Replaced text start end new_text =
    (next : List ℕ) × (replace_range text start end new_text ≡ some next)
    × (starts_char next ≡ true)
    × (is_boundary next start ≡ true)
    × (is_boundary next (start + length new_text) ≡ true)

replace_range_lem :
    (text new_text : List ℕ) (start end : ℕ)
    → starts_char text ≡ true
    → starts_char new_text ≡ true
    → start ≤ end
    → is_boundary text start ≡ true
    → is_boundary text end ≡ true
    → Replaced text start end new_text
unfolding Replaced
replace_range_lem text new_text start end h h_new le b_start b_end =
    let (start_le, start_char) = boundary_parts text start h b_start in
    let (end_le, end_char) = boundary_parts text end h b_end in
    let rest_char = starts_char-append new_text (drop end text) h_new end_char in
    let size : length (take start text) ≡ start = omega (arith, length-take start text) in
    let size_new : length (take start text ++ new_text) ≡ start + length new_text =
      omega (arith, length-append (take start text) new_text, size) in
    let in_order : leb start end ≡ true = ground arith in
    (
      take start text ++ (new_text ++ drop end text),
      rw in_order (rw b_start (rw b_end refl)),
      starts_char-append (take start text) (new_text ++ drop end text)
          (starts_char-take text start h) rest_char,
      ap (is_boundary (take start text ++ (new_text ++ drop end text))) (sym size)
          ∙ is_boundary-append (take start text) (new_text ++ drop end text) rest_char,
      ap (is_boundary (take start text ++ (new_text ++ drop end text))) (sym size_new)
          ∙ ap (λ t. is_boundary t (length (take start text ++ new_text)))
              (sym (append_assoc (take start text) new_text (drop end text)))
          ∙ is_boundary-append (take start text ++ new_text) (drop end text) end_char,
    )

-- Typing at the cursor; an anchor at the cursor stays where it was.
insert_at_cursor :
    (text : List ℕ) (s : EditorState)
    → starts_char text ≡ true
    → IsEditor s
    → (anchor_stays : (next : List ℕ)
        → is_boundary next s.cursor ≡ true
        → at_boundary next s.selection_anchor ≡ true)
    → (t : EditorState) × (insert_at text s none ≡ some t) × IsEditor t
unfolding Replaced
insert_at_cursor text s h_text (h, b_cursor, b_anchor) anchor_stays =
    let (fits, _) = boundary_parts s.input s.cursor h b_cursor in
    let (next, runs, h_next, b_start, b_end) =
      replace_range_lem s.input text s.cursor s.cursor h h_text (omega arith) b_cursor b_cursor in
    let here : min s.cursor (length s.input) ≡ s.cursor = omega arith in
    (
      record s { input = next; cursor = s.cursor + length text },
      rw here (rw runs refl),
      (h_next, b_end, anchor_stays next b_start),
    )

insert_at_range :
    (text : List ℕ) (s : EditorState) (start end : ℕ)
    → starts_char text ≡ true
    → starts_char s.input ≡ true
    → start ≤ end
    → is_boundary s.input start ≡ true
    → is_boundary s.input end ≡ true
    → (t : EditorState) × (insert_at text s (some (start, end)) ≡ some t) × IsEditor t
unfolding Replaced
insert_at_range text s start end h_text h le b_start b_end =
    let (next, runs, h_next, b_first, b_last) =
      replace_range_lem s.input text start end h h_text le b_start b_end in
    (
      record { input = next; cursor = start + length text; selection_anchor = none },
      rw runs refl,
      (h_next, b_last, refl),
    )

-- One of two positions.
boundary_min :
    (text : List ℕ) (a c : ℕ)
    → is_boundary text a ≡ true
    → is_boundary text c ≡ true
    → is_boundary text (min a c) ≡ true
boundary_min text a c ha hc = elim (Bool-cases (leb a c)) [
  | inl e ↦ let first : min a c ≡ a = ground arith in rw first ha
  | inr e ↦ let second : min a c ≡ c = ground arith in rw second hc
]

boundary_max :
    (text : List ℕ) (a c : ℕ)
    → is_boundary text a ≡ true
    → is_boundary text c ≡ true
    → is_boundary text (max a c) ≡ true
boundary_max text a c ha hc = elim (Bool-cases (leb a c)) [
  | inl e ↦ let second : max a c ≡ c = ground arith in rw second hc
  | inr e ↦ let first : max a c ≡ a = ground arith in rw first ha
]

insert_with_anchor :
    (text : List ℕ) (s : EditorState) (anchor : Option ℕ)
    → s.selection_anchor ≡ anchor
    → starts_char text ≡ true
    → IsEditor s
    → (t : EditorState) × (insert_at text s (range_from s.cursor anchor) ≡ some t) × IsEditor t
insert_with_anchor text s none same h_text editor =
    insert_at_cursor text s h_text editor (λ next b. rw same refl)
insert_with_anchor text s (some a) same h_text (h, b_cursor, b_anchor) =
    let b_a : is_boundary s.input a ≡ true = ap (at_boundary s.input) (sym same) ∙ b_anchor in
    elim (Bool-cases (a == s.cursor)) [
      | inl e ↦
          let at_cursor : a ≡ s.cursor = (==_iff a s.cursor).0 e in
          rw e (
            insert_at_cursor text s h_text (h, b_cursor, b_anchor)
              (λ next b. ap (at_boundary next) same ∙ ap (is_boundary next) at_cursor ∙ b))
      | inr e ↦ rw e (
          insert_at_range text s (min a s.cursor) (max a s.cursor) h_text h (omega arith)
            (boundary_min s.input a s.cursor b_a b_cursor)
            (boundary_max s.input a s.cursor b_a b_cursor))
    ]

-- An insertion does not panic where the cursor and the anchor are starts of characters of the text
-- and the inserted text starts with a character, and they are starts of characters again in the
-- text behind it.
pub insert_replacing_selection-IsEditor :
    (text : List ℕ) (s : EditorState)
    → starts_char text ≡ true
    → IsEditor s
    → (t : EditorState) × (insert_replacing_selection text s ≡ some t) × IsEditor t
unfolding insert_replacing_selection
insert_replacing_selection-IsEditor text s h_text editor =
    insert_with_anchor text s s.selection_anchor refl h_text editor
