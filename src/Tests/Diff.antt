-- ===== src/Tests/Diff.antt =====
-- Concrete texts for src/diff.rs, one with a line that the other lacks and without its last newline.
use fx_rust.Prelude.{ℕ, ◌≤◌, ◌≡◌, refl, List, [], ◌∷◌, ◌++◌, ok, chars, length}
use fx_rust.Diff.Lines.{append_lines, append_trailing_newline_marker}
use fx_rust.Diff.Lines.Joined.{join_lines, close_line, join_lines-append_lines}
use fx_rust.Diff.Compute.{DiffLine, equal_line, add_line, remove_line, compute}
use fx_rust.Diff.Compute.Common.{Alignment, kept}
use fx_rust.Diff.Compute.Sides.{old_side, new_side, numbered, kept_lines}
use fx_rust.Diff.Compute.Shortest.{
  old_lines_of, new_lines_of, compute_holds_both, compute_keeps_most,
}

abbrev old_text : List ℕ
old_text = chars "ab" ++ 10 ∷ chars "cd" ++ 10 ∷ []

abbrev new_text : List ℕ
new_text = chars "ab" ++ 10 ∷ chars "x" ++ 10 ∷ chars "cd" ++ 10 ∷ []

one_line_added :
    compute old_text new_text
    ≡ ok (equal_line 1 1 (chars "ab") ∷ add_line 2 (chars "x") ∷ equal_line 2 3 (chars "cd") ∷ [])
unfolding compute
one_line_added = refl

compute_holds_both_example :
    (d : List DiffLine) × (compute old_text new_text ≡ ok d)
    × (old_side d ≡ numbered 0 (old_lines_of old_text new_text))
    × (new_side d ≡ numbered 0 (new_lines_of old_text new_text))
compute_holds_both_example = compute_holds_both old_text new_text

-- keeps `ab` and `cd`
both_kept :
    Alignment
      (old_lines_of old_text new_text)
      (new_lines_of old_text new_text)
      (length (old_lines_of old_text new_text))
      (length (new_lines_of old_text new_text))
unfolding append_trailing_newline_marker
both_kept = Alignment.keeps (Alignment.adds (Alignment.keeps Alignment.start refl)) refl

compute_keeps_most_example :
    (d : List DiffLine) × (compute old_text new_text ≡ ok d)
    × (kept (old_lines_of old_text new_text) (new_lines_of old_text new_text) both_kept
        ≤ kept_lines d)
unfolding append_trailing_newline_marker
compute_keeps_most_example = compute_keeps_most old_text new_text both_kept refl

join_lines-append_lines_example : join_lines (append_lines old_text) ≡ close_line old_text
join_lines-append_lines_example = join_lines-append_lines old_text

abbrev small_diff : List DiffLine
small_diff = equal_line 1 1 (chars "ab") ∷ remove_line 2 (chars "y") ∷ add_line 2 (chars "x") ∷ []
