-- ===== src/Diff/Compute/Shortest.antt =====
-- A diff of src/diff.rs holds both texts, and keeps as many lines as any alignment of them.
use fx_rust.Prelude.{
  ℕ, suc, ◌+◌, ◌*◌, ◌≤◌, ◌<◌, ◌≡◌, refl, ap, ◌∙◌, inl, inr, Bool, true, false, List, ◌++◌, reverse,
  arith, Bool-cases, length, ok, ltb, leb, min, append-nil, Result, Fault, replicate,
}
use fx_rust.Prelude.U64.{u64_max}
use fx_rust.Diff.Lines.{Line, append_trailing_newline_marker}
use fx_rust.Diff.Compute.{
  DiffLine, compute_lines, compute, all_removed, all_added, stride, max_lcs_cells,
}
use fx_rust.Diff.Compute.Common.{common, Alignment, kept, kept-le-common}
use fx_rust.Diff.Compute.Filled.{fill_table}
use fx_rust.Diff.Compute.Walk.{walk_back_lem}
use fx_rust.Diff.Compute.Sides.{
  old_side, new_side, numbered, kept_lines, kept_lines-reverse, take_all, old_side-append,
  new_side-append, all_removed-old, all_removed-new, all_added-old, all_added-new,
}

-- the table of two lists of lines is within the budget
abbrev pub fits : List Line → List Line → Bool
fits old_lines new_lines =
    leb (min ((length old_lines + 1) * (length new_lines + 1)) u64_max) max_lcs_cells

row_count : (m n : ℕ) → (m + 1) * (n + 1) ≤ 16_000_000 → m + 1 ≤ 16_000_000
row_count m n h = grind arith

module _ (old_lines new_lines : List Line) where
  -- The diff holds both texts, with the numbers of their lines.
  abbrev Diffs : Result Fault (List DiffLine) → Type 0
  Diffs r =
      (d : List DiffLine) × (r ≡ ok d)
      × (old_side d ≡ numbered 0 old_lines)
      × (new_side d ≡ numbered 0 new_lines)

  abbrev DiffsBest : Result Fault (List DiffLine) → Type 0
  DiffsBest r =
      (d : List DiffLine) × (r ≡ ok d)
      × (old_side d ≡ numbered 0 old_lines)
      × (new_side d ≡ numbered 0 new_lines)
      × (kept_lines d ≡ common old_lines new_lines (length old_lines) (length new_lines))

  coarse : fits old_lines new_lines ≡ false → Diffs (compute_lines old_lines new_lines)
  unfolding compute_lines
  coarse e =
      let over : ltb max_lcs_cells (min ((length old_lines + 1) * (length new_lines + 1)) u64_max)
          ≡ true =
        ground arith in
      (
        all_removed 0 old_lines ++ all_added 0 new_lines,
        rw over refl,
        old_side-append (all_removed 0 old_lines) (all_added 0 new_lines)
            ∙ rw (all_removed-old 0 old_lines)
                (rw (all_added-old 0 new_lines) (append-nil (numbered 0 old_lines))),
        new_side-append (all_removed 0 old_lines) (all_added 0 new_lines)
            ∙ rw (all_removed-new 0 old_lines) (all_added-new 0 new_lines),
      )

  by_table : fits old_lines new_lines ≡ true → DiffsBest (compute_lines old_lines new_lines)
  unfolding compute_lines
  by_table e =
      let over : ltb max_lcs_cells (min ((length old_lines + 1) * (length new_lines + 1)) u64_max)
          ≡ false =
        ground arith in
      let small : length old_lines < 4294967295 =
        omega (arith, row_count (length old_lines) (length new_lines) (ground arith)) in
      let (table, fills, filled) = fill_table old_lines new_lines small in
      let (pushed, walks, (old_h, new_h, kept_h)) =
        walk_back_lem old_lines new_lines table filled (length old_lines + length new_lines)
          (length old_lines) (length new_lines) (omega arith) (omega arith) (omega arith) in
      let cells : replicate {A = ℕ} ((length old_lines + 1) * stride old_lines new_lines) 0
          ≡ replicate (suc (length old_lines) * stride old_lines new_lines) 0 =
        ap (λ rows. replicate (rows * stride old_lines new_lines) 0) {x = length old_lines + 1}
          {y = suc (length old_lines)} (omega arith) in
      (
        reverse pushed,
        rw over (rw cells (rw fills (rw walks refl))),
        old_h ∙ ap (numbered 0) (take_all old_lines),
        new_h ∙ ap (numbered 0) (take_all new_lines),
        kept_lines-reverse pushed ∙ kept_h,
      )

  compute_lines-Diffs : Diffs (compute_lines old_lines new_lines)
  compute_lines-Diffs = elim (Bool-cases (fits old_lines new_lines)) [
    | inl e ↦ let (d, runs, old_h, new_h, kept_h) = by_table e in (d, runs, old_h, new_h)
    | inr e ↦ coarse e
  ]

-- the lines that the diff is about, with the marker of a trailing newline
abbrev pub old_lines_of : List ℕ → List ℕ → List Line
old_lines_of old_text new_text = (append_trailing_newline_marker old_text new_text).0

abbrev pub new_lines_of : List ℕ → List ℕ → List Line
new_lines_of old_text new_text = (append_trailing_newline_marker old_text new_text).1

-- For every two texts the diff is computed, without an access out of range, also where the table
-- would be too large: the lines of the diff that are not added are the lines of the old text and
-- those that are not removed are the lines of the new text, in order, each with its number and with
-- the marker of a trailing newline.
pub compute_holds_both :
    (old_text new_text : List ℕ)
    → (d : List DiffLine) × (compute old_text new_text ≡ ok d)
      × (old_side d ≡ numbered 0 (old_lines_of old_text new_text))
      × (new_side d ≡ numbered 0 (new_lines_of old_text new_text))
unfolding compute
compute_holds_both old_text new_text =
    compute_lines-Diffs (old_lines_of old_text new_text) (new_lines_of old_text new_text)

-- Where the table is within its budget, the diff keeps at least as many lines as any alignment of
-- the two lists of lines does, so that no diff is shorter.
pub compute_keeps_most :
    (old_text new_text : List ℕ)
    (a : Alignment
      (old_lines_of old_text new_text)
      (new_lines_of old_text new_text)
      (length (old_lines_of old_text new_text))
      (length (new_lines_of old_text new_text)))
    → fits (old_lines_of old_text new_text) (new_lines_of old_text new_text) ≡ true
    → (d : List DiffLine) × (compute old_text new_text ≡ ok d)
      × (kept (old_lines_of old_text new_text) (new_lines_of old_text new_text) a ≤ kept_lines d)
unfolding compute
compute_keeps_most old_text new_text a e =
    let (d, runs, old_h, new_h, kept_h) =
      by_table (old_lines_of old_text new_text) (new_lines_of old_text new_text) e in
    (
      d,
      runs,
      rw kept_h
          (kept-le-common (old_lines_of old_text new_text) (new_lines_of old_text new_text) a),
    )
