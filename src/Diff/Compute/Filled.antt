-- ===== src/Diff/Compute/Filled.antt =====
-- The table of src/diff.rs holds the lengths of longest common subsequences.
use native.Mathlib.Decide.{dec_lt}
use fx_rust.Prelude.{
  ℕ, zero, suc, ◌+◌, ◌*◌, ◌≤◌, ◌<◌, ◌≡◌, ◌≢◌, ◌⊎◌, inl, inr, refl, sym, ap, ◌∙◌, List, some, ok,
  arith, Bool-cases, length, get_elem?, get_elem?-lt, get_elem?-set, get_elem?-set_other,
  get_elem?-replicate, length-set, length-replicate, store-lt, set, replicate, if◌then◌else◌, max,
}
use native.Mathlib.Nat.{suc-mul, mul-le-mul_right}
use fx_rust.Diff.Lines.{Line}
use fx_rust.Diff.Compute.{stride, fill_cell, fill_row, fill_rows, same_line, u32_of}
use fx_rust.Diff.Compute.Common.{common, common-le_old, common-zero}

earlier_row : (w a b i j : ℕ) → b < w → a < i → a * w + b < i * w + j
earlier_row w a b i j hb less =
    grind (arith, suc-mul a w, mul-le-mul_right {m = suc a} {n = i} w less)

cell_differs : (w a b i j : ℕ) → b < w → j < w → (a ≢ i) ⊎ (b ≢ j) → i * w + j ≢ a * w + b
cell_differs w a b i j hb hj d e = elim (dec_lt a i) [
  | yes less ↦ omega (arith, earlier_row w a b i j hb less, e)
  | no not_less ↦ elim (dec_lt i a) [
    | yes more ↦ omega (arith, earlier_row w i j a b hj more, e)
    | no not_more ↦
        let rows : a ≡ i = omega arith in
        let cells : b ≡ j = omega (arith, e, ap (λ k. k * w) rows) in
        elim d [ inl other ↦ other rows | inr other ↦ other cells ]
  ]
]

cell_in_range : (w rows i j : ℕ) → i < rows → j < w → i * w + j < rows * w
cell_in_range w rows i j hi hj = grind arith

module _ (old_lines new_lines : List Line) (small : length old_lines < 4294967295) where
  abbrev width : ℕ
  width = stride old_lines new_lines

  abbrev rows : ℕ
  rows = suc (length old_lines)

  abbrev pub Holds : List ℕ → ℕ → ℕ → Type 0
  Holds table a b = get_elem? table (a * width + b) ≡ some (common old_lines new_lines a b)

  -- The rows up to `i`, the first `j` cells of the next row and the first column are filled.
  abbrev FilledTo : ℕ → ℕ → List ℕ → Type 0
  FilledTo i j table =
      (length table ≡ rows * width)
      × ((a b : ℕ) → a ≤ i → b < width → Holds table a b)
      × ((b : ℕ) → 0 < b → b ≤ j → Holds table (suc i) b)
      × ((a : ℕ) → a < rows → Holds table a 0)

  cell_value :
      (i j : ℕ) (x y : Line)
      → i < length old_lines
      → get_elem? old_lines i ≡ some x
      → get_elem? new_lines j ≡ some y
      → (if same_line x y
          then u32_of (common old_lines new_lines i j + 1)
          else max (common old_lines new_lines (suc i) j) (common old_lines new_lines i (suc j)))
        ≡ common old_lines new_lines (suc i) (suc j)
  unfolding common
  cell_value i j x y lt ex ey = rw ex (
      rw ey (elim (Bool-cases (same_line x y)) [
        | inl e ↦ rw e (ground (arith, common-le_old old_lines new_lines i j))
        | inr e ↦ rw e refl
      ]))

  Holds-set :
      (table : List ℕ) (i j a b v : ℕ)
      → b < width
      → j < width
      → (a ≢ i) ⊎ (b ≢ j)
      → Holds table a b
      → Holds (set table (i * width + j) v) a b
  Holds-set table i j a b v hb hj d h =
      get_elem?-set_other table (i * width + j) (a * width + b) v
        (cell_differs width a b i j hb hj d)
      ∙ h

  cell_of_row :
      (i j : ℕ) (table : List ℕ)
      → i < length old_lines
      → ((b : ℕ) → 0 < b → b ≤ j → Holds table (suc i) b)
      → ((a : ℕ) → a < rows → Holds table a 0)
      → (b : ℕ) → b ≤ j
      → Holds table (suc i) b
  cell_of_row i j table hi row column zero le = column (suc i) (omega arith)
  cell_of_row i j table hi row column (suc b) le = row (suc b) (omega arith) le

  row_longer :
      (i j : ℕ) (table : List ℕ)
      → j < length new_lines
      → suc i * width + suc j < length table
      → ((b : ℕ) → 0 < b → b ≤ j → Holds table (suc i) b)
      → (b : ℕ) → 0 < b
      → b ≤ suc j
      → Holds
          (set table (suc i * width + suc j) (common old_lines new_lines (suc i) (suc j)))
          (suc i)
          b
  row_longer i j table hj inside row b b_pos b_le = elim (dec_lt j b) [
    | yes new ↦
        let here : b ≡ suc j = omega arith in
        rw here (
          get_elem?-set table (suc i * width + suc j) (common old_lines new_lines (suc i) (suc j))
            inside)
    | no older ↦
        Holds-set table (suc i) (suc j) (suc i) b (common old_lines new_lines (suc i) (suc j))
          (omega arith) (omega arith) (inr (λ e. absurd (omega arith))) (row b b_pos (omega arith))
  ]

  fill_cell_lem :
      (i j : ℕ) (table : List ℕ)
      → i < length old_lines
      → j < length new_lines
      → FilledTo i j table
      → (filled : List ℕ) × (fill_cell old_lines new_lines i j table ≡ ok filled)
        × FilledTo i (suc j) filled
  unfolding fill_cell
  fill_cell_lem i j table hi hj (same_length, done, row, column) =
      let (x, ex) = get_elem?-lt old_lines i hi in
      let (y, ey) = get_elem?-lt new_lines j hj in
      let value = common old_lines new_lines (suc i) (suc j) in
      let cell = suc i * width + suc j in
      let inside : cell < length table =
        rw same_length (cell_in_range width rows (suc i) (suc j) (omega arith) (omega arith)) in
      let filled = set table cell value in
      (
        filled,
        rw ex (
            rw ey (
              rw (done i j (omega arith) (omega arith)) (
                rw (cell_of_row i j table hi row column j (omega arith)) (
                  rw (done i (suc j) (omega arith) (omega arith)) (
                    rw (cell_value i j x y hi ex ey)
                      (rw (store-lt table cell value inside) refl)))))),
        (
          length-set table cell value ∙ same_length,
          λ a b a_le b_lt.
              Holds-set table (suc i) (suc j) a b value b_lt (omega arith)
                (inl (λ e. absurd (omega arith))) (done a b a_le b_lt),
          row_longer i j table hj inside row,
          λ a a_lt.
              Holds-set table (suc i) (suc j) a 0 value (omega arith) (omega arith)
                (inr (λ e. absurd (omega arith))) (column a a_lt),
        ),
      )

  fill_row_lem :
      (left i j : ℕ) (table : List ℕ)
      → i < length old_lines
      → j + left ≡ length new_lines
      → FilledTo i j table
      → (filled : List ℕ) × (fill_row old_lines new_lines left i j table ≡ ok filled)
        × FilledTo i (length new_lines) filled
  unfolding fill_row
  fill_row_lem zero i j table hi whole (same_length, done, row, column) =
      (table, refl, (same_length, done, λ b b_pos b_le. row b b_pos (omega arith), column))
  fill_row_lem (suc left) i j table hi whole filled =
      let (next, fills, next_filled) = fill_cell_lem i j table hi (omega arith) filled in
      let (last, fills_rest, last_filled) =
        fill_row_lem left i (suc j) next hi (omega arith) next_filled in
      (last, rw fills fills_rest, last_filled)

  Row-done :
      (i : ℕ) (table : List ℕ)
      → i < length old_lines
      → FilledTo i (length new_lines) table
      → FilledTo (suc i) 0 table
  Row-done i table hi (same_length, done, row, column) =
      (same_length, next_rows, λ b b_pos b_le. absurd (omega arith), column)
    where
      next_rows : (a b : ℕ) → a ≤ suc i → b < width → Holds table a b
      next_rows a b a_le b_lt = elim (dec_lt i a) [
        | yes newest ↦
            let here : a ≡ suc i = omega arith in
            rw here (cell_of_row i (length new_lines) table hi row column b (omega arith))
        | no older ↦ done a b (omega arith) b_lt
      ]

  fill_rows_lem :
      (left i : ℕ) (table : List ℕ)
      → i + left ≡ length old_lines
      → FilledTo i 0 table
      → (filled : List ℕ) × (fill_rows old_lines new_lines left i table ≡ ok filled)
        × FilledTo (length old_lines) 0 filled
  unfolding fill_rows
  fill_rows_lem zero i table whole (same_length, done, row, column) = (
    table,
    refl,
    (same_length, λ a b a_le. done a b (omega arith), λ b b_pos b_le. absurd (omega arith), column),
  )
  fill_rows_lem (suc left) i table whole filled =
      let (next, fills, next_filled) =
        fill_row_lem (length new_lines) i 0 table (omega arith) (omega arith) filled in
      let (last, fills_rest, last_filled) =
        fill_rows_lem left (suc i) next (omega arith) (Row-done i next (omega arith) next_filled) in
      (last, rw fills fills_rest, last_filled)

  zeros-Holds :
      (a b : ℕ)
      → a < rows
      → b < width
      → common old_lines new_lines a b ≡ 0
      → Holds (replicate (rows * width) 0) a b
  zeros-Holds a b a_lt b_lt nothing =
      get_elem?-replicate (rows * width) (a * width + b) 0 (cell_in_range width rows a b a_lt b_lt)
      ∙ ap some (sym nothing)

  -- The table of all pairs of prefixes.
  pub fill_table :
      (filled : List ℕ) × (fill_rows old_lines new_lines
          (length old_lines)
          0
          (replicate (rows * width) 0)
        ≡ ok filled)
      × ((a b : ℕ) → a ≤ length old_lines → b < width → Holds filled a b)
  fill_table =
      let (filled, fills, (same_length, done, row, column)) =
        fill_rows_lem (length old_lines) 0 (replicate (rows * width) 0) (omega arith) (
          length-replicate (rows * width) 0,
          λ a b a_le b_lt. zeros-Holds a b (omega arith) b_lt (first_row a b a_le),
          λ b b_pos b_le. absurd (omega arith),
          λ a a_lt. zeros-Holds a 0 a_lt (omega arith) (common-zero old_lines new_lines a),
        ) in
      (filled, fills, done)
    where
      first_row : (a b : ℕ) → a ≤ 0 → common old_lines new_lines a b ≡ 0
      first_row a b le = omega (arith, common-le_old old_lines new_lines a b)
