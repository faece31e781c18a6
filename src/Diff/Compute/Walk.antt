-- ===== src/Diff/Compute/Walk.antt =====
-- The way back through the table of src/diff.rs.
use fx_rust.Prelude.{
  ℕ, zero, suc, ◌+◌, ◌*◌, ◌≤◌, ◌<◌, ◌≡◌, refl, sym, ◌∙◌, inl, inr, true, false, List, [], ◌∷◌, some,
  arith, Bool-cases, length, get_elem?, get_elem?-lt, ok, leb, map_ok, max, if◌then◌else◌, Result,
  Fault,
}
use fx_rust.Diff.Lines.{Line}
use fx_rust.Diff.Compute.{DiffLine, equal_line, add_line, remove_line, walk_back, same_line, stride}
use fx_rust.Diff.Compute.Common.{common, common-nil, common-zero}
use fx_rust.Diff.Compute.Sides.{
  numbered, old_side, new_side, Walked, old_pushed, new_pushed, old_skipped, new_skipped,
  same_line-eq, kept_lines,
}

module _ (old_lines new_lines : List Line) (table : List ℕ)
    (filled : (a b : ℕ)
      → a ≤ length old_lines
      → b < stride old_lines new_lines
      → get_elem? table (a * stride old_lines new_lines + b)
        ≡ some (common old_lines new_lines a b)) where
  abbrev Walks : ℕ → ℕ → Result Fault (List DiffLine) → Type 0
  Walks i j r = (pushed : List DiffLine) × (r ≡ ok pushed) × Walked old_lines new_lines i j pushed

  push_equal :
      (i j : ℕ) (x y : Line) (r : Result Fault (List DiffLine))
      → get_elem? old_lines i ≡ some x
      → get_elem? new_lines j ≡ some y
      → same_line x y ≡ true
      → Walks i j r
      → Walks (suc i) (suc j) (map_ok (λ rest. equal_line (suc i) (suc j) x ∷ rest) r)
  unfolding kept_lines common
  push_equal i j x y r ex ey e (rest, runs, (old_h, new_h, kept_h)) = (
    equal_line (suc i) (suc j) x ∷ rest,
    rw runs refl,
    (
      old_pushed old_lines new_lines i x (equal_line (suc i) (suc j) x) rest ex refl old_h,
      new_pushed old_lines new_lines j x (equal_line (suc i) (suc j) x) rest
          (rw (same_line-eq x y e) ey) refl new_h,
      rw ex (rw ey (rw e (omega (arith, kept_h)))),
    ),
  )

  push_add :
      (i j : ℕ) (y : Line) (r : Result Fault (List DiffLine))
      → get_elem? new_lines j ≡ some y
      → common old_lines new_lines i (suc j) ≡ common old_lines new_lines i j
      → Walks i j r
      → Walks i (suc j) (map_ok (λ rest. add_line (suc j) y ∷ rest) r)
  unfolding kept_lines
  push_add i j y r ey no_more (rest, runs, (old_h, new_h, kept_h)) = (
    add_line (suc j) y ∷ rest,
    rw runs refl,
    (
      old_skipped old_lines new_lines (add_line (suc j) y) rest refl ∙ old_h,
      new_pushed old_lines new_lines j y (add_line (suc j) y) rest ey refl new_h,
      omega (arith, kept_h, no_more),
    ),
  )

  push_remove :
      (i j : ℕ) (x : Line) (r : Result Fault (List DiffLine))
      → get_elem? old_lines i ≡ some x
      → common old_lines new_lines (suc i) j ≡ common old_lines new_lines i j
      → Walks i j r
      → Walks (suc i) j (map_ok (λ rest. remove_line (suc i) x ∷ rest) r)
  unfolding kept_lines
  push_remove i j x r ex no_more (rest, runs, (old_h, new_h, kept_h)) = (
    remove_line (suc i) x ∷ rest,
    rw runs refl,
    (
      old_pushed old_lines new_lines i x (remove_line (suc i) x) rest ex refl old_h,
      new_skipped old_lines new_lines (remove_line (suc i) x) rest refl ∙ new_h,
      omega (arith, kept_h, no_more),
    ),
  )

  common_other :
      (i j : ℕ) (x y : Line)
      → get_elem? old_lines i ≡ some x
      → get_elem? new_lines j ≡ some y
      → same_line x y ≡ false
      → common old_lines new_lines (suc i) (suc j)
        ≡ max (common old_lines new_lines (suc i) j) (common old_lines new_lines i (suc j))
  unfolding common
  common_other i j x y ex ey e = rw ex (rw ey (rw e refl))

  walk_branch :
      (i j : ℕ) (x y : Line) (both by_new by_old : Result Fault (List DiffLine))
      → get_elem? old_lines i ≡ some x
      → get_elem? new_lines j ≡ some y
      → Walks i j both
      → Walks (suc i) j by_new
      → Walks i (suc j) by_old
      → Walks (suc i) (suc j) (
          if same_line x y
          then map_ok (λ rest. equal_line (suc i) (suc j) x ∷ rest) both
          else if leb (common old_lines new_lines i (suc j)) (common old_lines new_lines (suc i) j)
          then map_ok (λ rest. add_line (suc j) y ∷ rest) by_new
          else map_ok (λ rest. remove_line (suc i) x ∷ rest) by_old)
  walk_branch i j x y both by_new by_old ex ey h_both h_new h_old =
      elim (Bool-cases (same_line x y)) [
        | inl e ↦ rw e (push_equal i j x y both ex ey e h_both)
        | inr e ↦
            let longest = common_other i j x y ex ey e in
            elim (Bool-cases
              (leb (common old_lines new_lines i (suc j)) (common old_lines new_lines (suc i) j))) [
                | inl new_longer ↦ rw e (
                    rw new_longer
                      (push_add (suc i) j y by_new ey (longest ∙ ground (arith, new_longer)) h_new))
                | inr old_longer ↦ rw e (
                    rw old_longer (
                      push_remove i (suc j) x by_old ex (longest ∙ ground (arith, old_longer))
                        h_old))
              ]
      ]

  pub walk_back_lem :
      (fuel i j : ℕ)
      → i + j ≤ fuel
      → i ≤ length old_lines
      → j ≤ length new_lines
      → Walks i j (walk_back old_lines new_lines table fuel i j)
  unfolding walk_back kept_lines numbered old_side new_side
  walk_back_lem fuel zero zero le hi hj =
      ([], refl, (refl, refl, sym (common-nil old_lines new_lines 0)))
  walk_back_lem zero zero (suc j) le hi hj = absurd (omega arith)
  walk_back_lem zero (suc i) j le hi hj = absurd (omega arith)
  walk_back_lem (suc fuel) zero (suc j) le hi hj =
      let (y, ey) = get_elem?-lt new_lines j (omega arith) in
      rw ey (
        push_add zero j y (walk_back old_lines new_lines table fuel zero j) ey
          (common-nil old_lines new_lines (suc j) ∙ sym (common-nil old_lines new_lines j))
          (walk_back_lem fuel zero j (omega arith) hi (omega arith)))
  walk_back_lem (suc fuel) (suc i) zero le hi hj =
      let (x, ex) = get_elem?-lt old_lines i (omega arith) in
      rw ex (
        push_remove i zero x (walk_back old_lines new_lines table fuel i zero) ex
          (common-zero old_lines new_lines (suc i) ∙ sym (common-zero old_lines new_lines i))
          (walk_back_lem fuel i zero (omega arith) (omega arith) hj))
  walk_back_lem (suc fuel) (suc i) (suc j) le hi hj =
      let (x, ex) = get_elem?-lt old_lines i (omega arith) in
      let (y, ey) = get_elem?-lt new_lines j (omega arith) in
      rw ex (
        rw ey (
          rw (filled (suc i) j hi (omega arith)) (
            rw (filled i (suc j) (omega arith) (omega arith)) (
              walk_branch i j x y (walk_back old_lines new_lines table fuel i j)
                (walk_back old_lines new_lines table fuel (suc i) j)
                (walk_back old_lines new_lines table fuel i (suc j)) ex ey
                (walk_back_lem fuel i j (omega arith) (omega arith) (omega arith))
                (walk_back_lem fuel (suc i) j (omega arith) hi (omega arith))
                (walk_back_lem fuel i (suc j) (omega arith) (omega arith) hj)))))
