-- ===== src/Diff/Compute/Common.antt =====
-- The lengths of longest common subsequences of lines, by recursion, and the alignments of two lists of
-- lines: what a table of src/diff.rs is about.
use fx_rust.Prelude.{
  ℕ, zero, suc, ◌≤◌, ◌≡◌, refl, Bool, true, false, List, Option, none, some, max, arith,
  if◌then◌else◌, get_elem?,
}
use fx_rust.Diff.Lines.{Line}
use fx_rust.Diff.Compute.{same_line}

abbrev pub same_at : Option Line → Option Line → Bool
same_at none _ = false
same_at (some a) none = false
same_at (some a) (some b) = same_line a b

module _ (old_lines new_lines : List Line) where
  -- line `i` of the old text and line `j` of the new text are the same
  abbrev pub same : ℕ → ℕ → Bool
  same i j = same_at (get_elem? old_lines i) (get_elem? new_lines j)

  -- the length of a longest common subsequence of the first `i` old and the first `j` new lines
  unfoldable pub common : ℕ → ℕ → ℕ
  common zero j = 0
  common (suc i) zero = 0
  common (suc i) (suc j) =
      if same i j then suc (common i j) else max (common (suc i) j) (common i (suc j))

  pub common-nil : (j : ℕ) → common 0 j ≡ 0
  unfolding common
  common-nil j = refl

  pub common-zero : (i : ℕ) → common i 0 ≡ 0
  unfolding common
  common-zero zero = refl
  common-zero (suc i) = refl

  pub common-le_old : (i j : ℕ) → common i j ≤ i
  unfolding common
  common-le_old zero j = omega arith
  common-le_old (suc i) zero = omega arith
  common-le_old (suc i) (suc j) =
      ground (arith, common-le_old i j, common-le_old (suc i) j, common-le_old i (suc j))

  pub common-le_new : (i j : ℕ) → common i j ≤ j
  unfolding common
  common-le_new zero j = omega arith
  common-le_new (suc i) zero = omega arith
  common-le_new (suc i) (suc j) =
      ground (arith, common-le_new i j, common-le_new (suc i) j, common-le_new i (suc j))

  -- One line more makes a common subsequence longer by one line at most, and not shorter.
  pub common-step :
      (i j : ℕ)
      → (common i j ≤ common (suc i) j)
        × (common (suc i) j ≤ suc (common i j))
        × (common i j ≤ common i (suc j))
        × (common i (suc j) ≤ suc (common i j))
  unfolding common
  common-step zero zero = ground arith
  common-step zero (suc j) = ground (arith, common-step zero j)
  common-step (suc i) zero = ground (arith, common-step i zero)
  common-step (suc i) (suc j) = ground (arith, common-step (suc i) j, common-step i (suc j))

  -- an alignment of the first `i` old lines with the first `j` new lines
  pub data Alignment : ℕ → ℕ → Type 0 where
    start : Alignment 0 0
    keeps : {i j : ℕ} → Alignment i j → same i j ≡ true → Alignment (suc i) (suc j)
    removes : {i j : ℕ} → Alignment i j → Alignment (suc i) j
    adds : {i j : ℕ} → Alignment i j → Alignment i (suc j)

  unfoldable pub kept : {i j : ℕ} → Alignment i j → ℕ
  kept start = 0
  kept (keeps a e) = suc (kept a)
  kept (removes a) = kept a
  kept (adds a) = kept a

  pub kept-le-common : {i j : ℕ} (a : Alignment i j) → kept a ≤ common i j
  unfolding kept common
  kept-le-common start = omega arith
  kept-le-common (keeps {i} {j} a e) = rw e (omega (arith, kept-le-common a))
  kept-le-common (removes {i} {j} a) = omega (arith, kept-le-common a, common-step i j)
  kept-le-common (adds {i} {j} a) = omega (arith, kept-le-common a, common-step i j)
