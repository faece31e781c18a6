-- ===== src/Diff/Compute/Counts.antt =====
-- The counts of src/diff.rs are those of the lines that a diff adds and removes.
use fx_rust.Prelude.{ℕ, ◌+◌, ◌≤◌, ◌<◌, ◌≡◌, refl, List, [], ◌∷◌, arith, length}
use fx_rust.Diff.Compute.{
  DiffLine, Stats, LineOp, equal, add, remove, count_stats, count_from, count_op,
}
use fx_rust.Diff.Compute.Sides.{old_side, new_side, kept_lines, kept_one, Numbered, on_old, on_new}

-- What the counts and both sides say of each other, with `more` lines to come.
abbrev Agrees : Stats → Stats → ℕ → ℕ → ℕ → Type 0
Agrees before after kept olds news =
    (after.additions + kept ≡ before.additions + news)
    × (after.deletions + kept ≡ before.deletions + olds)

count_one :
    (op : LineOp) (x y : Numbered) (stats after : Stats) (kept : ℕ) (olds news : List Numbered)
    → stats.additions + 1 < 4294967296
    → stats.deletions + 1 < 4294967296
    → Agrees (count_op op stats) after kept (length olds) (length news)
    → Agrees stats after
        (kept_one op + kept)
        (length (on_old op x olds))
        (length (on_new op y news))
count_one equal x y stats after kept olds news ha hd (added, removed) = (omega arith, omega arith)
count_one add x y stats after kept olds news ha hd (added, removed) = (omega arith, omega arith)
count_one remove x y stats after kept olds news ha hd (added, removed) = (omega arith, omega arith)

count_op-le :
    (op : LineOp) (stats : Stats)
    → stats.additions + 1 < 4294967296
    → stats.deletions + 1 < 4294967296
    → ((count_op op stats).additions ≤ stats.additions + 1)
      × ((count_op op stats).deletions ≤ stats.deletions + 1)
count_op-le equal stats ha hd = (omega arith, omega arith)
count_op-le add stats ha hd = (omega arith, omega arith)
count_op-le remove stats ha hd = (omega arith, omega arith)

count_from_lem :
    (diff : List DiffLine) (stats : Stats)
    → stats.additions + length diff < 4294967296
    → stats.deletions + length diff < 4294967296
    → Agrees stats
        (count_from stats diff)
        (kept_lines diff)
        (length (old_side diff))
        (length (new_side diff))
unfolding count_from kept_lines new_side old_side
count_from_lem [] stats ha hd = (refl, refl)
count_from_lem (d ∷ diff) stats ha hd =
    let (le_a, le_d) = count_op-le d.op stats (omega arith) (omega arith) in
    count_one d.op (d.old_num, d.text) (d.new_num, d.text) stats
      (count_from (count_op d.op stats) diff) (kept_lines diff) (old_side diff) (new_side diff)
      (omega arith) (omega arith)
      (count_from_lem diff (count_op d.op stats) (omega arith) (omega arith))

-- For fewer than 2 ^ 32 lines, the counted additions and the kept lines make up the new side of a
-- diff, and the counted deletions and the kept lines its old side.
pub count_stats_sides :
    (diff : List DiffLine)
    → length diff < 4294967296
    → ((count_stats diff).additions + kept_lines diff ≡ length (new_side diff))
      × ((count_stats diff).deletions + kept_lines diff ≡ length (old_side diff))
unfolding count_stats
count_stats_sides diff small =
    let (added, removed) =
      count_from_lem diff (record { additions = 0; deletions = 0 }) (omega arith) (omega arith) in
    (omega arith, omega arith)
