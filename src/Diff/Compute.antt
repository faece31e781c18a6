-- ===== src/Diff/Compute.antt =====
-- `compute` of src/diff.rs: the longest common subsequence of the lines by a table of `u32`, and the
-- way back through it.
pub mod Common
mod Filled
pub mod Sides
mod Walk
pub mod Shortest
pub mod Counts
use fx_rust.Prelude.{
  ℕ, zero, suc, ◌+◌, ◌*◌, ◌%◌, min, max, Bool, true, false, ◌&&◌, List, [], ◌∷◌, ◌++◌, reverse,
  Option, none, some, ◌==◌, ltb, leb, if◌then◌else◌, length, Fault, out_of_fuel, at, write,
  replicate, Result, err, ok, ◌>>=◌, map_ok,
}
use fx_rust.Prelude.U64.{u64_max}
use fx_rust.Diff.Lines.{Line, append_trailing_newline_marker}

abbrev pub max_lcs_cells : ℕ
max_lcs_cells = 16_000_000

pub data LineOp : Type 0 where
  equal : LineOp
  add : LineOp
  remove : LineOp

pub record DiffLine : Type 0 where
  pub op : LineOp
  pub old_num : Option ℕ
  pub new_num : Option ℕ
  pub text : Line

pub record Stats : Type 0 where
  pub additions : ℕ
  pub deletions : ℕ

-- `n as u32`
abbrev pub u32_of : ℕ → ℕ
u32_of n = n % 4294967296

abbrev pub equal_line : ℕ → ℕ → Line → DiffLine
equal_line old_number new_number text = record {
  op = equal;
  old_num = some (u32_of old_number);
  new_num = some (u32_of new_number);
  text = text;
}

abbrev pub add_line : ℕ → Line → DiffLine
add_line new_number text = record {
  op = add;
  old_num = none;
  new_num = some (u32_of new_number);
  text = text;
}

abbrev pub remove_line : ℕ → Line → DiffLine
remove_line old_number text = record {
  op = remove;
  old_num = some (u32_of old_number);
  new_num = none;
  text = text;
}

abbrev pub same_line : Line → Line → Bool
same_line [] [] = true
same_line [] (y ∷ b) = false
same_line (x ∷ a) [] = false
same_line (x ∷ a) (y ∷ b) = x == y && same_line a b

-- the two loops of the coarse projection
unfoldable pub all_removed : ℕ → List Line → List DiffLine
all_removed i [] = []
all_removed i (line ∷ lines) = remove_line (i + 1) line ∷ all_removed (i + 1) lines

unfoldable pub all_added : ℕ → List Line → List DiffLine
all_added j [] = []
all_added j (line ∷ lines) = add_line (j + 1) line ∷ all_added (j + 1) lines

module _ (old_lines new_lines : List Line) where
  abbrev pub stride : ℕ
  stride = suc (length new_lines)

  -- the body of the inner loop, at `old_index = suc i` and `new_index = suc j`
  unfoldable pub fill_cell : ℕ → ℕ → List ℕ → Result Fault (List ℕ)
  fill_cell i j table = do
    old_line ← at old_lines i
    new_line ← at new_lines j
    diagonal ← at table (i * stride + j)
    left ← at table (suc i * stride + j)
    up ← at table (i * stride + suc j)
    write table (suc i * stride + suc j)
        (if same_line old_line new_line then u32_of (diagonal + 1) else max left up)

  -- `for new_index in 1..=new_len`, on the number of rounds left
  unfoldable pub fill_row : ℕ → ℕ → ℕ → List ℕ → Result Fault (List ℕ)
  fill_row zero i j table = ok table
  fill_row (suc left) i j table = fill_cell i j table >>= fill_row left i (suc j)

  -- `for old_index in 1..=old_len`
  unfoldable pub fill_rows : ℕ → ℕ → List ℕ → Result Fault (List ℕ)
  fill_rows zero i table = ok table
  fill_rows (suc left) i table = fill_row (length new_lines) i 0 table >>= fill_rows left (suc i)

  -- the way back; the lines are pushed from the last to the first, and each round takes one line
  unfoldable pub walk_back : List ℕ → ℕ → ℕ → ℕ → Result Fault (List DiffLine)
  walk_back table fuel zero zero = ok []
  walk_back table zero zero (suc j) = err out_of_fuel
  walk_back table zero (suc i) j = err out_of_fuel
  walk_back table (suc fuel) zero (suc j) = do
    new_line ← at new_lines j
    map_ok (λ rest. add_line (suc j) new_line ∷ rest) (walk_back table fuel zero j)
  walk_back table (suc fuel) (suc i) zero = do
    old_line ← at old_lines i
    map_ok (λ rest. remove_line (suc i) old_line ∷ rest) (walk_back table fuel i zero)
  walk_back table (suc fuel) (suc i) (suc j) = do
    old_line ← at old_lines i
    new_line ← at new_lines j
    left ← at table (suc i * stride + j)
    up ← at table (i * stride + suc j)
    let both = walk_back table fuel i j
    let by_new = walk_back table fuel (suc i) j
    let by_old = walk_back table fuel i (suc j)
    (if same_line old_line new_line
        then map_ok (λ rest. equal_line (suc i) (suc j) old_line ∷ rest) both
        else if leb up left
        then map_ok (λ rest. add_line (suc j) new_line ∷ rest) by_new
        else map_ok (λ rest. remove_line (suc i) old_line ∷ rest) by_old)

  unfoldable pub compute_lines : Result Fault (List DiffLine)
  unfolding all_removed all_added fill_rows fill_row fill_cell walk_back
  compute_lines =
      if ltb max_lcs_cells (min ((length old_lines + 1) * (length new_lines + 1)) u64_max)
      then ok (all_removed 0 old_lines ++ all_added 0 new_lines)
      else do
        table ← fill_rows (length old_lines) 0 (replicate ((length old_lines + 1) * stride) 0)
        pushed ←
            walk_back table (length old_lines + length new_lines) (length old_lines)
              (length new_lines)
        ok (reverse pushed)

abbrev compute_sides : List Line × List Line → Result Fault (List DiffLine)
compute_sides (old_lines, new_lines) = compute_lines old_lines new_lines

unfoldable pub compute : List ℕ → List ℕ → Result Fault (List DiffLine)
unfolding compute_lines append_trailing_newline_marker
compute old_text new_text = compute_sides (append_trailing_newline_marker old_text new_text)

abbrev pub count_op : LineOp → Stats → Stats
count_op equal stats = stats
count_op add stats = record stats { additions = u32_of (stats.additions + 1) }
count_op remove stats = record stats { deletions = u32_of (stats.deletions + 1) }

unfoldable pub count_from : Stats → List DiffLine → Stats
count_from stats [] = stats
count_from stats (line ∷ diff) = count_from (count_op line.op stats) diff

unfoldable pub count_stats : List DiffLine → Stats
unfolding count_from
count_stats diff = count_from (record { additions = 0; deletions = 0 }) diff
