-- ===== src/ModelRecovery/Overlap.antt =====
-- `exact_continuation_overlap` of src/model_response_recovery.rs: how much of the end of the text
-- so far the start of a resent response repeats, by the algorithm of Knuth, Morris and Pratt. A byte
-- is a number. A read or a write out of range, which panics, is the error `out_of_range`; a loop
-- that is still running when the fuel is used up is the error `out_of_fuel`.
pub mod Longest
pub mod Matches
mod FallBack
mod Table
use fx_rust.Prelude.{
  ℕ, zero, suc, ◌+◌, ◌-◌, Bool, true, false, ◌&&◌, ◌||◌, not, List, [], ◌∷◌, ◌==◌, ltb,
  if◌then◌else◌, length, is_empty, drop, get_elem?, write, at, Fault, out_of_fuel, replicate,
  Result, err, ok, ok_or, ◌>>=◌, map_ok,
}

-- `byte != incoming[matched]`
unfoldable pub differs : List ℕ → ℕ → ℕ → Result Fault Bool
differs incoming byte matched = do next ← at incoming matched; ok (not (byte == next))

-- `matched == incoming.len() || byte != incoming[matched]`
unfoldable pub full_or_differs : List ℕ → ℕ → ℕ → Result Fault Bool
full_or_differs incoming byte matched =
    if matched == length incoming then ok true else differs incoming byte matched

-- `while matched > 0 && test(matched) { matched = prefix[matched - 1]; }`
unfoldable pub fall_back : (ℕ → Result Fault Bool) → List ℕ → ℕ → ℕ → Result Fault ℕ
fall_back test prefix fuel zero = ok zero
fall_back test prefix zero (suc before) = err out_of_fuel
fall_back test prefix (suc fuel) (suc before) = do
  again ← test (suc before)
  shorter ← (if again then at prefix before else ok (suc before))
  let rest = fall_back test prefix fuel shorter
  if again then rest else ok (suc before)

-- `if byte == incoming[matched] { matched += 1; }`
unfoldable pub extend : List ℕ → ℕ → ℕ → Result Fault ℕ
extend incoming byte matched = do
  next ← at incoming matched
  ok (if byte == next then matched + 1 else matched)

-- the loop that fills the prefix table, from index `incoming_idx` on; a fall back from `matched`
-- takes at most `matched` rounds
unfoldable pub fill_prefix : List ℕ → ℕ → List ℕ → ℕ → List ℕ → Result Fault (List ℕ)
fill_prefix incoming incoming_idx [] matched prefix = ok prefix
fill_prefix incoming incoming_idx (byte ∷ rest) matched prefix = do
  shorter ← fall_back (differs incoming byte) prefix matched matched
  longer ← extend incoming byte shorter
  filled ← write prefix incoming_idx longer
  fill_prefix incoming (suc incoming_idx) rest longer filled

unfoldable pub prefix_table : List ℕ → Result Fault (List ℕ)
unfolding fill_prefix
prefix_table incoming = fill_prefix incoming 1 (drop 1 incoming) 0 (replicate (length incoming) 0)

-- the scan of `existing`
unfoldable pub scan : List ℕ → List ℕ → List ℕ → ℕ → Result Fault ℕ
scan incoming prefix [] matched = ok matched
scan incoming prefix (byte ∷ rest) matched = do
  shorter ← fall_back (full_or_differs incoming byte) prefix matched matched
  longer ← extend incoming byte shorter
  scan incoming prefix rest longer

unfoldable pub exact_continuation_overlap : List ℕ → List ℕ → Result Fault ℕ
unfolding prefix_table scan fall_back fill_prefix extend differs full_or_differs
exact_continuation_overlap existing incoming =
    if is_empty existing || is_empty incoming
    then ok 0
    else do prefix ← prefix_table incoming; scan incoming prefix existing 0
