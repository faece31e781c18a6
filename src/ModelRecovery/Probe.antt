-- ===== src/ModelRecovery/Probe.antt =====
-- `probe_continuation_extension` of src/model_response_recovery.rs: whether more incoming bytes could
-- extend the overlap, within a budget of comparisons. A byte is a number.
pub mod Sound
use fx_rust.Prelude.{
  ℕ, zero, suc, ◌+◌, ◌-◌, Bool, true, false, List, [], ◌∷◌, ◌==◌, leb, if◌then◌else◌, length,
  Result, ok, ◌>>=◌,
}
use fx_rust.Prelude.{Fault, at}

pub data ContinuationProbeOutcome : Type 0 where
  may_extend : ContinuationProbeOutcome
  cannot_extend : ContinuationProbeOutcome
  budget_exhausted : ContinuationProbeOutcome

pub record ContinuationProbe : Type 0 where
  pub outcome : ContinuationProbeOutcome
  pub comparisons : ℕ

abbrev pub probed : ContinuationProbeOutcome → ℕ → ContinuationProbe
probed outcome comparisons = record { outcome = outcome; comparisons = comparisons }

-- how the loop over the incoming bytes ends: with the budget used up, or with `matched`
pub data Compared : Type 0 where
  exhausted : ℕ → Compared
  compared : (matched : Bool) → ℕ → Compared

module _ (existing : List ℕ) (comparison_budget : ℕ) where
  -- `for (offset, byte) in incoming.iter().enumerate()` for one `start`
  unfoldable pub compare_bytes : ℕ → ℕ → List ℕ → ℕ → Result Fault Compared
  compare_bytes start offset [] comparisons = ok (compared true comparisons)
  compare_bytes start offset (byte ∷ incoming) comparisons =
      if comparisons == comparison_budget then ok (exhausted comparisons) else do
        there ← at existing (start + offset)
        let rest = compare_bytes start (suc offset) incoming (comparisons + 1)
        if there == byte then rest else ok (compared false (comparisons + 1))

  -- `for start in 0..candidate_count`, on the number of rounds left
  unfoldable pub try_starts : List ℕ → ℕ → ℕ → ℕ → Result Fault ContinuationProbe
  unfolding compare_bytes
  try_starts incoming zero start comparisons = ok (probed cannot_extend comparisons)
  try_starts incoming (suc left) start comparisons =
      compare_bytes start 0 incoming comparisons >>= λ result. elim result [
        | exhausted used ↦ ok (probed budget_exhausted used)
        | compared true used ↦ ok (probed may_extend used)
        | compared false used ↦ try_starts incoming left (suc start) used
      ]

unfoldable pub probe_continuation_extension : List ℕ → List ℕ → ℕ → Result Fault ContinuationProbe
unfolding try_starts
probe_continuation_extension existing incoming comparison_budget =
    if leb (length existing) (length incoming)
    then ok (probed cannot_extend 0)
    else try_starts existing comparison_budget incoming (length existing - length incoming) 0 0
