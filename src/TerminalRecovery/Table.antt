-- ===== src/TerminalRecovery/Table.antt =====
-- The invariants that the header of src/terminal_recovery.rs promises of the decision.
use fx_rust.Prelude.{◌≡◌, ◌≢◌, ◌⊎◌, ◌↔◌, true, false, none, arith}
use fx_rust.TerminalRecovery.Reconcile.{
  Input, Decision, Disposition, Lifecycle, RecordEvidence, CheckpointEvidence, HostEvidence,
  ProcessEvidence, reconcile, record_screen_reason, checkpoint_reason, retain_live, retain_final,
  finalize_exited, mark_lost, isolate_corrupt,
}

-- A session that is over, and one that is not.
abbrev pub IsOver : Lifecycle → Type 0
IsOver l = (l ≡ Lifecycle.exited) ⊎ (l ≡ Lifecycle.lost) ⊎ (l ≡ Lifecycle.closed)

abbrev pub IsOpen : Lifecycle → Type 0
IsOpen l = (l ≡ Lifecycle.starting) ⊎ (l ≡ Lifecycle.running)

-- The session is open and nothing says that it ended.
abbrev pub MayLive : Input → Type 0
MayLive i =
    (i.evidence ≡ RecordEvidence.valid) × IsOpen i.lifecycle × (i.termination_present ≡ false)

-- The lifecycle that each disposition stands for.
abbrev pub kept : Disposition → Lifecycle → Lifecycle
kept retain_live l = l
kept retain_final l = l
kept Disposition.unavailable l = l
kept finalize_exited l = Lifecycle.exited
kept mark_lost l = Lifecycle.lost
kept isolate_corrupt l = Lifecycle.lost

isolated_iff :
    (i : Input)
    → ((reconcile i).disposition ≡ isolate_corrupt) ↔ (i.evidence ≢ RecordEvidence.valid)
unfolding reconcile
isolated_iff i = (ground arith, ground arith)

final_iff :
    (i : Input)
    → ((reconcile i).disposition ≡ retain_final)
      ↔ ((i.evidence ≡ RecordEvidence.valid) × IsOver i.lifecycle)
unfolding reconcile
final_iff i = (ground arith, ground arith)

exited_iff :
    (i : Input)
    → ((reconcile i).disposition ≡ finalize_exited)
      ↔ ((i.evidence ≡ RecordEvidence.valid) × IsOpen i.lifecycle × (i.termination_present ≡ true))
unfolding reconcile
exited_iff i = (ground arith, ground arith)

live_iff :
    (i : Input)
    → ((reconcile i).disposition ≡ retain_live)
      ↔ (MayLive i × (i.host ≡ HostEvidence.present_same) × (i.process ≡ ProcessEvidence.matched))
unfolding reconcile
live_iff i = (ground arith, ground arith)

unavailable_iff :
    (i : Input)
    → ((reconcile i).disposition ≡ Disposition.unavailable) ↔ (
        MayLive i
        × (i.host ≡ HostEvidence.present_same)
        × (i.process ≡ ProcessEvidence.unavailable))
unfolding reconcile
unavailable_iff i = (ground arith, ground arith)

kept_lifecycle : (i : Input) → (reconcile i).lifecycle ≡ kept (reconcile i).disposition i.lifecycle
unfolding reconcile
kept_lifecycle i = ground arith

-- A second recovery on the same evidence, with the decided lifecycle.
abbrev pub decided_again : Input → Decision
decided_again i = reconcile (record i { lifecycle = (reconcile i).lifecycle })

-- A record that is not valid is isolated, and no other one is. A valid one is retained as final
-- exactly when its session is over; finalized as exited exactly when the session is open and there
-- is evidence of termination; retained live exactly when the session is open without that evidence,
-- on its own host and with its own process; unavailable exactly when the session is open without
-- that evidence, on its own host, and its process cannot be observed; and marked lost otherwise.
-- The decided lifecycle is the one of the record where it is retained or unavailable, exited where
-- it is finalized, and lost where it is marked lost or isolated. The screen is shown exactly when
-- the record is valid and the checkpoint is valid and contiguous. On the same evidence, the decided
-- lifecycle is decided again.
pub reconcile_sound :
    (i : Input)
    → (((reconcile i).disposition ≡ isolate_corrupt) ↔ (i.evidence ≢ RecordEvidence.valid))
      × (((reconcile i).disposition ≡ retain_final)
          ↔ ((i.evidence ≡ RecordEvidence.valid) × IsOver i.lifecycle))
      × (((reconcile i).disposition ≡ finalize_exited) ↔ (
          (i.evidence ≡ RecordEvidence.valid)
          × IsOpen i.lifecycle
          × (i.termination_present ≡ true)))
      × (((reconcile i).disposition ≡ retain_live) ↔ (
          MayLive i × (i.host ≡ HostEvidence.present_same) × (i.process ≡ ProcessEvidence.matched)))
      × (((reconcile i).disposition ≡ Disposition.unavailable) ↔ (
          MayLive i
          × (i.host ≡ HostEvidence.present_same)
          × (i.process ≡ ProcessEvidence.unavailable)))
      × ((reconcile i).lifecycle ≡ kept (reconcile i).disposition i.lifecycle)
      × (((reconcile i).screen_unavailable ≡ none) ↔ (
          (i.evidence ≡ RecordEvidence.valid)
          × (i.checkpoint ≡ CheckpointEvidence.valid_contiguous)))
      × ((decided_again i).lifecycle ≡ (reconcile i).lifecycle)
unfolding reconcile checkpoint_reason record_screen_reason
reconcile_sound i = (
  isolated_iff i,
  final_iff i,
  exited_iff i,
  live_iff i,
  unavailable_iff i,
  kept_lifecycle i,
  (λ h. (ground (arith, h), ground (arith, h)), λ h. ground (arith, h)),
  ground arith,
)
