-- ===== src/TerminalRecovery/Reconcile.antt =====
-- src/terminal_recovery.rs: the evidence, and the decision on it.
use fx_rust.Prelude.{Bool, true, false, ◌&&◌, not, Option, none, some, if◌then◌else◌}

pub data Lifecycle : Type 0 where
  starting running exited lost closed : Lifecycle

pub data RecordEvidence : Type 0 where
  valid missing partial corrupt unsupported : RecordEvidence

pub data HostEvidence : Type 0 where
  present_same present_foreign absent : HostEvidence

pub data ProcessEvidence : Type 0 where
  matched missing mismatched unavailable : ProcessEvidence

pub data CheckpointEvidence : Type 0 where
  valid_contiguous missing corrupt unsupported disconnected retention_evicted
        resize_uncheckpointed :
      CheckpointEvidence

pub data ScreenUnavailableReason : Type 0 where
  missing corrupt unsupported_schema retention_evicted raw_gap resize_uncheckpointed :
      ScreenUnavailableReason

pub data Disposition : Type 0 where
  retain_live retain_final finalize_exited mark_lost isolate_corrupt unavailable : Disposition

pub record Input : Type 0 where
  pub evidence : RecordEvidence
  pub lifecycle : Lifecycle
  pub termination_present : Bool
  pub host : HostEvidence
  pub process : ProcessEvidence
  pub checkpoint : CheckpointEvidence

pub record Decision : Type 0 where
  pub disposition : Disposition
  pub lifecycle : Lifecycle
  pub screen_unavailable : Option ScreenUnavailableReason

unfoldable pub record_screen_reason : RecordEvidence → Option ScreenUnavailableReason
record_screen_reason RecordEvidence.valid = some ScreenUnavailableReason.missing
record_screen_reason RecordEvidence.missing = some ScreenUnavailableReason.missing
record_screen_reason RecordEvidence.partial = some ScreenUnavailableReason.corrupt
record_screen_reason RecordEvidence.corrupt = some ScreenUnavailableReason.corrupt
record_screen_reason RecordEvidence.unsupported = some ScreenUnavailableReason.unsupported_schema

unfoldable pub checkpoint_reason : CheckpointEvidence → Option ScreenUnavailableReason
checkpoint_reason CheckpointEvidence.valid_contiguous = none
checkpoint_reason CheckpointEvidence.missing = some ScreenUnavailableReason.missing
checkpoint_reason CheckpointEvidence.corrupt = some ScreenUnavailableReason.corrupt
checkpoint_reason CheckpointEvidence.unsupported = some ScreenUnavailableReason.unsupported_schema
checkpoint_reason CheckpointEvidence.disconnected = some ScreenUnavailableReason.raw_gap
checkpoint_reason CheckpointEvidence.retention_evicted =
    some ScreenUnavailableReason.retention_evicted
checkpoint_reason CheckpointEvidence.resize_uncheckpointed =
    some ScreenUnavailableReason.resize_uncheckpointed

abbrev pub is_valid : RecordEvidence → Bool
is_valid RecordEvidence.valid = true
is_valid _ = false

abbrev pub is_final : Lifecycle → Bool
is_final Lifecycle.exited = true
is_final Lifecycle.lost = true
is_final Lifecycle.closed = true
is_final _ = false

abbrev pub is_same_host : HostEvidence → Bool
is_same_host HostEvidence.present_same = true
is_same_host _ = false

abbrev pub is_matched : ProcessEvidence → Bool
is_matched ProcessEvidence.matched = true
is_matched _ = false

abbrev pub is_unavailable : ProcessEvidence → Bool
is_unavailable ProcessEvidence.unavailable = true
is_unavailable _ = false

unfoldable pub reconcile : Input → Decision
unfolding record_screen_reason checkpoint_reason
reconcile input =
    let screen = checkpoint_reason input.checkpoint in
    if not (is_valid input.evidence)
    then record {
      disposition = isolate_corrupt;
      lifecycle = Lifecycle.lost;
      screen_unavailable = record_screen_reason input.evidence;
    }
    else if is_final input.lifecycle
    then record {
      disposition = retain_final;
      lifecycle = input.lifecycle;
      screen_unavailable = screen;
    }
    else if input.termination_present
    then record {
      disposition = finalize_exited;
      lifecycle = Lifecycle.exited;
      screen_unavailable = screen;
    }
    else if is_same_host input.host && is_matched input.process
    then record {
      disposition = retain_live;
      lifecycle = input.lifecycle;
      screen_unavailable = screen;
    }
    else if is_same_host input.host && is_unavailable input.process
    then record {
      disposition = Disposition.unavailable;
      lifecycle = input.lifecycle;
      screen_unavailable = screen;
    }
    else record { disposition = mark_lost; lifecycle = Lifecycle.lost; screen_unavailable = screen }
