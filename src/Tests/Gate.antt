-- ===== src/Tests/Gate.antt =====
-- Concrete calls at the permission gate, admissions and terminal records.
use fx_rust.Prelude.{
  ◌≡◌, ◌≢◌, ◌≤◌, arith, ◌↔◌, ◌⊎◌, refl, none, some, [], ◌∷◌, ◌++◌, ok, true, false, ◌||◌, All,
  str_eq, is_empty_text, len, length,
}
use fx_rust.Permissions.Types.{PermissionMode, Rule}
use fx_rust.Permissions.Paths.{Glob}
use fx_rust.Permissions.Gate.{
  Permissions, PermissionRequest, Candidate, patterns, whole, decide, by_rule, granted,
  needs_approval, allow_grant, unresolved, allowed, denied,
}
use fx_rust.Permissions.Best.{candidates}
use fx_rust.Permissions.Decisions.{
  decide_best, decide_grant, Yields, less_specific, no_stricter, same_strictness,
}
use fx_rust.Subagent.Domain.Types.{max_admission_items, max_model_bytes}
use fx_rust.Subagent.Domain.Text.{IsId}
use fx_rust.Subagent.Admission.{AdmissionSnapshot}
use fx_rust.Subagent.Control.{SubagentRecord, default_record}
use fx_rust.Subagent.Authority.{
  AdmissionInput, capture_admission, resume_admission, resume_input, snapshot_of, prior_tools,
  mode_or_auto, next_authority,
}
use fx_rust.Subagent.Authority.Captured.{
  IsAdmissible, IsSnapshot, IsResumed, IsItem, capture_admission_iff, resume_admission_keeps,
}
use fx_rust.TerminalRecovery.Reconcile.{
  Input, Lifecycle, RecordEvidence, HostEvidence, ProcessEvidence, CheckpointEvidence, reconcile,
  Disposition, retain_live, retain_final, finalize_exited, isolate_corrupt,
}
use fx_rust.TerminalRecovery.Table.{reconcile_sound, decided_again, IsOver, IsOpen, MayLive, kept}

-- A matcher for patterns without wildcards but the one that matches everything.
abbrev plain_glob : Glob
plain_glob pattern target = some (str_eq pattern "*" || str_eq pattern target)

abbrev call : PermissionRequest
call = record {
  tool_name = "run_command";
  target = "rm -r build";
  input_text = "";
  workspace = "/w";
}

abbrev gate : Permissions
gate = record {
  mode = PermissionMode.auto;
  rules =
      ("*", whole Rule.allow)
      ∷ ("bash", patterns (("*", Rule.ask) ∷ ("rm -r build", Rule.deny) ∷ []))
      ∷ [];
  grants = ("bash", "*") ∷ [];
}

abbrev allowing : Candidate
allowing = record { spec = 0; key_rank = 0; rule = Rule.allow }

abbrev asking : Candidate
asking = record { spec = 1; key_rank = 1; rule = Rule.ask }

abbrev denying : Candidate
denying = record { spec = 11; key_rank = 1; rule = Rule.deny }

call-candidates : candidates plain_glob gate.rules call ≡ (allowing ∷ asking ∷ []) ++ denying ∷ []
unfolding candidates fx_rust.Permissions.Gate.tool_kind fx_rust.Permissions.Paths.glob_matches
call-candidates = refl

denial_on_top : All (λ c. Yields c denying) ((allowing ∷ asking ∷ []) ++ denying ∷ [])
denial_on_top = (
  less_specific (omega arith),
  (less_specific (omega arith), (no_stricter refl refl same_strictness, tt)),
)

decide_best_example : decide plain_glob gate call ≡ denied "denied by rule"
decide_best_example =
    decide_best plain_glob gate call (allowing ∷ asking ∷ []) [] denying refl call-candidates
      denial_on_top

decide_grant_example :
    let before = decide plain_glob gate call in
    let after =
      decide plain_glob
        (record gate { grants = allow_grant gate.grants "bash" "rm -r build" })
        call in
    (after ≡ before) ⊎ ((before ≡ unresolved) × (after ≡ allowed))
decide_grant_example = decide_grant plain_glob gate call "bash" "rm -r build"

abbrev admission : AdmissionInput
admission = record {
  parent_id = "root";
  source_id = "root";
  model = "m";
  provider = "";
  effort = none;
  permission_mode = PermissionMode.ask;
  tool_names = "read_file" ∷ [];
  rules = [];
  grants = [];
  integration_names = [];
  authority_generation = 3;
}

capture_admission_iff_example :
    (capture_admission admission ≡ ok (snapshot_of admission))
    ↔ (IsAdmissible admission × IsSnapshot admission (snapshot_of admission))
capture_admission_iff_example = capture_admission_iff admission (snapshot_of admission)

abbrev interrupted : SubagentRecord
interrupted = record default_record { admission = some (snapshot_of admission) }

abbrev resumed : AdmissionSnapshot
resumed = record (snapshot_of (resume_input interrupted "root" "root")) { authority_generation = 4 }

resumes : resume_admission interrupted "root" "root" ≡ ok resumed
unfolding resume_admission capture_admission fx_rust.Subagent.Authority.validate_id_or
    fx_rust.Subagent.Domain.Text.validate_id fx_rust.Subagent.Domain.Text.is_id_char
    fx_rust.Subagent.Authority.validate_names fx_rust.Subagent.Authority.validate_admission_text
    fx_rust.Subagent.Authority.validate_pairs
resumes = refl

resume_admission_keeps_example :
    IsResumed interrupted "root" "root" resumed
    × IsId resumed.parent_id
    × IsId resumed.source_id
    × (is_empty_text resumed.model ≡ false)
    × (len resumed.model ≤ max_model_bytes)
    × (length resumed.tool_names ≤ max_admission_items)
    × All IsItem resumed.tool_names
resume_admission_keeps_example = resume_admission_keeps interrupted "root" "root" resumed resumes

abbrev terminal : Input
terminal = record {
  evidence = RecordEvidence.valid;
  lifecycle = Lifecycle.running;
  termination_present = false;
  host = HostEvidence.present_same;
  process = ProcessEvidence.matched;
  checkpoint = CheckpointEvidence.missing;
}

reconcile_sound_example :
    (((reconcile terminal).disposition ≡ isolate_corrupt)
      ↔ (terminal.evidence ≢ RecordEvidence.valid))
    × (((reconcile terminal).disposition ≡ retain_final)
        ↔ ((terminal.evidence ≡ RecordEvidence.valid) × IsOver terminal.lifecycle))
    × (((reconcile terminal).disposition ≡ finalize_exited) ↔ (
        (terminal.evidence ≡ RecordEvidence.valid)
        × IsOpen terminal.lifecycle
        × (terminal.termination_present ≡ true)))
    × (((reconcile terminal).disposition ≡ retain_live) ↔ (
        MayLive terminal
        × (terminal.host ≡ HostEvidence.present_same)
        × (terminal.process ≡ ProcessEvidence.matched)))
    × (((reconcile terminal).disposition ≡ Disposition.unavailable) ↔ (
        MayLive terminal
        × (terminal.host ≡ HostEvidence.present_same)
        × (terminal.process ≡ ProcessEvidence.unavailable)))
    × ((reconcile terminal).lifecycle ≡ kept (reconcile terminal).disposition terminal.lifecycle)
    × (((reconcile terminal).screen_unavailable ≡ none) ↔ (
        (terminal.evidence ≡ RecordEvidence.valid)
        × (terminal.checkpoint ≡ CheckpointEvidence.valid_contiguous)))
    × ((decided_again terminal).lifecycle ≡ (reconcile terminal).lifecycle)
reconcile_sound_example = reconcile_sound terminal
