-- ===== src/Subagent/Authority.antt =====
-- src/subagent_authority.rs: the authority a child is admitted with, and that of a resumed child.
pub mod Captured
use fx_rust.Prelude.{
  ℕ, ◌+◌, Bool, true, false, ◌&&◌, ◌||◌, String, len, is_empty_text, List, [], ◌∷◌, length, Option,
  none, some, Result, ok, err, Check, ◌>>=◌, ◌>>◌, fail_if, if◌then◌else◌, ltb, min,
}
use fx_rust.Prelude.U64.{u64_max}
use fx_rust.Permissions.Types.{PermissionMode, parse_mode}
use fx_rust.Subagent.Domain.Types.{
  ValidationError, max_admission_items, max_admission_item_bytes, max_model_bytes,
}
use fx_rust.Subagent.Domain.Text.{validate_id}
use fx_rust.Subagent.Admission.{AdmissionSnapshot}
use fx_rust.Subagent.Control.{SubagentRecord}

pub record AdmissionInput : Type 0 where
  pub parent_id : String
  pub source_id : String
  pub model : String
  pub provider : String
  pub effort : Option String
  pub permission_mode : PermissionMode
  pub tool_names : List String
  pub rules : List (String × String)
  pub grants : List (String × String)
  pub integration_names : List String
  pub authority_generation : ℕ

pub data AdmissionError : Type 0 where
  invalid_model too_many_admission_items invalid_admission_item : AdmissionError

abbrev pub or_error : AdmissionError → Check ValidationError → Check AdmissionError
or_error e (ok _) = ok tt
or_error e (err _) = err e

unfoldable pub validate_id_or : String → AdmissionError → Check AdmissionError
validate_id_or input e = or_error e (validate_id input)

unfoldable pub validate_admission_text : String → Check AdmissionError
validate_admission_text value =
    fail_if (is_empty_text value || ltb max_admission_item_bytes (len value)) invalid_admission_item

-- The loops over the names, and over the pairs.
unfoldable pub validate_names : List String → Check AdmissionError
validate_names [] = ok tt
validate_names (name ∷ names) =
    let rest = validate_names names in validate_admission_text name >> rest

unfoldable pub validate_pairs : List (String × String) → Check AdmissionError
validate_pairs [] = ok tt
validate_pairs (p ∷ pairs) =
    let rest = validate_pairs pairs in
    validate_admission_text p.0 >> (validate_admission_text p.1 >> rest)

abbrev pub snapshot_of : AdmissionInput → AdmissionSnapshot
snapshot_of input = record {
  parent_id = input.parent_id;
  source_id = input.source_id;
  model = input.model;
  provider = if is_empty_text input.provider then "gateway" else input.provider;
  effort = input.effort;
  permission_mode = input.permission_mode;
  tool_names = input.tool_names;
  rules = input.rules;
  grants = input.grants;
  integration_names = input.integration_names;
  authority_generation = input.authority_generation;
}

unfoldable pub capture_admission : AdmissionInput → Result AdmissionError AdmissionSnapshot
capture_admission input = do
  validate_id_or input.parent_id invalid_admission_item
  validate_id_or input.source_id invalid_admission_item
  fail_if (is_empty_text input.model || ltb max_model_bytes (len input.model)) invalid_model
  fail_if
      (ltb max_admission_items (length input.tool_names)
        || ltb max_admission_items (length input.rules)
        || ltb max_admission_items (length input.grants)
        || ltb max_admission_items (length input.integration_names))
      too_many_admission_items
  validate_names input.tool_names
  validate_names input.integration_names
  validate_pairs input.rules
  validate_pairs input.grants
  ok (snapshot_of input)

-- The model of the live configuration, else that of the prior snapshot, else the marker.
abbrev pub prior_model : Option AdmissionSnapshot → String
prior_model none = "default"
prior_model (some a) = if is_empty_text a.model then "default" else a.model

abbrev pub resumed_model : Option String → Option AdmissionSnapshot → String
resumed_model (some m) prior = m
resumed_model none prior = prior_model prior

abbrev pub mode_or_auto : Result String PermissionMode → PermissionMode
mode_or_auto (ok m) = m
mode_or_auto (err _) = PermissionMode.auto

abbrev pub prior_tools : Option AdmissionSnapshot → List String
prior_tools none = []
prior_tools (some a) = a.tool_names

-- `saturating_add(1)` on the prior generation
abbrev pub next_authority : Option AdmissionSnapshot → ℕ
next_authority none = 0
next_authority (some a) = min u64_max (a.authority_generation + 1)

abbrev pub resume_input : SubagentRecord → String → String → AdmissionInput
resume_input r parent_id source_id = record {
  parent_id = parent_id;
  source_id = source_id;
  model = resumed_model r.configuration.model r.admission;
  provider = "";
  effort = none;
  permission_mode = mode_or_auto (parse_mode r.configuration.permission_mode);
  tool_names = prior_tools r.admission;
  rules = [];
  grants = [];
  integration_names = [];
  authority_generation = 0;
}

unfoldable pub resume_admission :
    SubagentRecord → String → String → Result AdmissionError AdmissionSnapshot
resume_admission r parent_id source_id = do
  snapshot ← capture_admission (resume_input r parent_id source_id)
  ok (record snapshot { authority_generation = next_authority r.admission })
