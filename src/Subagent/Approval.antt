-- ===== src/Subagent/Approval.antt =====
-- src/subagent_approval.rs: the durable approvals on a child's ledger. The clock's reading is the
-- argument `now`; SHA-256 is the argument `sha256`.
pub mod Types
pub mod Fingerprint
pub mod Decision
pub mod Register
pub mod Delivered
pub mod Invalidate
pub mod Routes
use fx_rust.Prelude.{
  ℕ, ◌+◌, ◌-◌, ◌*◌, ◌/◌, ◌%◌, ℤ, Bool, true, false, ◌&&◌, ◌||◌, not, String, len, str_eq,
  is_empty_text, any_char, is_whitespace, List, [], ◌∷◌, ◌++◌, length, take, drop, find, keep,
  update_first, is_empty, map, Option, none, some, Result, ok, err, Check, ◌>>=◌, ◌>>◌, fail_if,
  ok_or, check_some, if◌then◌else◌, ltb, leb, ◌==◌, min,
}
use fx_rust.Subagent.Domain.Types.{max_admission_items}
use fx_rust.Subagent.Communication.{Ledger, Delivery, DeliveryPayload, deliver, max_approvals}
use fx_rust.Subagent.Approval.Types.*
use fx_rust.Subagent.Approval.Fingerprint.{approval_identity_fingerprint}

abbrev decided : Approval → ApprovalDecision → ApprovalDecisionOutcome
decided approval ApprovalDecision.once = accept_once
decided approval ApprovalDecision.always =
    if is_empty approval.grants then reject RejectReason.malformed else accept_always
decided approval ApprovalDecision.deny = ApprovalDecisionOutcome.deny

unfoldable pub decide_approval_response :
    Approval → ApprovalResponse → ApprovalContext → ApprovalDecisionOutcome
decide_approval_response approval response context =
    if not (str_eq approval.id response.request_id)
    then reject RejectReason.stale
    else if not (str_eq approval.child_id response.child_id)
    then reject RejectReason.wrong_child
    else if not (is_pending approval.status)
    then reject RejectReason.resolved
    else if not context.attached
    then reject RejectReason.detached
    else if context.child_cancelled
    then reject RejectReason.cancelled
    else if context.child_closed
    then reject RejectReason.closed
    else decided approval response.decision

-- The checks of this file, which are not those of the domain.
unfoldable pub validate_id : String → Check ApprovalError
validate_id s =
    fail_if
      (is_empty_text s
        || ltb 255 (len s)
        || any_char (λ c. c == b'/') s
        || any_char (λ c. c == b'\\') s
        || any_char (λ c. c == b'"') s
        || any_char (λ c. c == b'\'') s
        || any_char is_whitespace s)
      (invalid_approval "invalid id")

abbrev as_operation_error : Check ApprovalError → Check ApprovalError
as_operation_error (ok _) = ok tt
as_operation_error (err _) = err (invalid_approval "invalid operation id")

unfoldable pub validate_operation_id : String → Check ApprovalError
validate_operation_id s = as_operation_error (validate_id s)

unfoldable pub validate_content : String → Check ApprovalError
validate_content s =
    fail_if (is_empty_text s || ltb (64 * 1024) (len s)) (invalid_approval "invalid content")

-- The checks that `register_approval` starts with.
unfoldable pub validate_input : ApprovalInput → Check ApprovalError
validate_input input = do
  validate_operation_id input.id
  validate_id input.child_id
  validate_id input.root_id
  check_some validate_operation_id input.work_id
  validate_content input.label
  check_some validate_content input.explanation
  fail_if (ltb max_admission_items (length input.grants)) (invalid_approval "grants too many")

abbrev pub new_approval : ApprovalInput → List ℕ → Approval
new_approval input identity = record {
  id = input.id;
  kind = input.kind;
  child_id = input.child_id;
  root_id = input.root_id;
  work_id = input.work_id;
  relationship = input.relationship;
  prepared_fingerprint = input.prepared_fingerprint;
  identity_fingerprint = identity;
  label = input.label;
  explanation = input.explanation;
  command = input.command;
  grants = input.grants;
  status = ApprovalStatus.pending;
  created_at_ms = input.created_at_ms;
  resolved_at_ms = none;
  resolved_revision = none;
}

-- `deliveries.last_mut()` and the write of its operation.
abbrev pub correlate_last : String → List Delivery → List Delivery
correlate_last id [] = []
correlate_last id (d ∷ []) = record d { operation_id = some id } ∷ []
correlate_last id (d ∷ e ∷ ds) = d ∷ correlate_last id (e ∷ ds)

-- The last part of `register_approval`, on an id that is new and with room for it.
unfoldable pub append_approval : Ledger → ApprovalInput → List ℕ → ℤ → Ledger
append_approval l input identity now =
    let delivered =
      (deliver l input.child_id input.root_id (DeliveryPayload.approval input.label) now).0 in
    record delivered {
      deliveries = correlate_last input.id delivered.deliveries;
      approvals = delivered.approvals ++ new_approval input identity ∷ [];
    }

abbrev pub is_request : String → Approval → Bool
is_request id a = str_eq a.id id

abbrev admitted :
    Ledger
    → ApprovalInput
    → List ℕ
    → ℤ
    → Option Approval
    → Result ApprovalError (Ledger × RegisterApprovalResult)
admitted l input identity now (some existing) =
    if same_bytes existing.identity_fingerprint identity
    then ok (l, replay)
    else err request_conflict
admitted l input identity now none =
    if leb max_approvals (length l.approvals)
    then err capacity_exceeded
    else ok (append_approval l input identity now, registered)

unfoldable pub register_approval :
    (List ℕ → List ℕ)
    → Ledger
    → ApprovalInput
    → ℤ
    → Result ApprovalError (Ledger × RegisterApprovalResult)
register_approval sha256 l input now = do
  validate_input input
  admitted l input (approval_identity_fingerprint sha256 input) now
      (find (is_request input.id) l.approvals)

unfoldable pub commit_status : ApprovalStatus → ℤ → ℕ → Approval → Approval
commit_status status timestamp_ms resolved_revision approval = record approval {
  status = status;
  resolved_at_ms = some timestamp_ms;
  resolved_revision = some resolved_revision;
}

-- The write to the approval that an outcome brings.
unfoldable pub settle : ApprovalDecisionOutcome → ℤ → ℕ → Approval → Approval
settle accept_once now revision a = commit_status ApprovalStatus.allowed_once now revision a
settle accept_always now revision a = commit_status ApprovalStatus.allowed_always now revision a
settle ApprovalDecisionOutcome.deny now revision a =
    commit_status ApprovalStatus.denied now revision a
settle (reject _) now revision a = a

unfoldable pub resolve_approval :
    Ledger
    → ApprovalResponse
    → ApprovalContext
    → ℕ
    → Result ApprovalError (Ledger × ApprovalDecisionOutcome)
resolve_approval l response context resolved_revision = do
  approval ← ok_or (find (is_request response.request_id) l.approvals) not_found
  let outcome = decide_approval_response approval response context
  ok (
    record l {
      approvals =
          update_first (is_request response.request_id)
            (settle outcome response.timestamp_ms resolved_revision) l.approvals;
    },
    outcome,
  )

abbrev pub is_invalidation : ApprovalStatus → Bool
is_invalidation ApprovalStatus.cancelled = true
is_invalidation ApprovalStatus.stale = true
is_invalidation _ = false

-- The loop of `invalidate_child_approvals`: the approvals, and how many changed.
unfoldable pub invalidate_all : String → ApprovalStatus → ℤ → ℕ → List Approval → List Approval × ℕ
invalidate_all child_id status now revision [] = ([], 0)
invalidate_all child_id status now revision (a ∷ later) =
    let rest = invalidate_all child_id status now revision later in
    if str_eq a.child_id child_id && is_pending a.status
    then (commit_status status now revision a ∷ rest.0, rest.1 + 1)
    else (a ∷ rest.0, rest.1)

unfoldable pub invalidate_child_approvals : Ledger → String → ApprovalStatus → ℤ → ℕ → Ledger × ℕ
invalidate_child_approvals l child_id status timestamp_ms resolved_revision =
    if not (is_invalidation status)
    then (l, 0)
    else let changed = invalidate_all child_id status timestamp_ms resolved_revision l.approvals in
      (record l { approvals = changed.0 }, changed.1)

unfoldable pub find_pending : Ledger → String → Option Approval
find_pending l request_id = find (λ a. str_eq a.id request_id && is_pending a.status) l.approvals
