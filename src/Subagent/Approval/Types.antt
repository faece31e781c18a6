-- ===== src/Subagent/Approval/Types.antt =====
-- The types of src/subagent_approval.rs. A fingerprint is the list of its bytes.
use fx_rust.Prelude.{ℕ, ℤ, Bool, true, false, ◌&&◌, ◌==◌, String, Option, List, [], ◌∷◌}
use fx_rust.Subagent.Domain.Types.{RelationshipAction}

pub data ApprovalKind : Type 0 where
  tool relationship : ApprovalKind

pub data ApprovalStatus : Type 0 where
  pending allowed_once allowed_always denied cancelled stale consumed : ApprovalStatus

-- `status == Pending`; the source's `is_settled` is its negation.
abbrev pub is_pending : ApprovalStatus → Bool
is_pending ApprovalStatus.pending = true
is_pending _ = false

abbrev pub is_allowed : ApprovalStatus → Bool
is_allowed ApprovalStatus.allowed_once = true
is_allowed ApprovalStatus.allowed_always = true
is_allowed _ = false

pub data ApprovalDecision : Type 0 where
  once always deny : ApprovalDecision

pub record RelationshipApprovalInput : Type 0 where
  pub action : RelationshipAction
  pub prospective_parent_id : String
  pub operation_id : String

pub record Approval : Type 0 where
  pub id : String
  pub kind : ApprovalKind
  pub child_id : String
  pub root_id : String
  pub work_id : Option String
  pub relationship : Option RelationshipApprovalInput
  pub prepared_fingerprint : List ℕ
  pub identity_fingerprint : List ℕ
  pub label : String
  pub explanation : Option String
  pub command : Option String
  pub grants : List (String × String)
  pub status : ApprovalStatus
  pub created_at_ms : ℤ
  pub resolved_at_ms : Option ℤ
  pub resolved_revision : Option ℕ

pub record ApprovalInput : Type 0 where
  pub id : String
  pub kind : ApprovalKind
  pub child_id : String
  pub root_id : String
  pub work_id : Option String
  pub relationship : Option RelationshipApprovalInput
  pub prepared_fingerprint : List ℕ
  pub label : String
  pub explanation : Option String
  pub command : Option String
  pub grants : List (String × String)
  pub created_at_ms : ℤ

pub record ApprovalResponse : Type 0 where
  pub request_id : String
  pub child_id : String
  pub decision : ApprovalDecision
  pub feedback : Option String
  pub timestamp_ms : ℤ

pub record ApprovalContext : Type 0 where
  pub attached : Bool
  pub child_cancelled : Bool
  pub child_closed : Bool

pub data RejectReason : Type 0 where
  stale wrong_child resolved detached cancelled closed malformed : RejectReason

pub data ApprovalDecisionOutcome : Type 0 where
  accept_once accept_always deny : ApprovalDecisionOutcome
  reject : RejectReason → ApprovalDecisionOutcome

pub data RegisterApprovalResult : Type 0 where
  registered replay : RegisterApprovalResult

pub data ApprovalError : Type 0 where
  invalid_approval : String → ApprovalError
  request_conflict capacity_exceeded not_found already_resolved : ApprovalError

-- `==` on fingerprints.
abbrev pub same_bytes : List ℕ → List ℕ → Bool
same_bytes [] [] = true
same_bytes (x ∷ xs) (y ∷ ys) = x == y && same_bytes xs ys
same_bytes _ _ = false

pub record PendingRoute : Type 0 where
  pub request_id : String
  pub child_id : String
  pub label : String

pub record PendingRouteSnapshot : Type 0 where
  pub revision : ℕ
  pub total : ℕ
  pub offset : ℕ
  pub previous_offset : Option ℕ
  pub next_offset : Option ℕ
  pub routes : List PendingRoute
