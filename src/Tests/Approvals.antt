-- ===== src/Tests/Approvals.antt =====
-- Concrete approvals of src/subagent_approval.rs, with a stand-in for SHA-256 that is the identity.
use fx_rust.Prelude.{
  ℕ, suc, ◌<◌, ◌≡◌, ◌≢◌, ◌↔◌, ◌⊎◌, refl, none, some, [], ◌∷◌, ◌++◌, ok, err, arith, pos, List,
  length, map, find, keep, true, false, is_empty, ◌&&◌, String, eq_iff,
}
use fx_rust.Subagent.Communication.{Ledger, new_ledger}
use fx_rust.Subagent.Communication.Retention.{HasHistory, new_ledger-HasHistory}
use fx_rust.Subagent.Approval.Types.{
  Approval, ApprovalKind, ApprovalStatus, ApprovalInput, ApprovalResponse, ApprovalContext,
  ApprovalDecision, RejectReason, registered, replay, accept_once, reject,
}
use fx_rust.Subagent.Approval.Fingerprint.{approval_identity_fingerprint}
use fx_rust.Subagent.Approval.{
  register_approval, append_approval, resolve_approval, decide_approval_response,
  invalidate_child_approvals, is_request, new_approval, settle,
}
use fx_rust.Subagent.Approval.Decision.{
  is_accepted, is_always, IsAnswer, decide_accepts_iff, resolve_approval_once,
}
use fx_rust.Subagent.Approval.Register.{
  HasApprovals, register_approval_replay, register_approval-HasApprovals,
}
use fx_rust.Subagent.Approval.Delivered.{approval_delivery, register_approval_delivers}
use fx_rust.Subagent.Approval.Invalidate.{
  Each, Invalidated, pending_of, pending_elsewhere, invalidate_child_approvals_settles,
}
use fx_rust.Subagent.Approval.Routes.{route}
use fx_rust.Subagent.Approval.Routes.Bounds.{all_routes, pending_approvals, all_routes_complete}

abbrev digest : List ℕ → List ℕ
digest bytes = bytes

abbrev request : ApprovalInput
request = record {
  id = "op-1";
  kind = ApprovalKind.tool;
  child_id = "child-1";
  root_id = "root";
  work_id = none;
  relationship = none;
  prepared_fingerprint = [];
  label = "run tests";
  explanation = none;
  command = some "make";
  grants = ("bash", "make") ∷ [];
  created_at_ms = pos 1;
}

abbrev empty : Ledger
empty = new_ledger "child-1"

abbrev asked : Ledger
asked = append_approval empty request (approval_identity_fingerprint digest request) (pos 2)

asks : register_approval digest empty request (pos 2) ≡ ok (asked, registered)
unfolding register_approval fx_rust.Subagent.Approval.validate_input
    fx_rust.Subagent.Approval.validate_operation_id fx_rust.Subagent.Approval.validate_id
    fx_rust.Prelude.is_whitespace fx_rust.Subagent.Approval.validate_content
asks = refl

register_approval_replay_example :
    register_approval digest asked request (pos 9) ≡ ok (asked, replay)
register_approval_replay_example =
    register_approval_replay digest empty asked request (pos 2) registered (pos 9) asks

empty-HasApprovals : HasApprovals empty
empty-HasApprovals = record { few = omega arith; distinct = tt }

register_approval-HasApprovals_example : HasApprovals asked
register_approval-HasApprovals_example =
    register_approval-HasApprovals digest empty asked request (pos 2) registered asks
      empty-HasApprovals

register_approval_delivers_example :
    HasHistory asked ([] ++ approval_delivery empty request (pos 2) ∷ [])
register_approval_delivers_example =
    register_approval_delivers digest empty asked [] request (pos 2)
      (new_ledger-HasHistory "child-1") (omega arith) asks

abbrev pending_request : Approval
pending_request = new_approval request []

abbrev other_request : Approval
other_request = record pending_request { id = "op-2"; child_id = "child-2" }

abbrev waiting : Ledger
waiting = record empty { approvals = pending_request ∷ other_request ∷ [] }

abbrev answer : ApprovalResponse
answer = record {
  request_id = "op-1";
  child_id = "child-1";
  decision = ApprovalDecision.once;
  feedback = none;
  timestamp_ms = pos 7;
}

abbrev attached : ApprovalContext
attached = record { attached = true; child_cancelled = false; child_closed = false }

decide_accepts_iff_example :
    (is_accepted (decide_approval_response pending_request answer attached) ≡ true) ↔ (
      IsAnswer pending_request answer attached
      × ((is_always answer.decision && is_empty pending_request.grants) ≡ false))
decide_accepts_iff_example = decide_accepts_iff pending_request answer attached

abbrev answered : Ledger
answered = record empty {
  approvals = settle accept_once (pos 7) 4 pending_request ∷ other_request ∷ [];
}

answers : resolve_approval waiting answer attached 4 ≡ ok (answered, accept_once)
unfolding resolve_approval decide_approval_response
answers = refl

resolve_approval_once_example :
    (reason : RejectReason) × (resolve_approval answered
        (record answer { decision = ApprovalDecision.deny })
        attached
        5
      ≡ ok (answered, reject reason))
    × ((reason ≡ RejectReason.resolved) ⊎ (reason ≡ RejectReason.wrong_child))
resolve_approval_once_example =
    resolve_approval_once waiting answered answer
      (record answer { decision = ApprovalDecision.deny }) attached attached 4 5 accept_once answers
      refl refl

invalidate_child_approvals_settles_example :
    let done = invalidate_child_approvals waiting "child-1" ApprovalStatus.cancelled (pos 8) 6 in
    Each
      (Invalidated "child-1" ApprovalStatus.cancelled (pos 8) 6)
      waiting.approvals
      done.0.approvals
    × (done.1 ≡ length (keep (pending_of "child-1") waiting.approvals))
    × (keep (pending_of "child-1") done.0.approvals ≡ [])
    × (keep (pending_elsewhere "child-1") done.0.approvals
        ≡ keep (pending_elsewhere "child-1") waiting.approvals)
    × (invalidate_child_approvals done.0 "child-1" ApprovalStatus.cancelled (pos 8) 6 ≡ (done.0, 0))
invalidate_child_approvals_settles_example =
    invalidate_child_approvals_settles "child-1" ApprovalStatus.cancelled (pos 8) 6 refl waiting

all_routes_complete_example :
    all_routes (suc (length (pending_approvals waiting))) waiting 0 1
    ≡ map route (pending_approvals waiting)
all_routes_complete_example = all_routes_complete waiting 1 (omega arith)
