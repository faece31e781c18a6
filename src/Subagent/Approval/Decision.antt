-- ===== src/Subagent/Approval/Decision.antt =====
-- Which responses to an approval are accepted, and what resolving one does to the others.
use fx_rust.Prelude.{
  ℕ, ◌≡◌, ◌≢◌, refl, ap, ◌∙◌, ℤ, Bool, true, false, ◌&&◌, not, Bool-cases, ◌↔◌, ◌⊎◌, sym, inl, inr,
  String, str_eq, eq_iff, List, [], ◌∷◌, find, find-update_first, update_first, update_first_same,
  is_empty, none, some, Option-cases, ok, if◌then◌else◌, arith, find-holds,
}
use fx_rust.Subagent.Communication.{Ledger}
use fx_rust.Subagent.Approval.Types.{
  Approval, ApprovalDecision, ApprovalDecisionOutcome, ApprovalContext, ApprovalResponse,
  RejectReason, reject, is_pending,
}
use fx_rust.Subagent.Approval.{
  decide_approval_response, resolve_approval, settle, commit_status, is_request,
}

abbrev pub is_accepted : ApprovalDecisionOutcome → Bool
is_accepted (reject _) = false
is_accepted _ = true

abbrev pub is_always : ApprovalDecision → Bool
is_always ApprovalDecision.always = true
is_always _ = false

-- A response that answers this pending approval of an attached child that still runs.
pub record IsAnswer (a : Approval) (r : ApprovalResponse) (c : ApprovalContext) : Type 0 where
  pub request : a.id ≡ r.request_id
  pub child : a.child_id ≡ r.child_id
  pub pending : is_pending a.status ≡ true
  pub attached : c.attached ≡ true
  pub not_cancelled : c.child_cancelled ≡ false
  pub not_closed : c.child_closed ≡ false

-- A response is accepted exactly when it names this approval and its child, the approval is
-- pending, the child is attached, neither cancelled nor closed, and the decision is not "always"
-- unless the approval carries grants.
pub decide_accepts_iff :
    (a : Approval) (r : ApprovalResponse) (c : ApprovalContext)
    → (is_accepted (decide_approval_response a r c) ≡ true)
      ↔ (IsAnswer a r c × ((is_always r.decision && is_empty a.grants) ≡ false))
unfolding decide_approval_response
decide_accepts_iff a r c = (
  λ h. (
    record {
      request = ground (arith, eq_iff a.id r.request_id);
      child = ground (arith, eq_iff a.child_id r.child_id);
      pending = ground arith;
      attached = ground arith;
      not_cancelled = ground arith;
      not_closed = ground arith;
    },
    ground arith,
  ),
  λ h. ground (
    arith,
    eq_iff a.id r.request_id,
    eq_iff a.child_id r.child_id,
    h.0.request,
    h.0.child,
    h.0.pending,
    h.0.attached,
    h.0.not_cancelled,
    h.0.not_closed,
  ),
)

-- On an approval that is settled each response is refused.
decide_settled :
    (a : Approval) (r : ApprovalResponse) (c : ApprovalContext)
    → str_eq a.id r.request_id ≡ true
    → is_pending a.status ≡ false
    → decide_approval_response a r c
      ≡ reject
          (if str_eq a.child_id r.child_id then RejectReason.resolved else RejectReason.wrong_child)
unfolding decide_approval_response
decide_settled a r c h s = ground arith

settle_fields :
    (o : ApprovalDecisionOutcome) (now : ℤ) (revision : ℕ) (a : Approval)
    → ((settle o now revision a).id ≡ a.id)
      × ((settle o now revision a).child_id ≡ a.child_id)
      × (is_pending (settle o now revision a).status ≡ (is_pending a.status && not (is_accepted o)))
unfolding settle commit_status
settle_fields o now revision a = ground arith

-- What a request that was found is resolved to.
resolved :
    (l : Ledger) (r : ApprovalResponse) (c : ApprovalContext) (revision : ℕ) (a : Approval)
    → find (is_request r.request_id) l.approvals ≡ some a
    → let o = decide_approval_response a r c in
      resolve_approval l r c revision
      ≡ ok (
        record l {
          approvals =
              update_first (is_request r.request_id) (settle o r.timestamp_ms revision) l.approvals;
        },
        o,
      )
unfolding resolve_approval
resolved l r c revision a found = rw found refl

rejected_unchanged :
    (l : Ledger) (r : ApprovalResponse) (c : ApprovalContext) (revision : ℕ) (a : Approval)
    (reason : RejectReason)
    → find (is_request r.request_id) l.approvals ≡ some a
    → decide_approval_response a r c ≡ reject reason
    → resolve_approval l r c revision ≡ ok (l, reject reason)
unfolding settle
rejected_unchanged l r c revision a reason found h =
    resolved l r c revision a found
    ∙ rw h (
        ap (λ as'. ok (record l { approvals = as' }, reject reason))
          (update_first_same (is_request r.request_id) (λ x. x) (λ x. refl) l.approvals))

unknown_request :
    (l l' : Ledger) (r : ApprovalResponse) (c : ApprovalContext) (revision : ℕ)
    (o : ApprovalDecisionOutcome)
    → find (is_request r.request_id) l.approvals ≡ none
    → resolve_approval l r c revision ≢ ok (l', o)
unfolding resolve_approval
unknown_request l l' r c revision o e h = ground (arith, e)

-- What an answered resolution found and wrote.
resolve_inv :
    (l l' : Ledger) (r : ApprovalResponse) (c : ApprovalContext) (revision : ℕ)
    (o : ApprovalDecisionOutcome)
    → resolve_approval l r c revision ≡ ok (l', o)
    → (a : Approval) × (find (is_request r.request_id) l.approvals ≡ some a)
      × (o ≡ decide_approval_response a r c)
      × (l'.approvals
          ≡ update_first (is_request r.request_id) (settle o r.timestamp_ms revision) l.approvals)
resolve_inv l l' r c revision o h =
    elim (Option-cases (find (is_request r.request_id) l.approvals)) [
      | inl e ↦ absurd (unknown_request l l' r c revision o e h)
      | inr (a, e) ↦
          let written = sym (resolved l r c revision a e) ∙ h in
          let same_outcome : o ≡ decide_approval_response a r c = cc in
          (a, e, same_outcome, rw same_outcome cc)
    ]

update_other :
    (id j : String) (f : Approval → Approval) (as' : List Approval)
    → ((a : Approval) → (f a).id ≡ a.id)
    → j ≢ id
    → find (is_request j) (update_first (is_request id) f as') ≡ find (is_request j) as'
update_other id j f [] keeps other = refl
update_other id j f (x ∷ as') keeps other =
    ground (arith, update_other id j f as' keeps other, eq_iff x.id id, eq_iff x.id j, keeps x)

-- A request is resolved once: after an accepted response every further response to it, by whomever
-- and in whatever context, is refused as resolved, or as one for another child, and the ledger
-- stays as it is.
pub resolve_approval_once :
    (l l' : Ledger) (r r' : ApprovalResponse) (c c' : ApprovalContext) (revision revision' : ℕ)
    (o : ApprovalDecisionOutcome)
    → resolve_approval l r c revision ≡ ok (l', o)
    → is_accepted o ≡ true
    → r'.request_id ≡ r.request_id
    → (reason : RejectReason) × (resolve_approval l' r' c' revision' ≡ ok (l', reject reason))
      × ((reason ≡ RejectReason.resolved) ⊎ (reason ≡ RejectReason.wrong_child))
resolve_approval_once l l' r r' c c' revision revision' o h accepted same =
    let before = resolve_inv l l' r c revision o h in
    let id = r.request_id in
    let fields = settle_fields o r.timestamp_ms revision before.0 in
    let named = find-holds (is_request id) l.approvals before.0 before.1 in
    let a' = settle o r.timestamp_ms revision before.0 in
    let named' : is_request id a' ≡ true = rw fields.0 named in
    let found : find (is_request r'.request_id) l'.approvals ≡ some a' =
      rw (same, before.3)
        (find-update_first (is_request id) (settle o r.timestamp_ms revision) l.approvals before.0
          before.1 named') in
    let settled : is_pending a'.status ≡ false = ground (arith, fields.2, accepted) in
    let same_child = str_eq a'.child_id r'.child_id in
    let reason = if same_child then RejectReason.resolved else RejectReason.wrong_child in
    let which : (reason ≡ RejectReason.resolved) ⊎ (reason ≡ RejectReason.wrong_child) =
      elim (Bool-cases same_child) [ inl e ↦ inl (rw e refl) | inr e ↦ inr (rw e refl) ] in
    let refused = decide_settled a' r' c' (rw same named') settled in
    (reason, rejected_unchanged l' r' c' revision' a' reason found refused, which)

-- Resolving a request leaves every other request as it was.
pub resolve_approval_others :
    (l l' : Ledger) (r : ApprovalResponse) (c : ApprovalContext) (revision : ℕ)
    (o : ApprovalDecisionOutcome) (j : String)
    → resolve_approval l r c revision ≡ ok (l', o)
    → j ≢ r.request_id
    → find (is_request j) l'.approvals ≡ find (is_request j) l.approvals
resolve_approval_others l l' r c revision o j h other =
    let before = resolve_inv l l' r c revision o h in
    rw before.3 (
      update_other r.request_id j (settle o r.timestamp_ms revision) l.approvals
        (λ a. (settle_fields o r.timestamp_ms revision a).0) other)
