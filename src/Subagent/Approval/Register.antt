-- ===== src/Subagent/Approval/Register.antt =====
-- Registering an approval: replays, the bounds of the list, and the delivery to the root.
use fx_rust.Prelude.{
  ℕ, ◌≤◌, ◌<◌, ◌≡◌, ◌⊎◌, refl, ap, ℤ, true, false, Bool-cases, inl, inr, String, eq_iff, List, [],
  ◌∷◌, ◌++◌, length, length-append_one, map, find, none, some, Option-cases, ok, leb, arith,
  Distinct, contains, string_eq, Distinct-append_one, >>-eq-ok,
}
use fx_rust.Subagent.Communication.{Ledger, deliver, max_approvals}
use fx_rust.Subagent.Approval.Types.{
  Approval, ApprovalInput, RegisterApprovalResult, registered, replay, same_bytes,
}
use fx_rust.Subagent.Approval.Fingerprint.{approval_identity_fingerprint}
use fx_rust.Subagent.Approval.{
  register_approval, admitted, append_approval, new_approval, validate_input, is_request,
}

abbrev pub approval_ids : List Approval → List String
approval_ids approvals = map (λ a. a.id) approvals

-- At most 64 approvals, with distinct ids.
pub record HasApprovals (l : Ledger) : Type 0 where
  pub few : length l.approvals ≤ max_approvals
  pub distinct : Distinct (approval_ids l.approvals)

same_bytes_refl : (bytes : List ℕ) → same_bytes bytes bytes ≡ true
same_bytes_refl [] = refl
same_bytes_refl (x ∷ bytes) = ground (arith, same_bytes_refl bytes)

approval_ids-append :
    (approvals : List Approval) (a : Approval)
    → approval_ids (approvals ++ a ∷ []) ≡ approval_ids approvals ++ a.id ∷ []
approval_ids-append [] a = refl
approval_ids-append (x ∷ approvals) a = ap (λ ids. x.id ∷ ids) (approval_ids-append approvals a)

find-contains :
    (approvals : List Approval) (id : String)
    → find (is_request id) approvals ≡ none
    → contains (approval_ids approvals) id ≡ false
find-contains [] id h = refl
find-contains (a ∷ approvals) id h = ground (arith, find-contains approvals id)

find-append_one :
    (approvals : List Approval) (a : Approval)
    → find (is_request a.id) approvals ≡ none
    → find (is_request a.id) (approvals ++ a ∷ []) ≡ some a
find-append_one [] a h = ground (arith, eq_iff a.id a.id)
find-append_one (x ∷ approvals) a h = ground (arith, find-append_one approvals a)

admitted_known :
    (l l' : Ledger) (input : ApprovalInput) (identity : List ℕ) (now : ℤ) (a : Approval)
    (res : RegisterApprovalResult)
    → admitted l input identity now (some a) ≡ ok (l', res)
    → (l' ≡ l) × (res ≡ replay) × (same_bytes a.identity_fingerprint identity ≡ true)
admitted_known l l' input identity now a res h =
    elim (Bool-cases (same_bytes a.identity_fingerprint identity)) [
      | inl e ↦ let written = rw e at h in (cc, cc, e)
      | inr e ↦ let written = rw e at h in absurd cc
    ]

admitted_fresh :
    (l l' : Ledger) (input : ApprovalInput) (identity : List ℕ) (now : ℤ)
    (res : RegisterApprovalResult)
    → admitted l input identity now none ≡ ok (l', res)
    → (l' ≡ append_approval l input identity now)
      × (res ≡ registered)
      × (length l.approvals < max_approvals)
admitted_fresh l l' input identity now res h =
    elim (Bool-cases (leb max_approvals (length l.approvals))) [
      | inl e ↦ let written = rw e at h in absurd cc
      | inr e ↦ let written = rw e at h in (cc, cc, ground (arith, e))
    ]

abbrev pub identity_of : (List ℕ → List ℕ) → ApprovalInput → List ℕ
identity_of sha256 input = approval_identity_fingerprint sha256 input

-- The two ways in which a registration succeeds.
abbrev pub Registration :
    (List ℕ → List ℕ) → Ledger → ApprovalInput → ℤ → Ledger → RegisterApprovalResult → Type 0
Registration sha256 l input now l' res =
    ((a : Approval) × (find (is_request input.id) l.approvals ≡ some a)
      × (same_bytes a.identity_fingerprint (identity_of sha256 input) ≡ true)
      × (l' ≡ l)
      × (res ≡ replay))
    ⊎ ((find (is_request input.id) l.approvals ≡ none)
        × (length l.approvals < max_approvals)
        × (l' ≡ append_approval l input (identity_of sha256 input) now)
        × (res ≡ registered))

module _ (sha256 : List ℕ → List ℕ) (l l' : Ledger) (input : ApprovalInput) (now : ℤ)
    (res : RegisterApprovalResult) where
  pub register_approval_inv :
      register_approval sha256 l input now ≡ ok (l', res)
      → (validate_input input ≡ ok tt) × Registration sha256 l input now l' res
  unfolding register_approval
  register_approval_inv h =
      let parts = >>-eq-ok (validate_input input) _ h in
      (
        parts.0,
        elim (Option-cases (find (is_request input.id) l.approvals)) [
          | inl e ↦
              let split =
                admitted_fresh l l' input (identity_of sha256 input) now res (rw e at parts.1) in
              inr (e, split.2, split.0, split.1)
          | inr (a, e) ↦
              let split =
                admitted_known l l' input (identity_of sha256 input) now a res (rw e at parts.1) in
              inl (a, e, split.2, split.0, split.1)
        ],
      )

  -- What the id names after a registration has the identity of the request.
  registered_identity :
      Registration sha256 l input now l' res
      → (a : Approval) × (find (is_request input.id) l'.approvals ≡ some a)
        × (same_bytes a.identity_fingerprint (identity_of sha256 input) ≡ true)
  unfolding append_approval deliver
  registered_identity (inl (a, found, same, e, _)) = (a, rw e found, same)
  registered_identity (inr (found, few, e, _)) =
      let a = new_approval input (identity_of sha256 input) in
      (a, rw e (find-append_one l.approvals a found), same_bytes_refl (identity_of sha256 input))

  -- A request that was registered, at first or as a replay, is a replay whenever it is registered
  -- again, and then nothing changes.
  pub register_approval_replay :
      (now' : ℤ)
      → register_approval sha256 l input now ≡ ok (l', res)
      → register_approval sha256 l' input now' ≡ ok (l', replay)
  unfolding register_approval
  register_approval_replay now' h =
      let parts = register_approval_inv h in
      let found = registered_identity parts.1 in rw (parts.0, found.1, found.2) refl

  -- A registration that succeeds keeps at most 64 approvals with distinct ids.
  pub register_approval-HasApprovals :
      register_approval sha256 l input now ≡ ok (l', res) → HasApprovals l → HasApprovals l'
  unfolding append_approval deliver
  register_approval-HasApprovals h ok_before = elim (register_approval_inv h).1 [
    | inl (a, found, same, e, _) ↦ rw e ok_before
    | inr (found, few, e, _) ↦
        let a = new_approval input (identity_of sha256 input) in
        rw e (record {
          few = omega (arith, length-append_one l.approvals a);
          distinct = rw (approval_ids-append l.approvals a) (
              Distinct-append_one (approval_ids l.approvals) input.id ok_before.distinct
                (find-contains l.approvals input.id found));
        })
  ]
