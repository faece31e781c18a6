-- ===== src/Subagent/Approval/Invalidate.antt =====
-- Invalidating the pending approvals of a child.
use fx_rust.Prelude.{
  ℕ, ◌≡◌, ◌≢◌, ◌⊎◌, inl, inr, some, Bool-cases, eq_iff, refl, ap, ℤ, Bool, true, false, not, ◌&&◌,
  String, str_eq, List, [], ◌∷◌, length, arith, keep,
}
use fx_rust.Subagent.Communication.{Ledger}
use fx_rust.Subagent.Approval.Types.{Approval, ApprovalStatus, is_pending}
use fx_rust.Subagent.Approval.{
  invalidate_all, invalidate_child_approvals, is_invalidation, commit_status,
}

abbrev pub pending_of : String → Approval → Bool
pending_of child_id a = str_eq a.child_id child_id && is_pending a.status

abbrev pub pending_elsewhere : String → Approval → Bool
pending_elsewhere child_id a = not (str_eq a.child_id child_id) && is_pending a.status

-- Related place by place.
abbrev pub Each : (Approval → Approval → Type 0) → List Approval → List Approval → Type 0
Each R [] [] = Unit
Each R [] (b ∷ bs) = ⊥
Each R (a ∷ as') [] = ⊥
Each R (a ∷ as') (b ∷ bs) = R a b × Each R as' bs

-- What becomes of an approval: a pending one of the child has the status, the time and the revision
-- of its resolution, any other one is as it was.
abbrev pub Invalidated : String → ApprovalStatus → ℤ → ℕ → Approval → Approval → Type 0
Invalidated child_id status now revision a b =
    ((a.child_id ≡ child_id)
      × (a.status ≡ ApprovalStatus.pending)
      × (b ≡ record a {
        status = status;
        resolved_at_ms = some now;
        resolved_revision = some revision;
      }))
    ⊎ (((a.child_id ≢ child_id) ⊎ (a.status ≢ ApprovalStatus.pending)) × (b ≡ a))

module _ (child_id : String) (status : ApprovalStatus) (now : ℤ) (revision : ℕ)
    (settles : is_invalidation status ≡ true) where
  settled_status : is_pending status ≡ false
  settled_status = ground arith

  Each-Invalidated :
      (as' : List Approval)
      → Each
          (Invalidated child_id status now revision)
          as'
          (invalidate_all child_id status now revision as').0
  unfolding invalidate_all commit_status
  Each-Invalidated [] = tt
  Each-Invalidated (a ∷ as') = elim (Bool-cases (str_eq a.child_id child_id)) [
    | inl e ↦ elim (Bool-cases (is_pending a.status)) [
      | inl e' ↦
          rw (e, e')
            (inl ((eq_iff a.child_id child_id).0 e, ground (arith, e'), refl), Each-Invalidated as')
      | inr e' ↦ rw (e, e') (inr (inr (λ p. ground (arith, e', p)), refl), Each-Invalidated as')
    ]
    | inr e ↦ rw e (
      inr (inl (λ p. ground (arith, e, (eq_iff a.child_id child_id).1 p)), refl),
      Each-Invalidated as',
    )
  ]

  none_pending :
      (as' : List Approval)
      → keep (pending_of child_id) (invalidate_all child_id status now revision as').0 ≡ []
  unfolding invalidate_all commit_status
  none_pending [] = refl
  none_pending (a ∷ as') = ground (arith, none_pending as', settled_status)

  counted :
      (as' : List Approval)
      → (invalidate_all child_id status now revision as').1
        ≡ length (keep (pending_of child_id) as')
  unfolding invalidate_all
  counted [] = refl
  counted (a ∷ as') = ground (arith, counted as')

  others_kept :
      (as' : List Approval)
      → keep (pending_elsewhere child_id) (invalidate_all child_id status now revision as').0
        ≡ keep (pending_elsewhere child_id) as'
  unfolding invalidate_all commit_status
  others_kept [] = refl
  others_kept (a ∷ as') = ground (arith, others_kept as', settled_status)

  unchanged :
      (as' : List Approval)
      → keep (pending_of child_id) as' ≡ []
      → invalidate_all child_id status now revision as' ≡ (as', 0)
  unfolding invalidate_all
  unchanged [] h = refl
  unchanged (a ∷ as') h = ground (arith, unchanged as')

  -- Invalidation as cancelled or stale: each pending approval of the child has that status
  -- afterwards, with the time and the revision of its resolution and all else as it was, and every
  -- other approval is as it was, each in its place. The number of the child's pending approvals is
  -- returned, none of them is left pending, the pending approvals of other children are the same,
  -- and a second invalidation changes nothing and returns 0.
  pub invalidate_child_approvals_settles :
      (l : Ledger)
      → let done = invalidate_child_approvals l child_id status now revision in
        Each (Invalidated child_id status now revision) l.approvals done.0.approvals
        × (done.1 ≡ length (keep (pending_of child_id) l.approvals))
        × (keep (pending_of child_id) done.0.approvals ≡ [])
        × (keep (pending_elsewhere child_id) done.0.approvals
            ≡ keep (pending_elsewhere child_id) l.approvals)
        × (invalidate_child_approvals done.0 child_id status now revision ≡ (done.0, 0))
  unfolding invalidate_child_approvals
  invalidate_child_approvals_settles l = rw settles (
    Each-Invalidated l.approvals,
    counted l.approvals,
    none_pending l.approvals,
    others_kept l.approvals,
    ap (λ done. (record l { approvals = done.0 }, done.1))
        (unchanged (invalidate_all child_id status now revision l.approvals).0
          (none_pending l.approvals)),
  )
