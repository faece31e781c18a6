-- ===== src/Subagent/Approval/Delivered.antt =====
-- The delivery that a registration makes to the root.
use Prim.Native.String.{◌++◌ as ◌+++◌}
use fx_rust.Prelude.{
  ℕ, suc, ◌-◌, ◌≤◌, ◌<◌, ◌≡◌, refl, sym, ap, ◌∙◌, ℤ, String, List, [], ◌∷◌, ◌++◌, length,
  length-append_one, some, none, ok, arith, drop, drop-append_left, inl, inr,
}
use fx_rust.Prelude.U64.{u64_max, to_string}
use fx_rust.Subagent.Communication.{
  Ledger, Delivery, DeliveryPayload, deliver, new_delivery, max_deliveries,
}
use fx_rust.Subagent.Communication.Retention.{HasHistory, Numbered, deliver_refines}
use fx_rust.Subagent.Approval.Types.{ApprovalInput, registered}
use fx_rust.Subagent.Approval.{register_approval, append_approval, correlate_last}
use fx_rust.Subagent.Approval.Register.{register_approval_inv, identity_of}

correlate_last-append_one :
    (id : String) (ds : List Delivery) (d : Delivery)
    → correlate_last id (ds ++ d ∷ []) ≡ ds ++ record d { operation_id = some id } ∷ []
correlate_last-append_one id [] d = refl
correlate_last-append_one id (x ∷ []) d = refl
correlate_last-append_one id (x ∷ y ∷ ds) d =
    ap (λ xs. x ∷ xs) (correlate_last-append_one id (y ∷ ds) d)

Numbered-correlate_last :
    (k : ℕ) (id : String) (ds : List Delivery) → Numbered k ds → Numbered k (correlate_last id ds)
Numbered-correlate_last k id [] h = tt
Numbered-correlate_last k id (d ∷ []) h = h
Numbered-correlate_last k id (d ∷ e ∷ ds) h = (h.0, Numbered-correlate_last (suc k) id (e ∷ ds) h.1)

-- The delivery of a registration: from the child to the root, with the label as its payload and
-- the request's id as its operation.
abbrev pub approval_delivery : Ledger → ApprovalInput → ℤ → Delivery
approval_delivery l input now = record {
  sequence = l.next_sequence;
  revision = l.generation;
  id = "d-" +++ to_string l.next_sequence;
  source_id = input.child_id;
  target_id = input.root_id;
  work_id = none;
  operation_id = some input.id;
  timestamp_ms = now;
  payload = DeliveryPayload.approval input.label;
}

append_approval-HasHistory :
    (l : Ledger) (h : List Delivery) (input : ApprovalInput) (identity : List ℕ) (now : ℤ)
    → HasHistory l h
    → suc (length h) < u64_max
    → HasHistory (append_approval l input identity now) (h ++ approval_delivery l input now ∷ [])
unfolding append_approval deliver
append_approval-HasHistory l h input identity now r b =
    let d =
      new_delivery l input.child_id input.root_id (DeliveryPayload.approval input.label) now in
    let d' = approval_delivery l input now in
    let sent =
      (deliver_refines l h input.child_id input.root_id (DeliveryPayload.approval input.label) now r
        b).0 in
    let n = length (h ++ d ∷ []) - max_deliveries in
    let whole : correlate_last input.id (h ++ d ∷ []) ≡ h ++ d' ∷ [] =
      correlate_last-append_one input.id h d in
    let short : n ≤ length h = omega (arith, length-append_one h d) in
    let same_size : length (h ++ d' ∷ []) ≡ length (h ++ d ∷ []) =
      length-append_one h d' ∙ sym (length-append_one h d) in
    record {
      numbered = rw (← whole) (Numbered-correlate_last 1 input.id (h ++ d ∷ []) sent.numbered);
      retained =
          ap (correlate_last input.id) (sent.retained ∙ drop-append_left n h (d ∷ []) short)
          ∙ correlate_last-append_one input.id (drop n h) d
          ∙ sym (drop-append_left n h (d' ∷ []) short)
          ∙ ap (λ k. drop (k - max_deliveries) (h ++ d' ∷ [])) (sym same_size);
      next = sent.next ∙ ap suc (sym same_size);
      through = sent.through ∙ ap (λ k. k - max_deliveries) (sym same_size);
    }

-- A registration that is not a replay sends one delivery, which closes the history: its source is
-- the child and its target the root, it has the label as an approval, names the request as its
-- operation, and carries the next sequence, the generation, and an id made from that sequence. It
-- is shown while the history is shorter than 2 ^ 64 - 2.
pub register_approval_delivers :
    (sha256 : List ℕ → List ℕ) (l l' : Ledger) (h : List Delivery) (input : ApprovalInput) (now : ℤ)
    → HasHistory l h
    → suc (length h) < u64_max
    → register_approval sha256 l input now ≡ ok (l', registered)
    → HasHistory l' (h ++ approval_delivery l input now ∷ [])
register_approval_delivers sha256 l l' h input now r b e =
    elim (register_approval_inv sha256 l l' input now registered e).1 [
      | inl (a, found, same, e', differ) ↦ absurd cc
      | inr (found, few, e', _) ↦
          rw e' (append_approval-HasHistory l h input (identity_of sha256 input) now r b)
    ]
