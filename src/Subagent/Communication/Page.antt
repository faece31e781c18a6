-- ===== src/Subagent/Communication/Page.antt =====
-- Pages of the ledger, and the projection for the parent, against the whole history.
use fx_rust.Prelude.{
  ℕ, suc, ◌+◌, ◌-◌, ◌≤◌, ◌<◌, ◌≡◌, sym, ap, ◌∙◌, String, List, [], ◌∷◌, reverse, arith, length,
  drop, drop-nil, drop-drop, take, keep, min, max, ltb, ◌&&◌, true, All, All-take, All-append,
  eq_iff, length-take,
}
use mathlib.Core.List.{reverse-cons}
use native.Mathlib.Decide.{dec_le}
use fx_rust.Subagent.Domain.Types.{max_page_limit}
use fx_rust.Subagent.Communication.{
  Ledger, Delivery, read_page, max_deliveries, project_child_deliveries, projected,
  visible_to_parent, delivery_kind,
}
use fx_rust.Subagent.Communication.Retention.{Numbered, Numbered-drop, HasHistory}

-- Of numbered deliveries those after two bounds are an end of the list.
keep_after :
    (k a b : ℕ) (ds : List Delivery)
    → Numbered k ds
    → keep (λ d. ltb a d.sequence && ltb b d.sequence) ds ≡ drop (suc (max a b) - k) ds
keep_after k a b [] h = sym (drop-nil (suc (max a b) - k))
keep_after k a b (d ∷ ds) h = elim (dec_le k (max a b)) [
  | yes early ↦
      let e : suc (max a b) - k ≡ suc (suc (max a b) - suc k) = omega arith in
      rw e (ground (arith, keep_after (suc k) a b ds))
  | no late ↦
      let e : suc (max a b) - k ≡ 0 = omega arith in
      let e' : suc (max a b) - suc k ≡ 0 = omega arith in
      rw e (ground (arith, rw e' at (keep_after (suc k) a b ds h.1)))
]

-- A page of a ledger with a history is what the history holds behind the requested sequence, less
-- what is evicted, newest first, and cut to the limit and to 100.
pub read_page_refines :
    (l : Ledger) (h : List Delivery) (after limit : ℕ)
    → HasHistory l h
    → read_page l after limit
      ≡ take (min limit max_page_limit) (reverse (drop (max after (length h - max_deliveries)) h))
unfolding read_page
read_page_refines l h after limit r =
    let n = length h - max_deliveries in
    let kept : keep (λ d. ltb after d.sequence && ltb l.parent_turn_evicted_through d.sequence)
          l.deliveries
        ≡ drop (max after n) h =
      rw (r.through, r.retained)
        (keep_after (1 + n) after n (drop n h) (Numbered-drop 1 n h r.numbered)
          ∙ drop-drop (suc (max after n) - (1 + n)) n h
          ∙ ap (λ k. drop k h) (omega arith)) in
    ap (λ ds. take (min limit max_page_limit) (reverse ds)) kept

-- What the parent may see of a child's ledger.
abbrev pub IsVisible : Ledger → String → Delivery → Type 0
IsVisible l parent_id d =
    (d.target_id ≡ parent_id)
    × (l.parent_turn_evicted_through < d.sequence)
    × (visible_to_parent (delivery_kind d.payload) ≡ true)

module _ {ℓ κ} {A : Type ℓ} (P : A → Type κ) where
  All-reverse : (xs : List A) → All P xs → All P (reverse xs)
  All-reverse [] h = tt
  All-reverse (x ∷ xs) (px, h) =
      rw reverse-cons (All-append P (reverse xs) (x ∷ []) (All-reverse xs h) (px, tt))

keep-IsVisible :
    (l : Ledger) (parent_id : String) (ds : List Delivery)
    → All (IsVisible l parent_id) (keep (projected l parent_id) ds)
keep-IsVisible l parent_id [] = tt
keep-IsVisible l parent_id (d ∷ ds) =
    ground (arith, keep-IsVisible l parent_id ds, eq_iff d.target_id parent_id)

-- The parent's view of a child holds only deliveries to that parent, of the four visible kinds and
-- not evicted, and no more of them than the limit and than 100.
project_child_deliveries_bounds :
    (l : Ledger) (parent_id : String) (limit : ℕ)
    → let page = project_child_deliveries l parent_id limit in
      All (IsVisible l parent_id) page × (length page ≤ limit) × (length page ≤ max_page_limit)
unfolding project_child_deliveries
project_child_deliveries_bounds l parent_id limit =
    let found = reverse (keep (projected l parent_id) l.deliveries) in
    (
      All-take (IsVisible l parent_id) (min limit max_page_limit) found
          (All-reverse (IsVisible l parent_id) _ (keep-IsVisible l parent_id l.deliveries)),
      omega (arith, length-take (min limit max_page_limit) found),
      omega (arith, length-take (min limit max_page_limit) found),
    )
