-- ===== src/Subagent/Approval/Routes/Bounds.antt =====
-- The pages of pending approvals: aligned, in range, and together all of them.
use fx_rust.Prelude.{
  ℕ, zero, suc, ◌+◌, ◌-◌, ◌*◌, ◌/◌, ◌%◌, ◌≤◌, ◌<◌, ◌≡◌, refl, sym, ap, ◌∙◌, ◌&&◌, true, false, List,
  [], ◌∷◌, ◌++◌, length, take, drop, keep, map, Option, none, some, arith, min, length-drop,
  drop-drop, ltb, if◌then◌else◌,
}
use mathlib.Core.List.{map-append}
use native.Mathlib.Nat.{
  mul-mod_left, mod-eq-sub-div-mul, le-div_iff_mul-le, mul-le-mul_right, div-mul-le_self, suc-mul,
  zero-mul, zero-mod,
}
use native.Mathlib.Decide.{dec_lt}
use fx_rust.Subagent.Communication.{Ledger}
use fx_rust.Subagent.Approval.Types.{Approval, is_pending, PendingRoute}
use fx_rust.Subagent.Approval.Routes.{pending_route_page_offset, snapshot_pending_routes, route}

take-append-drop : {A : Type 0} (n : ℕ) (xs : List A) → take n xs ++ drop n xs ≡ xs
take-append-drop zero xs = refl
take-append-drop (suc n) [] = refl
take-append-drop (suc n) (x ∷ xs) = ap (λ ys. x ∷ ys) (take-append-drop n xs)

drop_all : {A : Type 0} (n : ℕ) (xs : List A) → length xs ≤ n → drop n xs ≡ []
drop_all zero [] h = refl
drop_all (suc n) [] h = refl
drop_all zero (x ∷ xs) h = absurd (omega arith)
drop_all (suc n) (x ∷ xs) h = drop_all n xs (omega arith)

-- The page that starts at a multiple of the limit, in range, is found where it was requested.
page_offset_at :
    (total k limit : ℕ)
    → 0 < limit
    → k * limit < total
    → pending_route_page_offset total (k * limit) limit ≡ k * limit
unfolding pending_route_page_offset
page_offset_at total k limit pos inside =
    let whole : k * limit % limit ≡ 0 = mul-mod_left k limit in
    let page : k ≤ (total - 1) / limit = (le-div_iff_mul-le pos).1 (omega arith) in
    let last : k * limit ≤ (total - 1) / limit * limit = mul-le-mul_right limit page in
    ground (arith, whole, last)

-- The offset of a page is a multiple of the limit, not behind the request, and in the list, so
-- that the slice from it is in range.
pub page_offset_bounds :
    (total requested limit : ℕ)
    → 0 < limit
    → let offset = pending_route_page_offset total requested limit in
      (offset % limit ≡ 0) × (offset ≤ requested) × (offset ≤ total - 1)
unfolding pending_route_page_offset
page_offset_bounds total requested limit pos =
    let below : (total - 1) / limit * limit ≤ total - 1 = div-mul-le_self (total - 1) limit in
    let aligned : (total - 1) / limit * limit % limit ≡ 0 =
      mul-mod_left ((total - 1) / limit) limit in
    let down : requested - requested % limit ≡ requested / limit * limit =
      omega (arith, mod-eq-sub-div-mul requested limit, div-mul-le_self requested limit) in
    let aligned' : (requested - requested % limit) % limit ≡ 0 =
      rw down (mul-mod_left (requested / limit) limit) in
    (ground (arith, aligned, aligned', zero-mod limit), ground arith, ground (arith, below))

abbrev follow : (ℕ → List PendingRoute) → Option ℕ → List PendingRoute
follow next none = []
follow next (some offset) = next offset

-- The pages from an offset on, following `next_offset`, at most `n` of them.
unfoldable pub all_routes : ℕ → Ledger → ℕ → ℕ → List PendingRoute
all_routes zero l offset limit = []
all_routes (suc n) l offset limit =
    let page = snapshot_pending_routes l offset limit in
    page.routes ++ follow (λ offset'. all_routes n l offset' limit) page.next_offset

abbrev pub pending_approvals : Ledger → List Approval
pending_approvals l = keep (λ a. is_pending a.status) l.approvals

-- The link to the next page leads to the rest of the list.
follow_rest :
    (n k : ℕ) (l : Ledger) (limit : ℕ)
    → 0 < limit
    → k * limit < length (pending_approvals l)
    → (count : ℕ) → count ≡ min limit (length (pending_approvals l) - k * limit)
    → (suc k * limit < length (pending_approvals l)
        → length (pending_approvals l) ≤ suc k * limit + n
        → all_routes n l (suc k * limit) limit
          ≡ map route (drop (suc k * limit) (pending_approvals l)))
    → length (pending_approvals l) ≤ k * limit + suc n
    → follow
        (λ offset'. all_routes n l offset' limit)
        (if ltb 0 limit && ltb (k * limit + count) (length (pending_approvals l))
          then some (k * limit + count)
          else none)
      ≡ map route (drop count (drop (k * limit) (pending_approvals l)))
follow_rest n k l limit pos inside count e later enough =
    elim (dec_lt (k * limit + count) (length (pending_approvals l))) [
      | yes more ↦
          let positive : ltb 0 limit ≡ true = ground (arith, pos) in
          let test : ltb (k * limit + count) (length (pending_approvals l)) ≡ true =
            ground (arith, more) in
          let next : k * limit + count ≡ suc k * limit = omega (arith, suc-mul k limit) in
          rw (positive, test, drop-drop count (k * limit) (pending_approvals l), next)
            (later (omega (arith, next)) (omega (arith, suc-mul k limit)))
      | no last ↦
          let positive : ltb 0 limit ≡ true = ground (arith, pos) in
          let test : ltb (k * limit + count) (length (pending_approvals l)) ≡ false =
            ground (arith, last) in
          let empty =
            drop_all count (drop (k * limit) (pending_approvals l))
              (omega (arith, length-drop (k * limit) (pending_approvals l))) in
          rw (positive, test, empty) refl
    ]

routes_from :
    (n k : ℕ) (l : Ledger) (limit : ℕ)
    → 0 < limit
    → k * limit < length (pending_approvals l)
    → length (pending_approvals l) ≤ k * limit + n
    → all_routes n l (k * limit) limit ≡ map route (drop (k * limit) (pending_approvals l))
unfolding all_routes snapshot_pending_routes
routes_from zero k l limit pos inside enough = absurd (omega arith)
routes_from (suc n) k l limit pos inside enough =
    let pending = pending_approvals l in
    let at_page = page_offset_at (length pending) k limit pos inside in
    let xs = drop (k * limit) pending in
    let count = min limit (length pending - k * limit) in
    rw at_page (
      ap (λ ys. map route (take count xs) ++ ys)
        (follow_rest n k l limit pos inside count refl (routes_from n (suc k) l limit pos) enough)
      ∙ sym (map-append route (take count xs) (drop count xs))
      ∙ ap (map route) (take-append-drop count xs))

no_pages :
    (n : ℕ) (l : Ledger) (limit : ℕ)
    → 0 < limit
    → pending_approvals l ≡ []
    → all_routes (suc n) l 0 limit ≡ []
unfolding all_routes snapshot_pending_routes pending_route_page_offset
no_pages n l limit pos h =
    let none_left : min limit 0 ≡ 0 = omega arith in
    let positive : ltb 0 limit ≡ true = ground (arith, pos) in rw (h, none_left, positive) refl

-- Following `next_offset` from the first page on, with any positive limit, lists the routes of all
-- pending approvals, each once, in the order in which they were registered. As many pages as there
-- are pending approvals, and one more, are enough.
pub all_routes_complete :
    (l : Ledger) (limit : ℕ)
    → 0 < limit
    → all_routes (suc (length (pending_approvals l))) l 0 limit ≡ map route (pending_approvals l)
all_routes_complete l limit pos = elim (dec_lt 0 (length (pending_approvals l))) [
  | yes some_pending ↦
      let n = length (pending_approvals l) in
      let start = zero-mul limit in
      rw start at (routes_from (suc n) 0 l limit pos (omega (arith, start)) (omega (arith, start)))
  | no none_pending ↦
      let empty : pending_approvals l ≡ [] = drop_all 0 (pending_approvals l) (omega arith) in
      no_pages (length (pending_approvals l)) l limit pos empty ∙ sym (ap (map route) empty)
]
