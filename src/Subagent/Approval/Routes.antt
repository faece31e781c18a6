-- ===== src/Subagent/Approval/Routes.antt =====
-- src/subagent_approval.rs: pages of the pending approvals.
pub mod Bounds
use fx_rust.Prelude.{
  ℕ, zero, ◌+◌, ◌-◌, ◌*◌, ◌/◌, ◌%◌, Bool, true, ◌&&◌, ◌||◌, not, List, length, take, drop, keep,
  map, Option, none, some, if◌then◌else◌, ltb, ◌==◌, min,
}
use fx_rust.Subagent.Communication.{Ledger}
use fx_rust.Subagent.Approval.Types.{Approval, is_pending, PendingRoute, PendingRouteSnapshot}

unfoldable pub pending_route_page_offset : ℕ → ℕ → ℕ → ℕ
pending_route_page_offset total requested limit =
    if total == 0 || limit == 0
    then 0
    else min (requested - requested % limit) ((total - 1) / limit * limit)

abbrev pub route : Approval → PendingRoute
route a = record { request_id = a.id; child_id = a.child_id; label = a.label }

unfoldable pub snapshot_pending_routes : Ledger → ℕ → ℕ → PendingRouteSnapshot
snapshot_pending_routes l requested_offset limit =
    let pending = keep (λ a. is_pending a.status) l.approvals in
    let total = length pending in
    let page_offset = pending_route_page_offset total requested_offset limit in
    let count = min limit (total - page_offset) in
    record {
      revision = l.generation;
      total = total;
      offset = page_offset;
      previous_offset =
          if page_offset == 0 || limit == 0
          then none
          else some (page_offset - min page_offset limit);
      next_offset =
          if ltb 0 limit && ltb (page_offset + count) total
          then some (page_offset + count)
          else none;
      routes = map route (take count (drop page_offset pending));
    }
