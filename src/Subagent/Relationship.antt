-- ===== src/Subagent/Relationship.antt =====
-- src/subagent_relationship.rs: parents, children and subtrees over the control records.
pub mod Subtree
pub mod Closed
pub mod Descent
use fx_rust.Prelude.{
  ℕ, zero, suc, ◌+◌, Bool, true, false, ◌&&◌, not, String, str_eq, List, [], ◌∷◌, ◌++◌, map, find,
  keep, contains, string_eq, Option, none, some, is_none, length, if◌then◌else◌,
}
use fx_rust.Subagent.Control.{SubagentRecord}
use fx_rust.Subagent.Approval.Fingerprint.{as_bytes, leb_bytes}

abbrev parent_in : Option SubagentRecord → Option String
parent_in none = none
parent_in (some r) = r.parent_id

unfoldable pub parent_of : List SubagentRecord → String → Option String
parent_of records child_id = parent_in (find (λ r. str_eq r.child_id child_id) records)

-- `parent_id.as_deref() == Some(id)`
abbrev pub is_parent : String → Option String → Bool
is_parent id none = false
is_parent id (some parent_id) = str_eq parent_id id

-- `out.sort()`, in the order of the bytes
unfoldable pub insert_text : String → List String → List String
insert_text s [] = s ∷ []
insert_text s (x ∷ xs) =
    let rest = insert_text s xs in
    if leb_bytes (as_bytes s) (as_bytes x) then s ∷ x ∷ xs else x ∷ rest

unfoldable pub sort : List String → List String
sort [] = []
sort (x ∷ xs) = insert_text x (sort xs)

abbrev pub records_under : List SubagentRecord → String → List SubagentRecord
records_under records parent_id = keep (λ r. is_parent parent_id r.parent_id) records

unfoldable pub children_of : List SubagentRecord → String → List String
children_of records parent_id = sort (map (λ r. r.child_id) (records_under records parent_id))

unfoldable pub roots : List SubagentRecord → List String
roots records = sort (map (λ r. r.child_id) (keep (λ r. is_none r.parent_id) records))

-- The loop over the queue. `out` has the visited ids, in the order of their visits, and so is the
-- set `visited` too.
unfoldable pub visit : List SubagentRecord → ℕ → List String → List String → List String
visit records zero out queue = out
visit records (suc n) out [] = out
visit records (suc n) out (next ∷ queue) =
    let go = λ (o : List String) (q : List String). visit records n o q in
    if contains out next
    then go out queue
    else let visited = out ++ next ∷ [] in
      go visited (queue ++ keep (λ child. not (contains visited child)) (children_of records next))

unfoldable pub subtree : List SubagentRecord → String → List String
subtree records child_id = visit records (2 + length records) [] (child_id ∷ [])
