-- ===== src/Tests/Relations.antt =====
-- Concrete records, two of which form a cycle, of src/subagent_relationship.rs.
use fx_rust.Prelude.{
  ◌+◌, ◌≡◌, ◌↔◌, some, [], ◌∷◌, List, String, length, contains, string_eq, true, Distinct,
}
use fx_rust.Subagent.Control.{SubagentRecord, default_record}
use fx_rust.Subagent.Relationship.{visit, subtree}
use fx_rust.Subagent.Relationship.Subtree.{subtree_ends}
use fx_rust.Subagent.Relationship.Descent.{Descends, subtree_iff}

abbrev child_under : String → String → SubagentRecord
child_under parent_id child_id = record default_record {
  child_id = child_id;
  parent_id = some parent_id;
}

abbrev family : List SubagentRecord
family = child_under "b" "a" ∷ child_under "a" "b" ∷ child_under "a" "c" ∷ child_under "c" "d" ∷ []

subtree_ends_example :
    (visit family (2 + length family + 5) [] ("a" ∷ []) ≡ subtree family "a")
    × Distinct (subtree family "a")
subtree_ends_example = subtree_ends family "a" 5

subtree_iff_example : (contains (subtree family "a") "d" ≡ true) ↔ Descends family "a" "d"
subtree_iff_example = subtree_iff family "a" "d"
