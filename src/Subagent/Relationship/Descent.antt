-- ===== src/Subagent/Relationship/Descent.antt =====
-- The subtree of a child, against the descent of records from each other.
use mathlib.Core.List.{Memᴰ}
use fx_rust.Prelude.{
  ℕ, zero, suc, ◌+◌, ◌≡◌, ◌↔◌, refl, sym, ap, ◌∙◌, true, ◌||◌, not, Bool-cases, inl, inr, String,
  str_eq, eq_iff, List, [], ◌∷◌, ◌++◌, map, keep, contains, string_eq, Option, none, some, length,
  arith, All, All-append, All-keep,
}
use fx_rust.Subagent.Control.{SubagentRecord}
use fx_rust.Subagent.Relationship.{
  is_parent, insert_text, sort, records_under, children_of, visit, subtree,
}
use fx_rust.Subagent.Relationship.Closed.{subtree_closed, All-imp, All-contained}

-- The ids that descend from `root`: itself, and each record's id whose parent does.
pub data Descends (rs : List SubagentRecord) (root : String) : String → Type 0 where
  itself : Descends rs root root
  child_of :
      {x c : String} (r : SubagentRecord)
      → Memᴰ r rs
      → r.parent_id ≡ some x
      → r.child_id ≡ c
      → Descends rs root x
      → Descends rs root c

contains-insert_text :
    (s : String) (xs : List String) (c : String)
    → contains (insert_text s xs) c ≡ (str_eq s c || contains xs c)
unfolding insert_text
contains-insert_text s [] c = refl
contains-insert_text s (x ∷ xs) c = ground (arith, contains-insert_text s xs c)

contains-sort : (xs : List String) (c : String) → contains (sort xs) c ≡ contains xs c
unfolding sort
contains-sort [] c = refl
contains-sort (x ∷ xs) c =
    contains-insert_text x (sort xs) c ∙ ap (λ b. str_eq x c || b) (contains-sort xs c)

abbrev ids_under : List SubagentRecord → String → List String
ids_under rs x = map (λ r. r.child_id) (records_under rs x)

is_parent_iff : (x : String) (p : Option String) → (is_parent x p ≡ true) ↔ (p ≡ some x)
is_parent_iff x none = (λ h. cc, λ h. cc)
is_parent_iff x (some y) = (λ h. ap some ((eq_iff y x).0 h), λ h. (eq_iff y x).1 cc)

listed :
    (rs : List SubagentRecord) (r : SubagentRecord) (x : String)
    → Memᴰ r rs
    → r.parent_id ≡ some x
    → contains (ids_under rs x) r.child_id ≡ true
listed [] r x m h = elim m [ ]
listed (q ∷ rs) r x (Memᴰ.head same) h =
    let under = (is_parent_iff x q.parent_id).1 (ap (λ q. q.parent_id) (sym same) ∙ h) in
    let named = (eq_iff q.child_id r.child_id).1 (ap (λ q. q.child_id) (sym same)) in
    rw under (rw named refl)
listed (q ∷ rs) r x (Memᴰ.tail m) h =
    let later = listed rs r x m h in
    elim (Bool-cases (is_parent x q.parent_id)) [
      | inl e ↦ rw e (rw later (ground arith))
      | inr e ↦ rw e later
    ]

-- One of the records is the parent's child of that id.
abbrev HasChild : List SubagentRecord → String → String → Type 0
HasChild rs x c = (r : SubagentRecord) × Memᴰ r rs × (r.parent_id ≡ some x) × (r.child_id ≡ c)

later_child :
    (q : SubagentRecord) (rs : List SubagentRecord) (x c : String)
    → HasChild rs x c
    → HasChild (q ∷ rs) x c
later_child q rs x c (r, m, parent, child) = (r, Memᴰ.tail m, parent, child)

found :
    (rs : List SubagentRecord) (x c : String) → contains (ids_under rs x) c ≡ true → HasChild rs x c
found [] x c = λ h. cc
found (q ∷ rs) x c = elim (Bool-cases (is_parent x q.parent_id)) [
  | inl e ↦ rw e (elim (Bool-cases (str_eq q.child_id c)) [
    | inl e' ↦
        λ h. (q, Memᴰ.head refl, (is_parent_iff x q.parent_id).0 e, (eq_iff q.child_id c).0 e')
    | inr e' ↦ rw e' (λ h. later_child q rs x c (found rs x c h))
  ])
  | inr e ↦ rw e (λ h. later_child q rs x c (found rs x c h))
]

children_listed :
    (rs : List SubagentRecord) (x c : String)
    → contains (children_of rs x) c ≡ contains (ids_under rs x) c
unfolding children_of
children_listed rs x c = contains-sort (ids_under rs x) c

All-contains :
    (P : String → Type 0) (xs : List String) (c : String) → All P xs → contains xs c ≡ true → P c
All-contains P [] c h = λ m. cc
All-contains P (x ∷ xs) c h = elim (Bool-cases (str_eq x c)) [
  | inl e ↦ λ m. rw (← (eq_iff x c).0 e) h.0
  | inr e ↦ rw e (λ m. All-contains P xs c h.1 m)
]

children-Descends :
    (rs : List SubagentRecord) (root next : String)
    → Descends rs root next
    → All (Descends rs root) (children_of rs next)
children-Descends rs root next h =
    All-imp
      (λ c m.
        let (r, member, parent, child) = found rs next c (sym (children_listed rs next c) ∙ m) in
        child_of r member parent child h)
      (children_of rs next) (All-contained (children_of rs next))

visit-Descends :
    (rs : List SubagentRecord) (root : String) (n : ℕ) (out queue : List String)
    → All (Descends rs root) out
    → All (Descends rs root) queue
    → All (Descends rs root) (visit rs n out queue)
unfolding visit
visit-Descends rs root zero out queue h k = h
visit-Descends rs root (suc n) out [] h k = h
visit-Descends rs root (suc n) out (next ∷ queue) h k = elim (Bool-cases (contains out next)) [
  | inl e ↦ rw e (visit-Descends rs root n out queue h k.1)
  | inr e ↦
      let unseen = λ (child : String). not (contains (out ++ next ∷ []) child) in
      rw e (
        visit-Descends rs root n (out ++ next ∷ []) (queue ++ keep unseen (children_of rs next))
          (All-append (Descends rs root) out (next ∷ []) h (k.0, tt))
          (All-append (Descends rs root) queue (keep unseen (children_of rs next)) k.1 (
            All-keep (Descends rs root) unseen (children_of rs next)
              (children-Descends rs root next k.0))))
]

subtree_complete :
    (rs : List SubagentRecord) (root : String) {c : String}
    → Descends rs root c
    → contains (subtree rs root) c ≡ true
subtree_complete rs root itself = (subtree_closed rs root).0
subtree_complete rs root (child_of {x} {c} r member parent child h) =
    let has_children =
      All-contains (λ x. All (λ c. contains (subtree rs root) c ≡ true) (children_of rs x))
        (subtree rs root) x (subtree_closed rs root).1 (subtree_complete rs root h) in
    All-contains (λ c. contains (subtree rs root) c ≡ true) (children_of rs x) c has_children
      (children_listed rs x c
        ∙ ap (contains (ids_under rs x)) (sym child)
        ∙ listed rs r x member parent)

-- A subtree holds exactly the ids that descend from its root in the records: the root itself, and
-- the id of each record whose parent descends from it. The records may form a cycle or repeat an
-- id.
pub subtree_iff :
    (rs : List SubagentRecord) (root c : String)
    → (contains (subtree rs root) c ≡ true) ↔ Descends rs root c
unfolding subtree
subtree_iff rs root c = (
  All-contains (Descends rs root) (subtree rs root) c
      (visit-Descends rs root (2 + length rs) [] (root ∷ []) tt (itself, tt)),
  subtree_complete rs root,
)
