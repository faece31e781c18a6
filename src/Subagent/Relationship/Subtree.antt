-- ===== src/Subagent/Relationship/Subtree.antt =====
-- The traversal of a subtree ends, and visits nothing twice.
use fx_rust.Prelude.{
  ℕ, zero, suc, ◌+◌, ◌<◌, ◌≡◌, ◌⊎◌, refl, ap, ◌∙◌, Bool, true, false, not, Bool-cases, inl, inr,
  String, eq_iff, List, [], ◌∷◌, ◌++◌, map, keep, contains, contains-append_one, string_eq,
  Distinct, Distinct-append_one, Option, none, some, length, length-append, length-keep-le, arith,
}
use native.Mathlib.Nat.{suc-add}
use fx_rust.Subagent.Control.{SubagentRecord}
use fx_rust.Subagent.Relationship.{
  is_parent, insert_text, sort, records_under, children_of, visit, subtree,
}

length-insert_text : (s : String) (xs : List String) → length (insert_text s xs) ≡ suc (length xs)
unfolding insert_text
length-insert_text s [] = refl
length-insert_text s (x ∷ xs) = ground (arith, length-insert_text s xs)

length-sort : (xs : List String) → length (sort xs) ≡ length xs
unfolding sort
length-sort [] = refl
length-sort (x ∷ xs) = omega (arith, length-insert_text x (sort xs), length-sort xs)

length-map : (rs : List SubagentRecord) → length (map (λ r. r.child_id) rs) ≡ length rs
length-map [] = refl
length-map (r ∷ rs) = ap suc (length-map rs)

pub length-children_of :
    (rs : List SubagentRecord) (id : String)
    → length (children_of rs id) ≡ length (records_under rs id)
unfolding children_of
length-children_of rs id =
    length-sort (map (λ r. r.child_id) (records_under rs id)) ∙ length-map (records_under rs id)

-- The parent of a record was not visited, so that the record may still enter the queue.
abbrev pub is_open : List String → Option String → Bool
is_open out none = true
is_open out (some parent_id) = not (contains out parent_id)

abbrev pub open_records : List String → List SubagentRecord → ℕ
open_records out rs = length (keep (λ r. is_open out r.parent_id) rs)

option_split :
    (out : List String) (next : String) (p : Option String)
    → contains out next ≡ false
    → ((is_open out p ≡ true) × (is_open (out ++ next ∷ []) p ≡ not (is_parent next p)))
      ⊎ ((is_open out p ≡ false)
          × (is_open (out ++ next ∷ []) p ≡ false)
          × (is_parent next p ≡ false))
option_split out next none h = inl (refl, refl)
option_split out next (some parent_id) h =
    ground
      (arith, contains-append_one out next parent_id, eq_iff parent_id next, eq_iff next parent_id)

-- A visit moves the records under the visited id from those that are open into the queue.
pub open_records-visit :
    (out : List String) (next : String) (rs : List SubagentRecord)
    → contains out next ≡ false
    → open_records (out ++ next ∷ []) rs + length (records_under rs next) ≡ open_records out rs
open_records-visit out next [] h = refl
open_records-visit out next (r ∷ rs) h =
    ground (arith, open_records-visit out next rs h, option_split out next r.parent_id h)

visit-Distinct :
    (rs : List SubagentRecord) (n : ℕ) (out queue : List String)
    → Distinct out
    → Distinct (visit rs n out queue)
unfolding visit
visit-Distinct rs zero out queue d = d
visit-Distinct rs (suc n) out [] d = d
visit-Distinct rs (suc n) out (next ∷ queue) d = elim (Bool-cases (contains out next)) [
  | inl e ↦ rw e (visit-Distinct rs n out queue d)
  | inr e ↦ rw e (visit-Distinct rs n (out ++ next ∷ []) _ (Distinct-append_one out next d e))
]

-- With fuel for the queue and for every record that is still open, more fuel changes nothing.
visit-enough :
    (rs : List SubagentRecord) (n k : ℕ) (out queue : List String)
    → length queue + open_records out rs < n
    → visit rs (n + k) out queue ≡ visit rs n out queue
unfolding visit
visit-enough rs zero k out queue h = absurd (omega arith)
visit-enough rs (suc n) k out [] h = rw (suc-add n k) refl
visit-enough rs (suc n) k out (next ∷ queue) h = elim (Bool-cases (contains out next)) [
  | inl e ↦ rw (suc-add n k, e) (visit-enough rs n k out queue (omega arith))
  | inr e ↦
      let visited = out ++ next ∷ [] in
      let unseen = λ (child : String). not (contains visited child) in
      let bound : length (queue ++ keep unseen (children_of rs next)) + open_records visited rs
          < n =
        omega (
          arith,
          length-append queue (keep unseen (children_of rs next)),
          length-keep-le unseen (children_of rs next),
          length-children_of rs next,
          open_records-visit out next rs e,
        ) in
      rw (suc-add n k, e)
        (visit-enough rs n k visited (queue ++ keep unseen (children_of rs next)) bound)
]

-- The traversal ends also on records that form a cycle or repeat an id: with two steps more than
-- there are records it has emptied its queue, since more steps change nothing, and it lists no id
-- twice.
pub subtree_ends :
    (rs : List SubagentRecord) (id : String) (k : ℕ)
    → (visit rs (2 + length rs + k) [] (id ∷ []) ≡ subtree rs id) × Distinct (subtree rs id)
unfolding subtree
subtree_ends rs id k = (
  visit-enough rs (2 + length rs) k [] (id ∷ [])
      (omega (arith, length-keep-le (λ r. is_open [] r.parent_id) rs)),
  visit-Distinct rs (2 + length rs) [] (id ∷ []) tt,
)
