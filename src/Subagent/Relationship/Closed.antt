-- ===== src/Subagent/Relationship/Closed.antt =====
-- The traversal of a subtree misses nothing.
use fx_rust.Prelude.{
  ℕ, zero, suc, ◌+◌, ◌<◌, ◌≡◌, refl, Bool, true, false, ◌&&◌, ◌||◌, not, Bool-cases, inl, inr,
  String, eq_iff, List, [], ◌∷◌, ◌++◌, keep, contains, contains-append_one, string_eq, length,
  length-append, length-keep-le, arith, All, All-append,
}
use fx_rust.Subagent.Control.{SubagentRecord}
use fx_rust.Subagent.Relationship.{children_of, visit, subtree}
use fx_rust.Subagent.Relationship.Subtree.{
  is_open, open_records, open_records-visit, length-children_of,
}

pub All-imp :
    {P Q : String → Type 0} → ((x : String) → P x → Q x) → (xs : List String) → All P xs → All Q xs
All-imp f [] h = tt
All-imp f (x ∷ xs) h = (f x h.0, All-imp f xs h.1)

contains-append :
    (xs ys : List String) (c : String) → contains (xs ++ ys) c ≡ (contains xs c || contains ys c)
contains-append [] ys c = refl
contains-append (x ∷ xs) ys c = ground (arith, contains-append xs ys c)

contains-keep_unseen :
    (seen xs : List String) (c : String)
    → contains (keep (λ child. not (contains seen child)) xs) c
      ≡ (contains xs c && not (contains seen c))
contains-keep_unseen seen [] c = refl
contains-keep_unseen seen (x ∷ xs) c = ground (arith, contains-keep_unseen seen xs c, eq_iff x c)

pub All-contained : (xs : List String) → All (λ c. contains xs c ≡ true) xs
All-contained [] = tt
All-contained (x ∷ xs) =
    (ground (arith, eq_iff x x), All-imp (λ c h. ground (arith, h)) xs (All-contained xs))

-- The id was visited or waits for its visit.
abbrev is_known : List String → List String → String → Bool
is_known out queue c = contains out c || contains queue c

abbrev new_queue : List SubagentRecord → List String → String → List String → List String
new_queue rs out next queue =
    queue ++ keep (λ child. not (contains (out ++ next ∷ []) child)) (children_of rs next)

known_skip :
    (out queue : List String) (next c : String)
    → contains out next ≡ true
    → is_known out (next ∷ queue) c ≡ true
    → is_known out queue c ≡ true
known_skip out queue next c e h = ground (arith, eq_iff next c, e, h)

known_visit :
    (rs : List SubagentRecord) (out queue : List String) (next c : String)
    → is_known out (next ∷ queue) c ≡ true
    → is_known (out ++ next ∷ []) (new_queue rs out next queue) c ≡ true
known_visit rs out queue next c h = ground (
  arith,
  contains-append_one out next c,
  contains-append queue
      (keep (λ child. not (contains (out ++ next ∷ []) child)) (children_of rs next)) c,
  h,
)

known_child :
    (rs : List SubagentRecord) (out queue : List String) (next c : String)
    → contains (children_of rs next) c ≡ true
    → is_known (out ++ next ∷ []) (new_queue rs out next queue) c ≡ true
known_child rs out queue next c h =
    let seen = out ++ next ∷ [] in
    ground (
      arith,
      contains-append queue (keep (λ child. not (contains seen child)) (children_of rs next)) c,
      contains-keep_unseen seen (children_of rs next) c,
      h,
    )

-- What the loop keeps: every child of a visited id is known.
abbrev IsClosed : List SubagentRecord → List String → List String → Type 0
IsClosed rs out queue = All (λ x. All (λ c. is_known out queue c ≡ true) (children_of rs x)) out

next_bound :
    (rs : List SubagentRecord) (n : ℕ) (out queue : List String) (next : String)
    → contains out next ≡ false
    → suc (length queue) + open_records out rs < suc n
    → length (new_queue rs out next queue) + open_records (out ++ next ∷ []) rs < n
next_bound rs n out queue next e h =
    let unseen = λ (child : String). not (contains (out ++ next ∷ []) child) in
    omega (
      arith,
      length-append queue (keep unseen (children_of rs next)),
      length-keep-le unseen (children_of rs next),
      length-children_of rs next,
      open_records-visit out next rs e,
    )

visit-reaches :
    (rs : List SubagentRecord) (n : ℕ) (out queue : List String) (c : String)
    → length queue + open_records out rs < n
    → is_known out queue c ≡ true
    → contains (visit rs n out queue) c ≡ true
unfolding visit
visit-reaches rs zero out queue c b h = absurd (omega arith)
visit-reaches rs (suc n) out [] c b h = ground (arith, h)
visit-reaches rs (suc n) out (next ∷ queue) c b h = elim (Bool-cases (contains out next)) [
  | inl e ↦ rw e (visit-reaches rs n out queue c (omega arith) (known_skip out queue next c e h))
  | inr e ↦ rw e (
      visit-reaches rs n (out ++ next ∷ []) (new_queue rs out next queue) c
        (next_bound rs n out queue next e b) (known_visit rs out queue next c h))
]

visit-IsClosed :
    (rs : List SubagentRecord) (n : ℕ) (out queue : List String)
    → length queue + open_records out rs < n
    → IsClosed rs out queue
    → let v = visit rs n out queue in All (λ x. All (λ c. contains v c ≡ true) (children_of rs x)) v
unfolding visit
visit-IsClosed rs zero out queue b h = absurd (omega arith)
visit-IsClosed rs (suc n) out [] b h =
    All-imp (λ x. All-imp (λ c k. ground (arith, k)) (children_of rs x)) out h
visit-IsClosed rs (suc n) out (next ∷ queue) b h = elim (Bool-cases (contains out next)) [
  | inl e ↦ rw e (
      visit-IsClosed rs n out queue (omega arith)
        (All-imp (λ x. All-imp (λ c. known_skip out queue next c e) (children_of rs x)) out h))
  | inr e ↦
      let old =
        All-imp (λ x. All-imp (λ c. known_visit rs out queue next c) (children_of rs x)) out h in
      let new =
        All-imp (λ c. known_child rs out queue next c) (children_of rs next)
          (All-contained (children_of rs next)) in
      rw e (
        visit-IsClosed rs n (out ++ next ∷ []) (new_queue rs out next queue)
          (next_bound rs n out queue next e b)
          (All-append
            (λ x.
              All (λ c. is_known (out ++ next ∷ []) (new_queue rs out next queue) c ≡ true)
                (children_of rs x))
            out (next ∷ []) old (new, tt)))
]

-- A subtree has its root, and with each id it has all the children of that id.
pub subtree_closed :
    (rs : List SubagentRecord) (id : String)
    → (contains (subtree rs id) id ≡ true)
      × All (λ x. All (λ c. contains (subtree rs id) c ≡ true) (children_of rs x)) (subtree rs id)
unfolding subtree
subtree_closed rs id =
    let few = length-keep-le (λ r. is_open [] r.parent_id) rs in
    (
      visit-reaches rs (2 + length rs) [] (id ∷ []) id (omega (arith, few))
          (ground (arith, eq_iff id id)),
      visit-IsClosed rs (2 + length rs) [] (id ∷ []) (omega (arith, few)) tt,
    )
