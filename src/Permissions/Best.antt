-- ===== src/Permissions/Best.antt =====
-- The candidate that the gate's loops end with, against the list of all candidates.
use fx_rust.Prelude.{
  ℕ, ◌≡◌, refl, ap, ◌∙◌, sym, false, Bool-cases, inl, inr, String, List, [], ◌∷◌, ◌++◌, map, keep,
  All, Option, none, some, arith,
}
use fx_rust.Permissions.Types.{Rule}
use fx_rust.Permissions.Paths.{Glob, glob_matches, rel_target, char_count}
use fx_rust.Permissions.Gate.{
  ToolRule, whole, patterns, Candidate, PermissionRequest, outranks, consider, consider_patterns,
  consider_key, best_candidate, get, tool_kind,
}

-- Every rule that bears on a call, as the documentation lists them: a rule on a whole tool with
-- specificity 0, a pattern that matches with its length.
abbrev candidates_of : Glob → String → Option String → ℕ → Option ToolRule → List Candidate
candidates_of glob target rel rank none = []
candidates_of glob target rel rank (some (whole r)) =
    record { spec = 0; key_rank = rank; rule = r } ∷ []
candidates_of glob target rel rank (some (patterns ps)) =
    map (λ p. record { spec = char_count p.0; key_rank = rank; rule = p.1 })
      (keep (λ p. glob_matches glob p.0 target rel) ps)

unfoldable pub candidates : Glob → List (String × ToolRule) → PermissionRequest → List Candidate
candidates glob rules req =
    let rel = rel_target req.workspace req.target in
    candidates_of glob req.target rel 0 (get rules "*")
    ++ candidates_of glob req.target rel 1 (get rules (tool_kind req.tool_name))
    ++ candidates_of glob req.target rel 2 (get rules req.tool_name)

abbrev pub consider_all : Option Candidate → List Candidate → Option Candidate
consider_all best [] = best
consider_all best (c ∷ cs) = consider_all (consider best c) cs

consider_all-append :
    (best : Option Candidate) (xs ys : List Candidate)
    → consider_all best (xs ++ ys) ≡ consider_all (consider_all best xs) ys
consider_all-append best [] ys = refl
consider_all-append best (x ∷ xs) ys = consider_all-append (consider best x) xs ys

consider_patterns-all :
    (glob : Glob) (target : String) (rel : Option String) (rank : ℕ) (ps : List (String × Rule))
    (best : Option Candidate)
    → consider_patterns glob target rel rank ps best
      ≡ consider_all best (candidates_of glob target rel rank (some (patterns ps)))
unfolding consider_patterns
consider_patterns-all glob target rel rank [] best = refl
consider_patterns-all glob target rel rank (p ∷ ps) best =
    elim (Bool-cases (glob_matches glob p.0 target rel)) [
      | inl e ↦ rw e (
          consider_patterns-all glob target rel rank ps
            (consider best (record { spec = char_count p.0; key_rank = rank; rule = p.1 })))
      | inr e ↦ rw e (consider_patterns-all glob target rel rank ps best)
    ]

consider_key-all :
    (glob : Glob) (target : String) (rel : Option String) (rank : ℕ) (r : Option ToolRule)
    (best : Option Candidate)
    → consider_key glob target rel rank r best
      ≡ consider_all best (candidates_of glob target rel rank r)
unfolding consider_key
consider_key-all glob target rel rank none best = refl
consider_key-all glob target rel rank (some (whole r)) best = refl
consider_key-all glob target rel rank (some (patterns ps)) best =
    consider_patterns-all glob target rel rank ps best

-- The nested loops consider the candidates one after the other.
pub best_candidate-all :
    (glob : Glob) (rules : List (String × ToolRule)) (req : PermissionRequest)
    → best_candidate glob rules req ≡ consider_all none (candidates glob rules req)
unfolding best_candidate candidates
best_candidate-all glob rules req =
    let rel = rel_target req.workspace req.target in
    let star = candidates_of glob req.target rel 0 (get rules "*") in
    let by_kind = candidates_of glob req.target rel 1 (get rules (tool_kind req.tool_name)) in
    let by_name = candidates_of glob req.target rel 2 (get rules req.tool_name) in
    let first = consider_all none star in
    let second = consider_all first by_kind in
    rw
      (
        consider_key-all glob req.target rel 0 (get rules "*") none,
        consider_key-all glob req.target rel 1 (get rules (tool_kind req.tool_name)) first,
        consider_key-all glob req.target rel 2 (get rules req.tool_name) second,
      )
      (sym (
        consider_all-append none (star ++ by_kind) by_name
        ∙ ap (λ b. consider_all b by_name) (consider_all-append none star by_kind)))

-- What the best candidate is not: outranked.
abbrev pub NotBeaten : Option Candidate → Candidate → Type 0
NotBeaten none c = ⊥
NotBeaten (some b) c = outranks c b ≡ false

consider_itself : (best : Option Candidate) (c : Candidate) → NotBeaten (consider best c) c
unfolding consider outranks
consider_itself none c = ground arith
consider_itself (some b) c = ground arith

consider_keeps :
    (best : Option Candidate) (c d : Candidate) → NotBeaten best d → NotBeaten (consider best c) d
unfolding consider outranks
consider_keeps none c d h = elim h [ ]
consider_keeps (some b) c d h = ground (arith, h)

consider_all-keeps :
    (best : Option Candidate) (cs : List Candidate) (d : Candidate)
    → NotBeaten best d
    → NotBeaten (consider_all best cs) d
consider_all-keeps best [] d h = h
consider_all-keeps best (c ∷ cs) d h =
    consider_all-keeps (consider best c) cs d (consider_keeps best c d h)

-- No candidate outranks the one that the loop ends with.
pub consider_all-unbeaten :
    (best : Option Candidate) (cs : List Candidate) → All (NotBeaten (consider_all best cs)) cs
consider_all-unbeaten best [] = tt
consider_all-unbeaten best (c ∷ cs) = (
  consider_all-keeps (consider best c) cs c (consider_itself best c),
  consider_all-unbeaten (consider best c) cs,
)

abbrev pub IfSome : (Candidate → Type 0) → Option Candidate → Type 0
IfSome P none = Unit
IfSome P (some c) = P c

-- It is one of them.
pub consider_all-member :
    (P : Candidate → Type 0) (best : Option Candidate) (cs : List Candidate)
    → IfSome P best
    → All P cs
    → IfSome P (consider_all best cs)
unfolding consider
consider_all-member P best [] h hs = h
consider_all-member P none (c ∷ cs) h (hc, hs) = consider_all-member P (some c) cs hc hs
consider_all-member P (some b) (c ∷ cs) h (hc, hs) = elim (Bool-cases (outranks c b)) [
  | inl e ↦ rw e (consider_all-member P (some c) cs hc hs)
  | inr e ↦ rw e (consider_all-member P (some b) cs h hs)
]
