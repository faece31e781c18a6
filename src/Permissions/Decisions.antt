-- ===== src/Permissions/Decisions.antt =====
-- What the gate decides: denials, grants, and calls that no rule bears on.
use fx_rust.Prelude.{
  ◌≡◌, ◌≢◌, ◌<◌, ◌≤◌, refl, ap, ◌∙◌, sym, Bool, true, false, ◌&&◌, not, Bool-cases, inl, inr,
  String, str_eq, List, [], ◌∷◌, ◌++◌, any, All, Option, none, some, arith, ok, ◌⊎◌,
}
use fx_rust.Permissions.Types.{Rule, PermissionMode, parse_mode, show_mode}
use fx_rust.Permissions.Paths.{Glob, glob_matches}
use fx_rust.Permissions.Gate.{
  ToolRule, Candidate, PermissionRequest, Permissions, Decision, allowed, denied, unresolved,
  rule_priority, outranks, best_candidate, decide, conclude, by_rule, is_yolo, no_rule_for, granted,
  is_allowed, needs_approval, allow_grant, GrantStore, get, tool_kind,
}
use fx_rust.Permissions.Best.{
  candidates, consider_all, best_candidate-all, consider_all-unbeaten, consider_all-member,
  NotBeaten, IfSome,
}

-- Printing a mode and parsing the text gives the mode back.
pub parse_mode-show_mode : (m : PermissionMode) → parse_mode (show_mode m) ≡ ok m
unfolding parse_mode show_mode
parse_mode-show_mode PermissionMode.ask = refl
parse_mode-show_mode PermissionMode.auto = refl
parse_mode-show_mode PermissionMode.yolo = refl

abbrev Grows : Decision → Decision → Type 0
Grows before after = (after ≡ before) ⊎ ((before ≡ unresolved) × (after ≡ allowed))

by_rule_grant :
    (r : Rule) (g sensitive : Bool) → Grows (by_rule r g sensitive) (by_rule r true sensitive)
by_rule_grant Rule.allow g sensitive = inl refl
by_rule_grant Rule.deny g sensitive = inl refl
by_rule_grant Rule.ask true sensitive = inl refl
by_rule_grant Rule.ask false true = inr (refl, refl)
by_rule_grant Rule.ask false false = inl refl

conclude_grant :
    (best : Option Candidate) (g g' sensitive : Bool)
    → (g ≡ true → g' ≡ true)
    → Grows (conclude best g sensitive) (conclude best g' sensitive)
conclude_grant best false false sensitive h = inl refl
conclude_grant best true true sensitive h = inl refl
conclude_grant best true false sensitive h = absurd (ground (arith, h refl))
conclude_grant none false true sensitive h = by_rule_grant Rule.ask false sensitive
conclude_grant (some c) false true sensitive h = by_rule_grant c.rule false sensitive

any-append :
    (f : String × String → Bool) (grants : GrantStore) (g : String × String)
    → any f grants ≡ true
    → any f (grants ++ g ∷ []) ≡ true
any-append f [] g h = ground (arith, h)
any-append f (x ∷ grants) g h = ground (arith, any-append f grants g)

is_allowed-allow_grant :
    (glob : Glob) (grants : GrantStore) (tool target t x : String)
    → is_allowed glob grants t x ≡ true
    → is_allowed glob (allow_grant grants tool target) t x ≡ true
unfolding is_allowed
is_allowed-allow_grant glob grants tool target t x h =
    any-append (λ g. str_eq g.0 t && glob_matches glob g.1 x none) grants (tool, target) h

granted-allow_grant :
    (glob : Glob) (grants : GrantStore) (req : PermissionRequest) (tool target : String)
    → granted glob grants req ≡ true
    → granted glob (allow_grant grants tool target) req ≡ true
granted-allow_grant glob grants req tool target h = ground (
  arith,
  h,
  is_allowed-allow_grant glob grants tool target req.tool_name req.target,
  is_allowed-allow_grant glob grants tool target (tool_kind req.tool_name) req.target,
)

-- A further grant changes a decision in one way at most: an unresolved call becomes allowed. No
-- grant overrides a denial.
pub decide_grant :
    (glob : Glob) (p : Permissions) (req : PermissionRequest) (tool target : String)
    → let before = decide glob p req in
      let after = decide glob (record p { grants = allow_grant p.grants tool target }) req in
      (after ≡ before) ⊎ ((before ≡ unresolved) × (after ≡ allowed))
unfolding decide
decide_grant glob p req tool target = elim (Bool-cases (is_yolo p.mode)) [
  | inl e ↦ rw e (inl refl)
  | inr e ↦
      elim (Bool-cases (not (needs_approval req.tool_name) && no_rule_for p.rules req.tool_name)) [
        | inl e' ↦ rw (e, e') (inl refl)
        | inr e' ↦
            rw (e, e')
              (conclude_grant (best_candidate glob p.rules req) _ _ (needs_approval req.tool_name)
                (granted-allow_grant glob p.grants req tool target))
      ]
]

no_candidates :
    (glob : Glob) (rules : List (String × ToolRule)) (req : PermissionRequest)
    → no_rule_for rules req.tool_name ≡ true
    → candidates glob rules req ≡ []
unfolding candidates
no_candidates glob rules req h =
    let star : get rules "*" ≡ none = ground (arith, h) in
    let by_kind : get rules (tool_kind req.tool_name) ≡ none = ground (arith, h) in
    let by_name : get rules req.tool_name ≡ none = ground (arith, h) in
    rw (star, by_kind, by_name) refl

not_nil : (xs ys : List Candidate) (d : Candidate) → xs ++ d ∷ ys ≢ []
not_nil [] ys d h = absurd cc
not_nil (x ∷ xs) ys d h = absurd cc

and_false : (b : Bool) → (b && false) ≡ false
and_false true = refl
and_false false = refl

All-middle :
    (P : Candidate → Type 0) (xs ys : List Candidate) (d : Candidate) → All P (xs ++ d ∷ ys) → P d
All-middle P [] ys d h = h.0
All-middle P (x ∷ xs) ys d h = All-middle P xs ys d h.1

same_rule :
    (best : Option Candidate) (d : Candidate) (g sensitive : Bool)
    → NotBeaten best d
    → IfSome (λ b. outranks b d ≡ false) best
    → conclude best g sensitive ≡ by_rule d.rule g sensitive
unfolding outranks rule_priority
same_rule none d g sensitive h h' = elim h [ ]
same_rule (some b) d g sensitive h h' =
    let same : b.rule ≡ d.rule = ground (arith, h, h') in ap (λ r. by_rule r g sensitive) same

-- A rule is milder than or the same as another: allow, then ask, then deny.
pub data NoStricter : Rule → Rule → Type 0 where
  same_strictness : {r : Rule} → NoStricter r r
  ask_under_deny : NoStricter Rule.ask Rule.deny
  allow_under : {r : Rule} → NoStricter Rule.allow r

-- The order of the candidates, from the lower one: by specificity first, then by the rank of the
-- key, then by strictness.
pub data Yields (c d : Candidate) : Type 0 where
  less_specific : c.spec < d.spec → Yields c d
  lower_key : c.spec ≡ d.spec → c.key_rank < d.key_rank → Yields c d
  no_stricter : c.spec ≡ d.spec → c.key_rank ≡ d.key_rank → NoStricter c.rule d.rule → Yields c d

-- What a rule decides of a call that was granted or not, and is sensitive or not.
abbrev pub verdict : Rule → Bool → Bool → Decision
verdict Rule.deny was_granted sensitive = denied "denied by rule"
verdict Rule.allow was_granted sensitive = allowed
verdict Rule.ask true sensitive = allowed
verdict Rule.ask false true = unresolved
verdict Rule.ask false false = allowed

by_rule-verdict : (r : Rule) (g sensitive : Bool) → by_rule r g sensitive ≡ verdict r g sensitive
by_rule-verdict Rule.deny g sensitive = refl
by_rule-verdict Rule.allow g sensitive = refl
by_rule-verdict Rule.ask true sensitive = refl
by_rule-verdict Rule.ask false true = refl
by_rule-verdict Rule.ask false false = refl

rule_priority_mono : {r r' : Rule} → NoStricter r r' → rule_priority r ≤ rule_priority r'
unfolding rule_priority
rule_priority_mono same_strictness = omega arith
rule_priority_mono ask_under_deny = omega arith
rule_priority_mono (allow_under {r}) = omega arith

yields : (c d : Candidate) → Yields c d → outranks c d ≡ false
unfolding outranks
yields c d (less_specific less) = ground arith
yields c d (lower_key same less) = ground arith
yields c d (no_stricter same same' milder) =
    let le = rule_priority_mono milder in ground (arith, le)

All-Yields :
    (d : Candidate) (cs : List Candidate)
    → All (λ c. Yields c d) cs
    → All (λ c. outranks c d ≡ false) cs
All-Yields d [] h = tt
All-Yields d (c ∷ cs) h = (yields c d h.0, All-Yields d cs h.1)

-- Outside the mode yolo, a candidate that every candidate yields to decides the call: candidates
-- are ordered by specificity first, then by the rank of the rule's key, then allow below ask below
-- deny. An allowing rule allows and a denying one denies, whatever was granted; an asking one
-- allows what was granted and what is not sensitive, and leaves the rest unresolved.
pub decide_best :
    (glob : Glob) (p : Permissions) (req : PermissionRequest) (xs ys : List Candidate)
    (d : Candidate)
    → is_yolo p.mode ≡ false
    → candidates glob p.rules req ≡ xs ++ d ∷ ys
    → All (λ c. Yields c d) (xs ++ d ∷ ys)
    → decide glob p req ≡ verdict d.rule (granted glob p.grants req) (needs_approval req.tool_name)
unfolding decide
decide_best glob p req xs ys d mode found top =
    elim (Bool-cases (no_rule_for p.rules req.tool_name)) [
      | inl e ↦ absurd (not_nil xs ys d (sym found ∙ no_candidates glob p.rules req e))
      | inr e ↦
          let unbeaten =
            All-middle (NotBeaten (consider_all none (xs ++ d ∷ ys))) xs ys d
              (consider_all-unbeaten none (xs ++ d ∷ ys)) in
          let member =
            consider_all-member (λ b. outranks b d ≡ false) none (xs ++ d ∷ ys) tt
              (All-Yields d (xs ++ d ∷ ys) top) in
          let concluded =
            same_rule (consider_all none (xs ++ d ∷ ys)) d (granted glob p.grants req)
              (needs_approval req.tool_name) unbeaten member in
          rw (mode, e, and_false (not (needs_approval req.tool_name)))
            (ap (λ b. conclude b (granted glob p.grants req) (needs_approval req.tool_name))
                (best_candidate-all glob p.rules req ∙ ap (consider_all none) found)
              ∙ concluded
              ∙ by_rule-verdict d.rule _ _)
    ]
