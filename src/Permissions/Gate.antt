-- ===== src/Permissions/Gate.antt =====
-- src/permissions.rs: the gate that decides whether a tool call may run.
use fx_rust.Prelude.{
  ℕ, Bool, true, false, ◌&&◌, ◌||◌, not, String, str_eq, List, [], ◌∷◌, ◌++◌, any, Option, none,
  some, is_some, if◌then◌else◌, ltb, ◌==◌,
}
use fx_rust.Permissions.Types.{PermissionMode, Rule}
use fx_rust.Permissions.Paths.{Glob, glob_matches, rel_target, char_count}

pub data ToolRule : Type 0 where
  whole : Rule → ToolRule
  patterns : List (String × Rule) → ToolRule

abbrev one_of : String → List String → Bool
one_of s names = any (str_eq s) names

unfoldable pub tool_kind : String → String
tool_kind name =
    if one_of name (
      "write_file" ∷ "edit_file" ∷ "delete_file" ∷ "rename_file" ∷ "copy_file" ∷ "create_folder"
      ∷ "open_file" ∷ [])
    then "edit"
    else if one_of name
        ("run_command" ∷ "background_process" ∷ "terminal" ∷ "browser_terminal" ∷ [])
    then "bash"
    else if one_of name
        ("read_file" ∷ "list_files" ∷ "glob_files" ∷ "grep_files" ∷ "file_info" ∷ [])
    then "read"
    else if one_of name ("web_search" ∷ "web_fetch" ∷ [])
    then "web"
    else if str_eq name "memory"
    then "memory"
    else if str_eq name "install_skill"
    then "skill"
    else if str_eq name "vision"
    then "vision"
    else name

unfoldable pub needs_approval : String → Bool
needs_approval name = one_of name (
    "write_file" ∷ "edit_file" ∷ "delete_file" ∷ "rename_file" ∷ "copy_file" ∷ "create_folder"
    ∷ "run_command" ∷ "background_process" ∷ "open_file" ∷ "install_skill" ∷ "vision" ∷ [])

pub data Decision : Type 0 where
  allowed : Decision
  denied : String → Decision
  unresolved : Decision

pub record PermissionRequest : Type 0 where
  pub tool_name : String
  pub target : String
  pub input_text : String
  pub workspace : String

abbrev pub deny_tool : String
deny_tool = "denied by rule"

-- The grants of a session, each a tool kind and a pattern, in the order of their insertion.
abbrev pub GrantStore : Type 0
GrantStore = List (String × String)

abbrev pub allow_grant : GrantStore → String → String → GrantStore
allow_grant grants tool target = grants ++ (tool, target) ∷ []

unfoldable pub is_allowed : Glob → GrantStore → String → String → Bool
is_allowed glob grants tool target =
    any (λ g. str_eq g.0 tool && glob_matches glob g.1 target none) grants

-- The rules are an association list from a key, which is a tool name, a kind or "*".
pub record Permissions : Type 0 where
  pub mode : PermissionMode
  pub rules : List (String × ToolRule)
  pub grants : GrantStore

-- `rules.get(key)`
abbrev pub get : List (String × ToolRule) → String → Option ToolRule
get [] key = none
get (r ∷ rules) key = let rest = get rules key in if str_eq r.0 key then some r.1 else rest

abbrev pub contains_key : List (String × ToolRule) → String → Bool
contains_key rules key = is_some (get rules key)

pub record Candidate : Type 0 where
  pub spec : ℕ
  pub key_rank : ℕ
  pub rule : Rule

unfoldable pub rule_priority : Rule → ℕ
rule_priority Rule.deny = 2
rule_priority Rule.ask = 1
rule_priority Rule.allow = 0

-- `>` on the triples of specificity, key and priority
unfoldable pub outranks : Candidate → Candidate → Bool
unfolding rule_priority
outranks c b =
    ltb b.spec c.spec
    || b.spec == c.spec
      && (ltb b.key_rank c.key_rank
          || b.key_rank == c.key_rank && ltb (rule_priority b.rule) (rule_priority c.rule))

unfoldable pub consider : Option Candidate → Candidate → Option Candidate
consider none c = some c
consider (some b) c = if outranks c b then some c else some b

-- The loop over the patterns of one key.
unfoldable pub consider_patterns :
    Glob → String → Option String → ℕ → List (String × Rule) → Option Candidate → Option Candidate
consider_patterns glob target rel key_rank [] best = best
consider_patterns glob target rel key_rank (p ∷ ps) best =
    let rest = λ (b : Option Candidate). consider_patterns glob target rel key_rank ps b in
    if glob_matches glob p.0 target rel
    then rest (consider best (record { spec = char_count p.0; key_rank = key_rank; rule = p.1 }))
    else rest best

unfoldable pub consider_key :
    Glob → String → Option String → ℕ → Option ToolRule → Option Candidate → Option Candidate
consider_key glob target rel key_rank none best = best
consider_key glob target rel key_rank (some (whole r)) best =
    consider best (record { spec = 0; key_rank = key_rank; rule = r })
consider_key glob target rel key_rank (some (patterns ps)) best =
    consider_patterns glob target rel key_rank ps best

-- The loop over the three keys.
unfoldable pub best_candidate :
    Glob → List (String × ToolRule) → PermissionRequest → Option Candidate
best_candidate glob rules req =
    let rel = rel_target req.workspace req.target in
    let star = consider_key glob req.target rel 0 (get rules "*") none in
    let by_kind = consider_key glob req.target rel 1 (get rules (tool_kind req.tool_name)) star in
    consider_key glob req.target rel 2 (get rules req.tool_name) by_kind

abbrev pub by_rule : Rule → Bool → Bool → Decision
by_rule Rule.allow granted sensitive = allowed
by_rule Rule.deny granted sensitive = denied deny_tool
by_rule Rule.ask granted sensitive =
    if granted then allowed else if sensitive then unresolved else allowed

-- The end of `decide`: the best candidate, the session's grants and the kind of tool.
abbrev pub conclude : Option Candidate → Bool → Bool → Decision
conclude none granted sensitive =
    if granted then allowed else if sensitive then unresolved else allowed
conclude (some c) granted sensitive = by_rule c.rule granted sensitive

abbrev pub is_yolo : PermissionMode → Bool
is_yolo PermissionMode.yolo = true
is_yolo _ = false

-- No rule can bear on the call.
abbrev pub no_rule_for : List (String × ToolRule) → String → Bool
no_rule_for rules tool_name =
    not (contains_key rules "*")
    && not (contains_key rules (tool_kind tool_name))
    && not (contains_key rules tool_name)

abbrev pub granted : Glob → GrantStore → PermissionRequest → Bool
granted glob grants req =
    is_allowed glob grants req.tool_name req.target
    || is_allowed glob grants (tool_kind req.tool_name) req.target

unfoldable pub decide : Glob → Permissions → PermissionRequest → Decision
decide glob p req =
    if is_yolo p.mode
    then allowed
    else if not (needs_approval req.tool_name) && no_rule_for p.rules req.tool_name
    then allowed
    else conclude (best_candidate glob p.rules req) (granted glob p.grants req)
        (needs_approval req.tool_name)
