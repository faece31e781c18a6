-- ===== src/Subagent/Approval/Fingerprint.antt =====
-- src/subagent_approval.rs: the bytes that identify an approval request. SHA-256 is the function
-- `sha256` from bytes to bytes.
use Prim.Native.Char.{code}
use fx_rust.Prelude.{
  ℕ, suc, zero, ◌+◌, ◌/◌, ◌%◌, Bool, true, false, ◌&&◌, ◌||◌, String, len, List, [], ◌∷◌, ◌++◌,
  Option, none, some, if◌then◌else◌, ltb, ◌==◌,
}
use fx_rust.Subagent.Domain.Types.{RelationshipAction, attach, detach, reparent}
use fx_rust.Subagent.Approval.Types.{ApprovalInput, ApprovalKind, RelationshipApprovalInput}

-- `char::encode_utf8`
abbrev encode_utf8 : ℕ → List ℕ
encode_utf8 c =
    if ltb c 0x80
    then c ∷ []
    else if ltb c 0x800
    then (0xc0 + c / 64) ∷ (0x80 + c % 64) ∷ []
    else if ltb c 0x10000
    then (0xe0 + c / 4096) ∷ (0x80 + c / 64 % 64) ∷ (0x80 + c % 64) ∷ []
    else (0xf0 + c / 262144) ∷ (0x80 + c / 4096 % 64) ∷ (0x80 + c / 64 % 64) ∷ (0x80 + c % 64) ∷ []

-- `str::as_bytes`
abbrev pub as_bytes : String → List ℕ
as_bytes String.[] = []
as_bytes (String.◌∷◌ c s) = encode_utf8 (code c) ++ as_bytes s

-- `to_le_bytes`, the `n` lowest bytes
abbrev to_le_bytes : ℕ → ℕ → List ℕ
to_le_bytes zero x = []
to_le_bytes (suc n) x = x % 256 ∷ to_le_bytes n (x / 256)

abbrev pub hash_string : String → List ℕ
hash_string s = to_le_bytes 8 (len s) ++ as_bytes s

-- `&str` and pairs of them in the order of `Ord::cmp`, that of the bytes: less or equal
abbrev pub leb_bytes : List ℕ → List ℕ → Bool
leb_bytes [] ys = true
leb_bytes (x ∷ xs) [] = false
leb_bytes (x ∷ xs) (y ∷ ys) = ltb x y || x == y && leb_bytes xs ys

abbrev pub leb_grant : String × String → String × String → Bool
leb_grant a b =
    let first = as_bytes a.0 in
    let second = as_bytes b.0 in
    if leb_bytes first second && leb_bytes second first
    then leb_bytes (as_bytes a.1) (as_bytes b.1)
    else leb_bytes first second

abbrev insert_grant : String × String → List (String × String) → List (String × String)
insert_grant g [] = g ∷ []
insert_grant g (x ∷ xs) =
    let rest = insert_grant g xs in if leb_grant g x then g ∷ x ∷ xs else x ∷ rest

-- `grants.sort_by(..)`
abbrev pub sort_grants : List (String × String) → List (String × String)
sort_grants [] = []
sort_grants (g ∷ gs) = insert_grant g (sort_grants gs)

abbrev grants_bytes : List (String × String) → List ℕ
grants_bytes [] = []
grants_bytes (g ∷ gs) = hash_string g.0 ++ hash_string g.1 ++ grants_bytes gs

abbrev kind_name : ApprovalKind → String
kind_name ApprovalKind.tool = "tool"
kind_name ApprovalKind.relationship = "relationship"

abbrev action_name : RelationshipAction → String
action_name attach = "attach"
action_name detach = "detach"
action_name reparent = "reparent"

-- Some string, or the byte 0 in its place.
abbrev optional_bytes : Option String → List ℕ
optional_bytes none = 0 ∷ []
optional_bytes (some s) = hash_string s

abbrev relationship_bytes : Option RelationshipApprovalInput → List ℕ
relationship_bytes none = as_bytes "no-relationship" ++ 0 ∷ []
relationship_bytes (some rel) =
    as_bytes "relationship"
    ++ 0 ∷ hash_string (action_name rel.action)
    ++ hash_string rel.prospective_parent_id
    ++ hash_string rel.operation_id

abbrev command_bytes : Option String → List ℕ
command_bytes none = []
command_bytes (some cmd) = as_bytes "command-projection" ++ 0 ∷ hash_string cmd

-- What the hasher is given, in order.
unfoldable pub identity_bytes : ApprovalInput → List ℕ
identity_bytes input =
    as_bytes "fx.subagent.approval-identity.v2"
    ++ 0 ∷ hash_string (kind_name input.kind)
    ++ hash_string input.id
    ++ hash_string input.child_id
    ++ hash_string input.root_id
    ++ optional_bytes input.work_id
    ++ relationship_bytes input.relationship
    ++ input.prepared_fingerprint
    ++ hash_string input.label
    ++ optional_bytes input.explanation
    ++ command_bytes input.command
    ++ grants_bytes (sort_grants input.grants)

abbrev pub approval_identity_fingerprint : (List ℕ → List ℕ) → ApprovalInput → List ℕ
approval_identity_fingerprint sha256 input = sha256 (identity_bytes input)
