-- ===== src/Permissions/Paths.antt =====
-- src/permissions.rs: targets against patterns. The crate `globset` is the argument `glob`: of a
-- pattern and a target, nothing where the pattern does not parse, else whether it matches.
use Prim.Native.Char.{code}
use Prim.Native.String.{◌++◌ as ◌+++◌}
use fx_rust.Prelude.{
  ℕ, suc, Bool, true, false, ◌&&◌, ◌||◌, String, str_eq, is_empty_text, Option, none, some, is_some,
  if◌then◌else◌, ◌==◌,
}

-- `pattern.ends_with('/')`
abbrev pub ends_with_slash : String → Bool
ends_with_slash String.[] = false
ends_with_slash (String.◌∷◌ c s) = is_empty_text s && code c == b'/' || ends_with_slash s

-- `trim_end_matches('/')`
abbrev pub trim_end_slash : String → String
trim_end_slash String.[] = ""
trim_end_slash (String.◌∷◌ c s) =
    let rest = trim_end_slash s in
    if is_empty_text rest && code c == b'/' then "" else String.◌∷◌ c rest

-- `trim_start_matches('/')`
abbrev pub trim_start_slash : String → String
trim_start_slash String.[] = ""
trim_start_slash (String.◌∷◌ c s) =
    let rest = trim_start_slash s in if code c == b'/' then rest else String.◌∷◌ c s

-- `target.strip_prefix(prefix)`, the prefix first
abbrev pub strip_prefix : String → String → Option String
strip_prefix String.[] target = some target
strip_prefix (String.◌∷◌ c prefix) String.[] = none
strip_prefix (String.◌∷◌ c prefix) (String.◌∷◌ d target) =
    let rest = strip_prefix prefix target in if code c == code d then rest else none

-- `s.chars().count()`
abbrev pub char_count : String → ℕ
char_count String.[] = 0
char_count (String.◌∷◌ c s) = suc (char_count s)

unfoldable pub target_starts_with_dir : String → String → Bool
target_starts_with_dir pattern target =
    let prefix = trim_end_slash pattern in
    str_eq target prefix || is_some (strip_prefix (prefix +++ "/") target)

abbrev pub Glob : Type 0
Glob = String → String → Option Bool

-- `Err(_) => pattern == target`
abbrev matched : String → String → Option Bool → Bool
matched pattern target none = str_eq pattern target
matched pattern target (some hit) = hit

abbrev starts_in : String → Option String → Bool
starts_in pattern none = false
starts_in pattern (some rel) = target_starts_with_dir pattern rel

abbrev matched_rel : Glob → String → Option String → Bool
matched_rel glob pattern none = false
matched_rel glob pattern (some rel) = matched pattern rel (glob pattern rel)

unfoldable pub glob_matches : Glob → String → String → Option String → Bool
glob_matches glob pattern target rel_target =
    if ends_with_slash pattern && target_starts_with_dir pattern target
    then true
    else if ends_with_slash pattern && starts_in pattern rel_target
    then true
    else if matched pattern target (glob pattern target)
    then true
    else matched_rel glob pattern rel_target

abbrev nonempty : String → Option String
nonempty s = if is_empty_text s then none else some s

abbrev relative : Option String → Option String
relative none = none
relative (some r) = nonempty (trim_start_slash r)

-- The target relative to the workspace, where it lies below it.
unfoldable pub rel_target : String → String → Option String
rel_target workspace target = relative (strip_prefix workspace target)
