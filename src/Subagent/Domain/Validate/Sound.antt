-- ===== src/Subagent/Domain/Validate/Sound.antt =====
-- What a validated command satisfies, and which input it came from.
use fx_rust.Prelude.{
  ◌≤◌, ◌<◌, ◌≡◌, ◌≢◌, true, false, String, Option, none, some, Check, ok, check_some, is_some,
  is_none, is_empty, arith, contains, Distinct, no_repeats-Distinct, eq_iff, unwrap_or,
}
use fx_rust.Subagent.Domain.Types.{
  one_off, status, InspectWait, InspectWaitInput, detach, reparent, CreateInput, InspectInput,
  MessageInput, RelationshipInput, ConfigureInput, LifecycleInput, CommandInput, CreateCommand,
  InspectCommand, MessageCommand, RelationshipCommand, ConfigureCommand, LifecycleCommand, Command,
  ValidationError, NotificationPolicy, NotificationPolicyInput, max_page_limit, max_inspect_wait_ms,
  max_prompt_bytes, max_message_bytes, invalid_prompt, invalid_message, default_policy_input,
}
use fx_rust.Subagent.Domain.Text.{
  validate_id, validate_name, validate_model, validate_bounded_text, IsId, IsName, IsModel,
  IsBoundedText, validate_id_iff, validate_bounded_text_iff,
}
use fx_rust.Subagent.Domain.Cursor.{parse_cursor}
use fx_rust.Subagent.Domain.Policy.{validate_notification_policy}
use fx_rust.Subagent.Domain.Policy.Accepts.{as_input, validate_policy_idem}
use fx_rust.Subagent.Domain.Validate.{
  inspect_section_eq, validate_create, validate_wait, validate_inspect, validate_message,
  validate_relationship, validate_configure, validate_lifecycle, validate_command, map_some, ignore,
  is_own_parent, selected,
}

abbrev pub AllSome {ℓ κ} : {A : Type ℓ} → (A → Type κ) → Option A → Type κ
AllSome P none = Unit
AllSome P (some a) = P a

-- A policy that validation returns unchanged.
abbrev pub IsValidated : NotificationPolicy → Type 0
IsValidated p = validate_notification_policy (as_input p) ≡ ok p

pub record IsCreate (c : CreateCommand) : Type 0 where
  pub name : IsName c.configuration.name
  pub model : AllSome IsModel c.configuration.model
  pub prompt : AllSome (IsBoundedText max_prompt_bytes) c.prompt
  pub one_off_has_prompt : c.mode ≡ one_off → is_some c.prompt ≡ true
  pub notifications : IsValidated c.configuration.notifications

pub record IsWait (c : InspectCommand) (w : InspectWait) : Type 0 where
  pub positive : 0 < w.timeout_ms
  pub bounded : w.timeout_ms ≤ max_inspect_wait_ms
  pub reads_status : contains c.sections status ≡ true
  pub no_cursor : c.cursor ≡ none

pub record IsInspect (c : InspectCommand) : Type 0 where
  pub id : IsId c.id
  pub some_section : is_empty c.sections ≡ false
  pub sections_distinct : Distinct c.sections
  pub limit_positive : 0 < c.limit
  pub limit_bounded : c.limit ≤ max_page_limit
  pub cursor_parses : AllSome (λ cursor. ignore (parse_cursor cursor) ≡ ok tt) c.cursor
  pub waits : AllSome (IsWait c) c.wait

abbrev pub IsMessage : MessageCommand → Type 0
IsMessage (MessageCommand.send id content) = IsId id × IsBoundedText max_message_bytes content
IsMessage (MessageCommand.milestone name) = IsName name

-- Only an attachment may leave the parent open; nothing is ever its own parent.
pub record IsRelationship (c : RelationshipCommand) : Type 0 where
  pub id : IsId c.id
  pub parent : AllSome (λ parent. IsId parent × (c.id ≢ parent)) c.parent_id
  pub detach_has_none : c.action ≡ detach → c.parent_id ≡ none
  pub reparent_has_some : c.action ≡ reparent → is_some c.parent_id ≡ true

pub record IsConfigure (c : ConfigureCommand) : Type 0 where
  pub id : IsId c.id
  pub name : AllSome IsName c.name
  pub model : AllSome IsModel c.model
  pub notifications : AllSome IsValidated c.notifications
  pub nonempty :
      is_none c.name ≡ true
      → is_none c.model ≡ true
      → is_none c.effort ≡ true
      → is_none c.permission_mode ≡ true
      → is_some c.notifications ≡ true

abbrev pub IsWellFormed : Command → Type 0
IsWellFormed (Command.create c) = IsCreate c
IsWellFormed (Command.inspect c) = IsInspect c
IsWellFormed (Command.message c) = IsMessage c
IsWellFormed (Command.relationship c) = IsRelationship c
IsWellFormed (Command.configure c) = IsConfigure c
IsWellFormed (Command.lifecycle c) = IsId c.id

validate_name-IsName : (s : String) → validate_name s ≡ ok tt → IsName s
unfolding validate_name
validate_name-IsName s h = (validate_bounded_text_iff s _ _).0 h

validate_model-IsModel : (s : String) → validate_model s ≡ ok tt → IsModel s
unfolding validate_model
validate_model-IsModel s h = (validate_bounded_text_iff s _ _).0 h

check_some-AllSome {ℓ κ} :
    {A : Type ℓ} (f : A → Check ValidationError) (P : A → Type κ)
    → ((a : A) → f a ≡ ok tt → P a)
    → (o : Option A) → check_some f o ≡ ok tt
    → AllSome P o
check_some-AllSome f P s none h = tt
check_some-AllSome f P s (some a) h = s a h

-- The lemmas on the parts, at an optional value.
ids_checked : (o : Option String) → check_some validate_id o ≡ ok tt → AllSome IsId o
ids_checked o h = check_some-AllSome validate_id IsId (λ s. (validate_id_iff s).0) o h

names_checked : (o : Option String) → check_some validate_name o ≡ ok tt → AllSome IsName o
names_checked o h = check_some-AllSome validate_name IsName validate_name-IsName o h

models_checked : (o : Option String) → check_some validate_model o ≡ ok tt → AllSome IsModel o
models_checked o h = check_some-AllSome validate_model IsModel validate_model-IsModel o h

prompts_checked :
    (o : Option String)
    → check_some (λ prompt. validate_bounded_text prompt max_prompt_bytes invalid_prompt) o ≡ ok tt
    → AllSome (IsBoundedText max_prompt_bytes) o
prompts_checked o h =
    check_some-AllSome _ (IsBoundedText max_prompt_bytes)
      (λ s. (validate_bounded_text_iff s max_prompt_bytes invalid_prompt).0) o h

cursors_checked :
    (o : Option String)
    → check_some (λ cursor. ignore (parse_cursor cursor)) o ≡ ok tt
    → AllSome (λ cursor. ignore (parse_cursor cursor) ≡ ok tt) o
cursors_checked o h = check_some-AllSome _ _ (λ s e. e) o h

policy-IsValidated :
    (i : NotificationPolicyInput) (p : NotificationPolicy)
    → validate_notification_policy i ≡ ok p
    → IsValidated p
policy-IsValidated i p h = (validate_policy_idem i p h).1

policies-IsValidated :
    (o : Option NotificationPolicyInput) (r : Option NotificationPolicy)
    → map_some validate_notification_policy o ≡ ok r
    → (AllSome IsValidated r) × (is_some r ≡ is_some o)
policies-IsValidated none r h = ground arith
policies-IsValidated (some i) none h = ground arith
policies-IsValidated (some i) (some p) h = ground (arith, policy-IsValidated i p)

IsCreate-well_formed : (i : CreateInput) (c : CreateCommand) → validate_create i ≡ ok c → IsCreate c
unfolding validate_create
IsCreate-well_formed i c h = record {
  name = ground (arith, validate_name-IsName c.configuration.name);
  model = ground (arith, models_checked i.model);
  prompt = ground (arith, prompts_checked i.prompt);
  one_off_has_prompt = ground arith;
  notifications = ground (
    arith,
    policy-IsValidated (unwrap_or i.notifications default_policy_input)
        c.configuration.notifications,
  );
}

wait_well_formed :
    (i : InspectInput) (w : InspectWaitInput) (r : InspectWait)
    → validate_wait i w ≡ ok r
    → (0 < r.timeout_ms)
      × (r.timeout_ms ≤ max_inspect_wait_ms)
      × (contains i.sections status ≡ true)
      × (i.cursor ≡ none)
unfolding validate_wait
wait_well_formed i w r h = ground arith

waits_well_formed :
    (i : InspectInput) (o : Option InspectWaitInput) (r : Option InspectWait) (c : InspectCommand)
    → map_some (validate_wait i) o ≡ ok r
    → c.sections ≡ i.sections
    → c.cursor ≡ i.cursor
    → AllSome (IsWait c) r
waits_well_formed i o none c h s k = tt
waits_well_formed i none (some w) c h s k = cc
waits_well_formed i (some x) (some w) c h s k = ground (arith, wait_well_formed i x w)

IsInspect-well_formed :
    (i : InspectInput) (c : InspectCommand) → validate_inspect i ≡ ok c → IsInspect c
unfolding validate_inspect
IsInspect-well_formed i c h = record {
  id = ground (arith, validate_id_iff c.id);
  some_section = ground arith;
  sections_distinct = ground (arith, no_repeats-Distinct i.sections);
  limit_positive = ground arith;
  limit_bounded = ground arith;
  cursor_parses = ground (arith, cursors_checked i.cursor);
  waits = ground (arith, waits_well_formed i i.wait c.wait c);
}

IsMessage-well_formed :
    (i : MessageInput) (c : MessageCommand) → validate_message i ≡ ok c → IsMessage c
unfolding validate_message
IsMessage-well_formed i (MessageCommand.send id content) h =
    ground (
      arith,
      validate_id_iff id,
      validate_bounded_text_iff content max_message_bytes invalid_message,
    )
IsMessage-well_formed i (MessageCommand.milestone name) h =
    ground (arith, validate_name-IsName name)

other_parent :
    (id : String) (o : Option String)
    → AllSome IsId o
    → is_own_parent id o ≡ false
    → AllSome (λ parent. IsId parent × (id ≢ parent)) o
other_parent id none h k = tt
other_parent id (some parent) h k = ground (arith, eq_iff id parent)

IsRelationship-well_formed :
    (i : RelationshipInput) (c : RelationshipCommand)
    → validate_relationship i ≡ ok c
    → IsRelationship c
unfolding validate_relationship
IsRelationship-well_formed i c h = record {
  id = ground (arith, validate_id_iff i.id);
  parent = ground (arith, ids_checked i.parent_id, other_parent i.id i.parent_id);
  detach_has_none = ground arith;
  reparent_has_some = ground arith;
}

IsConfigure-well_formed :
    (i : ConfigureInput) (c : ConfigureCommand) → validate_configure i ≡ ok c → IsConfigure c
unfolding validate_configure
IsConfigure-well_formed i c h = record {
  id = ground (arith, validate_id_iff i.id);
  name = ground (arith, names_checked i.name);
  model = ground (arith, models_checked i.model);
  notifications = ground (arith, policies-IsValidated i.notifications c.notifications);
  nonempty = ground (arith, policies-IsValidated i.notifications c.notifications);
}

lifecycle_well_formed :
    (i : LifecycleInput) (c : LifecycleCommand) → validate_lifecycle i ≡ ok c → IsId c.id
unfolding validate_lifecycle
lifecycle_well_formed i c h = ground (arith, validate_id_iff i.id)

-- The command is that of the one branch which the input has.
abbrev pub ComesFrom : CommandInput → Command → Type 0
ComesFrom i (Command.create c) =
    (x : CreateInput) × (i.create ≡ some x) × (validate_create x ≡ ok c)
ComesFrom i (Command.inspect c) =
    (x : InspectInput) × (i.inspect ≡ some x) × (validate_inspect x ≡ ok c)
ComesFrom i (Command.message c) =
    (x : MessageInput) × (i.message ≡ some x) × (validate_message x ≡ ok c)
ComesFrom i (Command.relationship c) =
    (x : RelationshipInput) × (i.relationship ≡ some x) × (validate_relationship x ≡ ok c)
ComesFrom i (Command.configure c) =
    (x : ConfigureInput) × (i.configure ≡ some x) × (validate_configure x ≡ ok c)
ComesFrom i (Command.lifecycle c) =
    (x : LifecycleInput) × (i.lifecycle ≡ some x) × (validate_lifecycle x ≡ ok c)

command_source :
    (i : CommandInput) (c : Command) → validate_command i ≡ ok c → (selected i ≡ 1) × ComesFrom i c
unfolding validate_command
command_source i (Command.create c) h = ground arith
command_source i c h = ground arith

source-IsWellFormed : (i : CommandInput) (c : Command) → ComesFrom i c → IsWellFormed c
source-IsWellFormed i (Command.create c) (x, _, h) = IsCreate-well_formed x c h
source-IsWellFormed i (Command.inspect c) (x, _, h) = IsInspect-well_formed x c h
source-IsWellFormed i (Command.message c) (x, _, h) = IsMessage-well_formed x c h
source-IsWellFormed i (Command.relationship c) (x, _, h) = IsRelationship-well_formed x c h
source-IsWellFormed i (Command.configure c) (x, _, h) = IsConfigure-well_formed x c h
source-IsWellFormed i (Command.lifecycle c) (x, _, h) = lifecycle_well_formed x c h

-- An accepted input has exactly one branch, the command is what that branch validates to, and it is
-- well formed.
pub validate_command_sound :
    (i : CommandInput) (c : Command)
    → validate_command i ≡ ok c
    → (selected i ≡ 1) × ComesFrom i c × IsWellFormed c
validate_command_sound i c h =
    let (one, from) = command_source i c h in (one, from, source-IsWellFormed i c from)
