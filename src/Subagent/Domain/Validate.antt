-- ===== src/Subagent/Domain/Validate.antt =====
-- src/subagent_domain.rs: `validate_command` and the validation of each kind of command.
pub mod Sound
use fx_rust.Prelude.{
  ℕ, zero, ◌+◌, Bool, true, false, ◌&&◌, ◌||◌, not, String, Option, none, some, List, [], Result,
  Check, ok, err, fail_if, ok_or, map_ok, check_some, ◌>>=◌, ◌>>◌, ltb, ◌==◌, if◌then◌else◌, length,
  is_some, is_none, is_empty, unwrap_or, Eq, same, contains, enum_eq, string_eq, no_repeats, str_eq,
}
use fx_rust.Subagent.Domain.Types.{
  Mode, one_off, persistent, InspectSection, status, InspectWait, InspectWaitInput, State,
  is_settled, settled, InspectWaitUntil, RelationshipAction, attach, detach, reparent, CreateInput,
  InspectInput, MessageInput, MessageSendInput, MessageMilestoneInput, RelationshipInput,
  ConfigureInput, LifecycleInput, CommandInput, CreateCommand, InspectCommand, MessageCommand,
  RelationshipCommand, ConfigureCommand, LifecycleCommand, Command, ValidationError, Configuration,
  NotificationPolicy, NotificationPolicyInput, default_policy_input, invalid_branch_selection,
  invalid_nested_branch_selection, missing_name, missing_mode, missing_one_off_prompt,
  missing_inspect_id, invalid_message, invalid_prompt, invalid_inspect_sections,
  invalid_inspect_wait, invalid_page_limit, invalid_relationship, empty_configuration,
  inspect_section_count, default_page_limit, max_page_limit, max_inspect_wait_ms, max_prompt_bytes,
  max_message_bytes,
}
use fx_rust.Subagent.Domain.Text.{validate_id, validate_name, validate_model, validate_bounded_text}
use fx_rust.Subagent.Domain.Cursor.{parse_cursor}
use fx_rust.Subagent.Domain.Policy.{validate_notification_policy}

pub InspectSection-discrete : Discrete InspectSection
InspectSection-discrete = hlevel

instance abbrev pub inspect_section_eq : Eq InspectSection
inspect_section_eq = enum_eq InspectSection-discrete

abbrev pub is_one_off : Mode → Bool
is_one_off one_off = true
is_one_off persistent = false

-- A check whose value is dropped, as in `parse_cursor(cursor)?;`.
abbrev pub ignore {ℓ κ} : {E : Type ℓ} {A : Type κ} → Result E A → Check E
ignore (ok a) = ok tt
ignore (err e) = err e

-- `match o { Some(x) => Some(f(x)?), None => None }`
abbrev pub map_some {ℓ κ μ} :
    {E : Type ℓ} {A : Type κ} {B : Type μ} → (A → Result E B) → Option A → Result E (Option B)
map_some f none = ok none
map_some f (some a) = map_ok some (f a)

unfoldable pub validate_create : CreateInput → Result ValidationError CreateCommand
validate_create input = do
  name ← ok_or input.name missing_name
  mode ← ok_or input.mode missing_mode
  fail_if (is_one_off mode && is_none input.prompt) missing_one_off_prompt
  validate_name name
  check_some validate_model input.model
  check_some (λ prompt. validate_bounded_text prompt max_prompt_bytes invalid_prompt) input.prompt
  notifications ← validate_notification_policy (unwrap_or input.notifications default_policy_input)
  ok (record {
    configuration = record {
      name = name;
      model = input.model;
      effort = input.effort;
      permission_mode = unwrap_or input.permission_mode "yolo";
      notifications = notifications;
    };
    mode = mode;
    prompt = input.prompt;
    permission_mode_explicit = is_some input.permission_mode;
  })

unfoldable pub validate_wait : InspectInput → InspectWaitInput → Result ValidationError InspectWait
validate_wait input requested = do
  fail_if (is_some input.cursor || not (contains input.sections status)) invalid_inspect_wait
  until ← ok_or requested.until invalid_inspect_wait
  timeout_ms ← ok_or requested.timeout_ms invalid_inspect_wait
  fail_if (timeout_ms == 0 || ltb max_inspect_wait_ms timeout_ms) invalid_inspect_wait
  ok (record {
    until = until;
    after_generation = requested.after_generation;
    timeout_ms = timeout_ms;
  })

unfoldable pub validate_inspect : InspectInput → Result ValidationError InspectCommand
unfolding validate_wait
validate_inspect input = do
  id ← ok_or input.id missing_inspect_id
  validate_id id
  fail_if (is_empty input.sections || ltb inspect_section_count (length input.sections))
      invalid_inspect_sections
  fail_if (not (no_repeats [] input.sections)) invalid_inspect_sections
  let limit = unwrap_or input.limit default_page_limit
  fail_if (limit == 0 || ltb max_page_limit limit) invalid_page_limit
  check_some (λ cursor. ignore (parse_cursor cursor)) input.cursor
  wait ← map_some (validate_wait input) input.wait
  ok (record {
    id = id;
    sections = input.sections;
    cursor = input.cursor;
    limit = limit;
    wait = wait;
  })

abbrev until_satisfied : InspectWaitUntil → State → Bool
until_satisfied settled state = is_settled state

-- `if let Some(after) = wait.after_generation { if generation <= after { return false; } }`
abbrev still_before : Option ℕ → ℕ → Bool
still_before none generation = false
still_before (some after) generation = not (ltb after generation)

unfoldable pub inspect_wait_satisfied : InspectWait → ℕ → State → Bool
inspect_wait_satisfied wait generation state =
    if still_before wait.after_generation generation
    then false
    else until_satisfied wait.until state

abbrev count_some {ℓ} : {A : Type ℓ} → Option A → ℕ
count_some none = 0
count_some (some a) = 1

validate_send : MessageSendInput → Result ValidationError MessageCommand
validate_send value = do
  validate_id value.id
  validate_bounded_text value.content max_message_bytes invalid_message
  ok (MessageCommand.send value.id value.content)

validate_milestone : MessageMilestoneInput → Result ValidationError MessageCommand
validate_milestone milestone = do
  validate_name milestone.name
  ok (MessageCommand.milestone milestone.name)

-- After the count, `expect("exactly one nested branch")` cannot fail: with neither field the count
-- is 0, and the first case is never reached from `validate_message`.
message_branch :
    Option MessageSendInput → Option MessageMilestoneInput → Result ValidationError MessageCommand
unfolding validate_send validate_milestone
message_branch none none = err invalid_nested_branch_selection
message_branch none (some milestone) = validate_milestone milestone
message_branch (some value) _ = validate_send value

unfoldable pub validate_message : MessageInput → Result ValidationError MessageCommand
unfolding message_branch
validate_message input = do
  fail_if (not (count_some input.send + count_some input.milestone == 1))
      invalid_nested_branch_selection
  message_branch input.send input.milestone

-- The `match input.action`, as the condition of its error.
abbrev pub bad_parent : RelationshipAction → Option String → Bool
bad_parent attach parent_id = false
bad_parent detach parent_id = is_some parent_id
bad_parent reparent parent_id = is_none parent_id

abbrev pub is_own_parent : String → Option String → Bool
is_own_parent id none = false
is_own_parent id (some parent_id) = str_eq id parent_id

unfoldable pub validate_relationship :
    RelationshipInput → Result ValidationError RelationshipCommand
validate_relationship input = do
  validate_id input.id
  check_some validate_id input.parent_id
  fail_if (bad_parent input.action input.parent_id) invalid_relationship
  fail_if (is_own_parent input.id input.parent_id) invalid_relationship
  ok (record { action = input.action; id = input.id; parent_id = input.parent_id })

unfoldable pub validate_configure : ConfigureInput → Result ValidationError ConfigureCommand
validate_configure input = do
  validate_id input.id
  fail_if
      (is_none input.name
        && is_none input.model
        && is_none input.effort
        && is_none input.permission_mode
        && is_none input.notifications)
      empty_configuration
  check_some validate_name input.name
  check_some validate_model input.model
  notifications ← map_some validate_notification_policy input.notifications
  ok (record {
    id = input.id;
    name = input.name;
    model = input.model;
    effort = input.effort;
    permission_mode = input.permission_mode;
    notifications = notifications;
  })

unfoldable pub validate_lifecycle : LifecycleInput → Result ValidationError LifecycleCommand
validate_lifecycle input = do
  validate_id input.id
  ok (record { id = input.id; action = input.action })

abbrev pub selected : CommandInput → ℕ
selected input =
    count_some input.create
    + count_some input.inspect
    + count_some input.message
    + count_some input.relationship
    + count_some input.configure
    + count_some input.lifecycle

-- The branches in the order of the source. The last `expect` cannot fail once one is selected.
command_branch :
    Option CreateInput
    → Option InspectInput
    → Option MessageInput
    → Option RelationshipInput
    → Option ConfigureInput
    → Option LifecycleInput
    → Result ValidationError Command
command_branch (some i) _ _ _ _ _ = map_ok Command.create (validate_create i)
command_branch none (some i) _ _ _ _ = map_ok Command.inspect (validate_inspect i)
command_branch none none (some i) _ _ _ = map_ok Command.message (validate_message i)
command_branch none none none (some i) _ _ = map_ok Command.relationship (validate_relationship i)
command_branch none none none none (some i) _ = map_ok Command.configure (validate_configure i)
command_branch none none none none none (some i) = map_ok Command.lifecycle (validate_lifecycle i)
command_branch none none none none none none = err invalid_branch_selection

unfoldable pub validate_command : CommandInput → Result ValidationError Command
unfolding command_branch
validate_command input = do
  fail_if (not (selected input == 1)) invalid_branch_selection
  command_branch input.create input.inspect input.message input.relationship input.configure
      input.lifecycle
