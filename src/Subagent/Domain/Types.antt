-- ===== src/Subagent/Domain/Types.antt =====
-- The types of src/subagent_domain.rs. A `usize`, `u64` or `i64` is a plain number; what an
-- operation does at the end of its range is written out where the operation is.
use fx_rust.Prelude.{ℕ, ℤ, Bool, true, false, String, Option, none, List, []}

abbrev pub max_name_bytes : ℕ
max_name_bytes = 128

abbrev pub max_model_bytes : ℕ
max_model_bytes = 256

abbrev pub max_prompt_bytes : ℕ
max_prompt_bytes = 65536

abbrev pub max_message_bytes : ℕ
max_message_bytes = 65536

abbrev pub max_operation_id_bytes : ℕ
max_operation_id_bytes = 128

abbrev pub max_admission_items : ℕ
max_admission_items = 256

abbrev pub max_admission_item_bytes : ℕ
max_admission_item_bytes = 4096

abbrev pub max_milestones : ℕ
max_milestones = 32

abbrev pub max_stop_conditions : ℕ
max_stop_conditions = 8

abbrev pub default_page_limit : ℕ
default_page_limit = 50

abbrev pub max_page_limit : ℕ
max_page_limit = 100

abbrev pub max_inspect_wait_ms : ℕ
max_inspect_wait_ms = 60000

pub data Mode : Type 0 where
  one_off persistent : Mode

pub data State : Type 0 where
  idle queued running awaiting_approval interrupted completed failed cancelled archived : State

-- Settled states are those that a waiter may stop at.
abbrev pub is_settled : State → Bool
is_settled State.queued = false
is_settled State.running = false
is_settled State.awaiting_approval = false
is_settled _ = true

pub record TerminalEvents : Type 0 where
  pub completed : Bool
  pub failed : Bool
  pub cancelled : Bool

-- `impl Default for TerminalEvents`
abbrev pub default_terminal_events : TerminalEvents
default_terminal_events = record { completed = true; failed = true; cancelled = true }

pub data StopCondition : Type 0 where
  terminal duration_elapsed : StopCondition

pub record NotificationPolicyInput : Type 0 where
  pub terminal : TerminalEvents
  pub milestones : List String
  pub report_interval_ms : Option ℕ
  pub report_duration_ms : Option ℕ
  pub stop_conditions : List StopCondition

abbrev pub default_policy_input : NotificationPolicyInput
default_policy_input = record {
  terminal = default_terminal_events;
  milestones = [];
  report_interval_ms = none;
  report_duration_ms = none;
  stop_conditions = [];
}

pub record NotificationPolicy : Type 0 where
  pub terminal : TerminalEvents
  pub milestones : List String
  pub report_interval_ms : Option ℕ
  pub report_duration_ms : Option ℕ
  pub stop_conditions : List StopCondition

abbrev pub default_policy : NotificationPolicy
default_policy = record {
  terminal = default_terminal_events;
  milestones = [];
  report_interval_ms = none;
  report_duration_ms = none;
  stop_conditions = [];
}

pub record Configuration : Type 0 where
  pub name : String
  pub model : Option String
  pub effort : Option String
  pub permission_mode : String
  pub notifications : NotificationPolicy

pub data InspectSection : Type 0 where
  status messages tool_activity events configuration relationship : InspectSection

abbrev pub inspect_section_count : ℕ
inspect_section_count = 6

pub data InspectWaitUntil : Type 0 where
  settled : InspectWaitUntil

pub record InspectWaitInput : Type 0 where
  pub until : Option InspectWaitUntil
  pub after_generation : Option ℕ
  pub timeout_ms : Option ℕ

pub record InspectWait : Type 0 where
  pub until : InspectWaitUntil
  pub after_generation : Option ℕ
  pub timeout_ms : ℕ

pub data RelationshipAction : Type 0 where
  attach detach reparent : RelationshipAction

pub data LifecycleAction : Type 0 where
  cancel resume close reopen : LifecycleAction

pub record CreateInput : Type 0 where
  pub name : Option String
  pub mode : Option Mode
  pub prompt : Option String
  pub model : Option String
  pub effort : Option String
  pub permission_mode : Option String
  pub notifications : Option NotificationPolicyInput

pub record InspectInput : Type 0 where
  pub id : Option String
  pub sections : List InspectSection
  pub cursor : Option String
  pub limit : Option ℕ
  pub wait : Option InspectWaitInput

pub record MessageSendInput : Type 0 where
  pub id : String
  pub content : String

pub record MessageMilestoneInput : Type 0 where
  pub name : String

pub record MessageInput : Type 0 where
  pub send : Option MessageSendInput
  pub milestone : Option MessageMilestoneInput

pub record RelationshipInput : Type 0 where
  pub action : RelationshipAction
  pub id : String
  pub parent_id : Option String

pub record ConfigureInput : Type 0 where
  pub id : String
  pub name : Option String
  pub model : Option String
  pub effort : Option String
  pub permission_mode : Option String
  pub notifications : Option NotificationPolicyInput

pub record LifecycleInput : Type 0 where
  pub id : String
  pub action : LifecycleAction

pub record CommandInput : Type 0 where
  pub create : Option CreateInput
  pub inspect : Option InspectInput
  pub message : Option MessageInput
  pub relationship : Option RelationshipInput
  pub configure : Option ConfigureInput
  pub lifecycle : Option LifecycleInput

pub record CreateCommand : Type 0 where
  pub configuration : Configuration
  pub mode : Mode
  pub prompt : Option String
  pub permission_mode_explicit : Bool

pub record InspectCommand : Type 0 where
  pub id : String
  pub sections : List InspectSection
  pub cursor : Option String
  pub limit : ℕ
  pub wait : Option InspectWait

pub data MessageCommand : Type 0 where
  send : String → String → MessageCommand
  milestone : String → MessageCommand

pub record RelationshipCommand : Type 0 where
  pub action : RelationshipAction
  pub id : String
  pub parent_id : Option String

pub record ConfigureCommand : Type 0 where
  pub id : String
  pub name : Option String
  pub model : Option String
  pub effort : Option String
  pub permission_mode : Option String
  pub notifications : Option NotificationPolicy

pub record LifecycleCommand : Type 0 where
  pub id : String
  pub action : LifecycleAction

pub data Command : Type 0 where
  create : CreateCommand → Command
  inspect : InspectCommand → Command
  message : MessageCommand → Command
  relationship : RelationshipCommand → Command
  configure : ConfigureCommand → Command
  lifecycle : LifecycleCommand → Command

pub data QueueStatus : Type 0 where
  pending running awaiting_approval completed failed cancelled interrupted : QueueStatus

pub record QueuedMessage : Type 0 where
  pub id : String
  pub source_id : String
  pub content : String
  pub root_user_intent_context : String
  pub root_user_messages : List String
  pub root_user_evidence_complete : Bool
  pub status : QueueStatus
  pub cancellation_reason : Option String
  pub created_at_ms : ℤ

-- `message_queued message_id`, `relationship_changed previous_parent_id parent_id`,
-- `lifecycle_changed previous current`, `work_transition work_item_id previous current reason`,
-- `milestone_emitted operation_id source_child_id target_parent_id work_item_id name`
pub data EventKind : Type 0 where
  created : EventKind
  message_queued : String → EventKind
  relationship_changed : Option String → Option String → EventKind
  configured : EventKind
  lifecycle_changed : State → State → EventKind
  work_transition : String → Option QueueStatus → QueueStatus → Option String → EventKind
  milestone_emitted : String → String → String → String → String → EventKind

pub record Event : Type 0 where
  pub sequence : ℕ
  pub revision : ℕ
  pub id : String
  pub timestamp_ms : ℤ
  pub kind : EventKind

pub data OutcomeCode : Type 0 where
  created message_queued relationship_changed configured lifecycle_changed : OutcomeCode
  milestone_emitted : OutcomeCode

pub data OperationIdentitySource : Type 0 where
  model human : OperationIdentitySource

-- A fingerprint is its bytes.
pub record OperationReceipt : Type 0 where
  pub id : String
  pub request_fingerprint : List ℕ
  pub fingerprint : List ℕ
  pub code : OutcomeCode
  pub target_id : String
  pub generation : ℕ
  pub event_sequence : ℕ
  pub identity_source : Option OperationIdentitySource
  pub identity_epoch : Option ℕ

pub data ValidationError : Type 0 where
  invalid_branch_selection invalid_nested_branch_selection missing_name missing_mode :
      ValidationError
  missing_one_off_prompt missing_inspect_id invalid_id invalid_name : ValidationError
  invalid_model invalid_prompt invalid_message invalid_operation_id : ValidationError
  invalid_notification_policy duplicate_milestone duplicate_stop_condition : ValidationError
  invalid_inspect_sections invalid_inspect_wait invalid_cursor invalid_page_limit : ValidationError
  invalid_relationship empty_configuration : ValidationError
