-- ===== src/Subagent/Control/Apply.antt =====
-- src/subagent_control.rs: `apply_command`, one function for each kind of command, and
-- `inspect_record`. `clock k` is what the k-th call of `now_ms()` within one command reads.
pub mod Order
pub mod Keep
pub mod Unique
pub mod Archive
pub mod History
use Prim.Native.String.{◌++◌ as ◌+++◌}
use fx_rust.Prelude.{
  ℕ, ◌+◌, ℤ, is_zero, String, len, Option, none, some, List, [], ◌∷◌, ◌++◌, Bool, true, false, not,
  ◌||◌, ◌&&◌, Result, ok, err, any, keep, ltb, is_empty, unwrap_or, if◌then◌else◌,
}
use fx_rust.Prelude.U64.{wrapping_suc, to_string}
use fx_rust.Subagent.Domain.Types.{
  Mode, State, Configuration, LifecycleAction, QueuedMessage, Event, EventKind, InspectSection,
  CreateCommand, ConfigureCommand, RelationshipCommand, attach, detach, reparent, LifecycleCommand,
  MessageCommand, RelationshipAction, Command,
}
use fx_rust.Subagent.Control.{SubagentRecord, TransitionError, pending_work, is_pending}
use fx_rust.Subagent.Control.Lifecycle.{next_lifecycle_state}

-- The two errors of a command: its text in the source carries these values.
pub data CommandError : Type 0 where
  already_exists : String → CommandError
  invalid_transition : LifecycleAction → State → CommandError

pub record LifecycleOutcome : Type 0 where
  pub previous : State
  pub current : State

pub data MessageOutcome : Type 0 where
  queued : String → ℕ → MessageOutcome
  milestone : String → ℕ → MessageOutcome

pub data CommandOutcome : Type 0 where
  created configured inspected : CommandOutcome
  relationship_changed : Option String → CommandOutcome
  lifecycle_changed : LifecycleOutcome → CommandOutcome
  message : MessageOutcome → CommandOutcome

-- `record.events.push(…)` under the next sequence number, and its advance.
abbrev pub push_event : SubagentRecord → ℕ → String → ℤ → EventKind → SubagentRecord
push_event r revision id timestamp_ms kind = record r {
  events =
      r.events
      ++ record {
        sequence = r.next_event_sequence;
        revision = revision;
        id = id;
        timestamp_ms = timestamp_ms;
        kind = kind;
      }
        ∷ [];
  next_event_sequence = wrapping_suc r.next_event_sequence;
}

-- `if let Some(prompt) = &cmd.prompt { … }`
abbrev pub push_prompt : SubagentRecord → Option String → ℤ → SubagentRecord
push_prompt r none timestamp_ms = r
push_prompt r (some prompt) timestamp_ms = record r {
  queue =
      r.queue ++ pending_work ("w-" +++ to_string (len prompt)) r.child_id prompt timestamp_ms ∷ [];
}

unfoldable pub apply_create :
    SubagentRecord → CreateCommand → ℤ → SubagentRecord × Result CommandError CommandOutcome
apply_create r cmd timestamp_ms =
    if not (is_zero r.created_at_ms) || not (is_empty r.events)
    then (r, err (already_exists r.child_id))
    else (let configured = record r { configuration = cmd.configuration; mode = cmd.mode } in
        let prompted = push_prompt configured cmd.prompt timestamp_ms in
        let queued = record prompted {
          state = State.queued;
          created_at_ms = timestamp_ms;
          updated_at_ms = timestamp_ms;
        } in
        (push_event queued 0 r.child_id timestamp_ms EventKind.created, ok CommandOutcome.created))

-- `if let Some(x) = &cmd.x { configuration.x = Some(x.clone()) }`
abbrev pub override {ℓ} : {A : Type ℓ} → Option A → Option A → Option A
override none old = old
override (some a) old = some a

unfoldable pub apply_configure : SubagentRecord → ConfigureCommand → (ℕ → ℤ) → SubagentRecord
apply_configure r cmd clock =
    let c = r.configuration in
    record r {
      configuration = record {
        name = unwrap_or cmd.name c.name;
        model = override cmd.model c.model;
        effort = override cmd.effort c.effort;
        permission_mode = unwrap_or cmd.permission_mode c.permission_mode;
        notifications = unwrap_or cmd.notifications c.notifications;
      };
      updated_at_ms = clock 0;
    }

abbrev pub new_parent : RelationshipAction → Option String → Option String
new_parent attach parent_id = parent_id
new_parent detach parent_id = none
new_parent reparent parent_id = parent_id

unfoldable pub apply_relationship : SubagentRecord → RelationshipCommand → (ℕ → ℤ) → SubagentRecord
apply_relationship r cmd clock = record r {
  parent_id = new_parent cmd.action cmd.parent_id;
  updated_at_ms = clock 0;
}

abbrev pub has_pending : List QueuedMessage → Bool
has_pending queue = any (λ w. is_pending w.status) queue

-- `if next == Archived && previous != Archived { record.archived_from = Some(previous); }`
abbrev pub archive_note : State → State → Option State → Option State
archive_note State.archived State.archived old = old
archive_note State.archived previous old = some previous
archive_note next previous old = old

move_to :
    SubagentRecord
    → LifecycleCommand
    → (ℕ → ℤ)
    → Result TransitionError State
    → SubagentRecord × Result CommandError LifecycleOutcome
move_to r cmd clock (err e) = (r, err (invalid_transition cmd.action r.state))
move_to r cmd clock (ok next) =
    let moved = record r {
      archived_from = archive_note next r.state r.archived_from;
      state = next;
      updated_at_ms = clock 0;
    } in
    (
      push_event moved r.generation cmd.id (clock 1) (EventKind.lifecycle_changed r.state next),
      ok (record { previous = r.state; current = next }),
    )

unfoldable pub apply_lifecycle :
    SubagentRecord
    → LifecycleCommand
    → (ℕ → ℤ)
    → SubagentRecord × Result CommandError LifecycleOutcome
unfolding move_to
apply_lifecycle r cmd clock =
    move_to r cmd clock
      (next_lifecycle_state r.mode r.state cmd.action (has_pending r.queue) r.archived_from)

unfoldable pub apply_message :
    SubagentRecord → MessageCommand → (ℕ → ℤ) → SubagentRecord × MessageOutcome
apply_message r (MessageCommand.send id content) clock =
    let sequence = r.next_event_sequence in
    let message_id = "m-" +++ to_string sequence in
    let queued = record r {
      queue = r.queue ++ pending_work message_id id content (clock 0) ∷ [];
    } in
    (
      push_event queued r.generation message_id (clock 0) (EventKind.message_queued message_id),
      MessageOutcome.queued message_id sequence,
    )
apply_message r (MessageCommand.milestone name) clock =
    let sequence = r.next_event_sequence in
    let operation_id = "op-" +++ to_string sequence in
    (
      push_event r r.generation operation_id (clock 0) (
          EventKind.milestone_emitted operation_id r.child_id (unwrap_or r.parent_id "") r.child_id
            name),
      MessageOutcome.milestone operation_id sequence,
    )

abbrev pub lifecycle_outcome :
    SubagentRecord × Result CommandError LifecycleOutcome
    → SubagentRecord × Result CommandError CommandOutcome
lifecycle_outcome (r, ok outcome) = (r, ok (CommandOutcome.lifecycle_changed outcome))
lifecycle_outcome (r, err e) = (r, err e)

unfoldable pub apply_command :
    SubagentRecord → Command → ℤ → (ℕ → ℤ) → SubagentRecord × Result CommandError CommandOutcome
apply_command r (Command.create cmd) timestamp_ms clock = apply_create r cmd timestamp_ms
apply_command r (Command.configure cmd) timestamp_ms clock =
    (apply_configure r cmd clock, ok CommandOutcome.configured)
apply_command r (Command.relationship cmd) timestamp_ms clock =
    let r' = apply_relationship r cmd clock in
    (r', ok (CommandOutcome.relationship_changed r'.parent_id))
apply_command r (Command.lifecycle cmd) timestamp_ms clock =
    lifecycle_outcome (apply_lifecycle r cmd clock)
apply_command r (Command.message msg) timestamp_ms clock =
    let (r', outcome) = apply_message r msg clock in (r', ok (CommandOutcome.message outcome))
apply_command r (Command.inspect _) timestamp_ms clock = (r, ok CommandOutcome.inspected)

pub record Inspection : Type 0 where
  pub child_id : String
  pub state : State
  pub generation : ℕ
  pub parent_id : Option String
  pub mode : Mode
  pub configuration : Configuration
  pub queue : List QueuedMessage
  pub events : List Event
  pub updated_at_ms : ℤ

-- The sections that are asked for do not change the snapshot; evicted events are left out.
unfoldable pub inspect_record : SubagentRecord → List InspectSection → Inspection
inspect_record r sections = record {
  child_id = r.child_id;
  state = r.state;
  generation = r.generation;
  parent_id = r.parent_id;
  mode = r.mode;
  configuration = r.configuration;
  queue = r.queue;
  events = keep (λ e. ltb r.events_evicted_through e.sequence) r.events;
  updated_at_ms = r.updated_at_ms;
}
