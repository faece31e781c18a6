-- ===== src/Subagent/Control.antt =====
-- src/subagent_control.rs: the control record of a subagent and the operations of its manager. An
-- operation through `&mut SubagentRecord` returns the new record, also beside an error.
pub mod Lifecycle
pub mod Revision
pub mod Apply
pub mod Work
use fx_rust.Prelude.{ℕ, ℤ, Bool, false, String, Option, none, some, List, [], ◌≡◌, refl, pos}
use fx_rust.Subagent.Domain.Types.{
  Mode, one_off, State, Configuration, default_policy, QueuedMessage, QueueStatus, Event,
  OperationReceipt,
}
use fx_rust.Subagent.Admission.{AdmissionSnapshot}

pub record SubagentRecord : Type 0 where
  pub child_id : String
  pub generation : ℕ
  pub parent_id : Option String
  pub mode : Mode
  pub configuration : Configuration
  pub state : State
  pub archived_from : Option State
  pub queue : List QueuedMessage
  pub events : List Event
  pub operations : List OperationReceipt
  pub next_event_sequence : ℕ
  pub notification_cursor : ℕ
  pub events_evicted_through : ℕ
  pub queue_evicted : Bool
  pub legacy_replay_closed : Bool
  pub model_replay_floor : ℕ
  pub human_replay_floor : ℕ
  pub model_epoch_high : ℕ
  pub human_epoch_high : ℕ
  pub created_at_ms : ℤ
  pub updated_at_ms : ℤ
  pub admission : Option AdmissionSnapshot

-- `impl Default for SubagentRecord`
abbrev pub default_record : SubagentRecord
default_record = record {
  child_id = "";
  generation = 0;
  parent_id = none;
  mode = one_off;
  configuration = record {
    name = "";
    model = none;
    effort = none;
    permission_mode = "yolo";
    notifications = default_policy;
  };
  state = State.idle;
  archived_from = none;
  queue = [];
  events = [];
  operations = [];
  next_event_sequence = 1;
  notification_cursor = 0;
  events_evicted_through = 0;
  queue_evicted = false;
  legacy_replay_closed = false;
  model_replay_floor = 0;
  human_replay_floor = 0;
  model_epoch_high = 0;
  human_epoch_high = 0;
  created_at_ms = pos 0;
  updated_at_ms = pos 0;
  admission = none;
}

pub data TransitionError : Type 0 where
  invalid_lifecycle_transition generation_exhausted stale_work : TransitionError

-- `==` on work states, at the one state that the code compares with.
abbrev pub is_pending : QueueStatus → Bool
is_pending QueueStatus.pending = Bool.true
is_pending _ = false

-- A work item as every command creates it: pending, with no evidence of the user.
abbrev pub pending_work : String → String → String → ℤ → QueuedMessage
pending_work id source_id content created_at_ms = record {
  id = id;
  source_id = source_id;
  content = content;
  root_user_intent_context = "";
  root_user_messages = [];
  root_user_evidence_complete = false;
  status = QueueStatus.pending;
  cancellation_reason = none;
  created_at_ms = created_at_ms;
}
