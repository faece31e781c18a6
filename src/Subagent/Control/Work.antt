-- ===== src/Subagent/Control/Work.antt =====
-- How a work item is run: src/subagent_executor.rs and src/tools/subagent.rs, around the nested run
-- of the agent. Each starts an item, and later ends it with what the run came to.
pub mod Ordered
use fx_rust.Prelude.{
  ℤ, String, Option, none, some, List, [], ◌∷◌, Bool, true, false, Check, ok, err, find,
  if◌then◌else◌,
}
use fx_rust.Subagent.Domain.Types.{State, QueuedMessage, QueueStatus}
use fx_rust.Subagent.Control.{SubagentRecord, TransitionError}
use fx_rust.Subagent.Control.Revision.{TransitionInput, set_status, append_revision, and_then}

abbrev is_waiting : QueueStatus → Bool
is_waiting QueueStatus.pending = true
is_waiting _ = false

unfoldable pub find_pending_item : SubagentRecord → Option QueuedMessage
find_pending_item r = find (λ w. is_waiting w.status) r.queue

-- The part of `run_work_item` before the nested run. A record without a pending item is not saved.
abbrev pub started : SubagentRecord → ℤ → Option QueuedMessage → SubagentRecord
started r t0 none = r
started r t0 (some work) = record r {
  queue = set_status r.queue work.id QueueStatus.running;
  state = State.running;
  updated_at_ms = t0;
}

unfoldable pub start_work : SubagentRecord → ℤ → SubagentRecord
start_work r t0 = started r t0 (find_pending_item r)

abbrev pub one_transition : QueuedMessage → QueueStatus → TransitionInput
one_transition work current = record {
  work_item_id = work.id;
  previous = some work.status;
  current = current;
  reason = none;
}

-- The transition is logged first, and its error leaves the item and the state.
unfoldable pub transition_work :
    SubagentRecord → QueuedMessage → QueueStatus → Bool → ℤ → SubagentRecord × Check TransitionError
transition_work r work current succeeded now =
    and_then (append_revision r (one_transition work current ∷ []) now) λ r'. (
      record r' {
        state = if succeeded then State.completed else State.failed;
        queue = set_status r'.queue work.id current;
        updated_at_ms = now;
      },
      ok tt,
    )

-- The part of the tool `subagent` before the nested run: the first item of the queue, if any.
abbrev pub started_first : SubagentRecord → ℤ → List QueuedMessage → SubagentRecord
started_first r t0 [] = r
started_first r t0 (work ∷ later) = record r {
  queue = record work { status = QueueStatus.running } ∷ later;
  state = State.running;
  updated_at_ms = t0;
}

unfoldable pub start_first : SubagentRecord → ℤ → SubagentRecord
start_first r t0 = started_first r t0 r.queue

-- `if let Some(work) = … { work.status = target }`, and the event of the transition.
abbrev pub finished_first :
    SubagentRecord → QueueStatus → ℤ → List QueuedMessage → SubagentRecord × Check TransitionError
finished_first r target now [] = (r, ok tt)
finished_first r target now (work ∷ later) =
    append_revision (record r { queue = record work { status = target } ∷ later })
      (one_transition work target ∷ []) now

unfoldable pub finish_control : SubagentRecord → Bool → ℤ → SubagentRecord × Check TransitionError
finish_control r succeeded now =
    let target = if succeeded then QueueStatus.completed else QueueStatus.failed in
    and_then (finished_first r target now r.queue) λ r'. (
      record r' {
        state = if succeeded then State.completed else State.failed;
        updated_at_ms = now;
      },
      ok tt,
    )
