-- ===== src/Tests/Revisions.antt =====
-- Concrete batches of transitions and approvals of src/subagent_control.rs.
use fx_rust.Prelude.{◌≡◌, refl, none, some, [], ◌∷◌, pos, List}
use fx_rust.Prelude.U64.{u64_max}
use fx_rust.Subagent.Domain.Types.{State, QueueStatus}
use fx_rust.Subagent.Control.{SubagentRecord, default_record, pending_work}
use fx_rust.Subagent.Control.Revision.{TransitionInput, status_of, find_work}

abbrev two_transitions : List TransitionInput
two_transitions =
    record {
      work_item_id = "w1";
      previous = some QueueStatus.pending;
      current = QueueStatus.running;
      reason = none;
    }
    ∷ record {
      work_item_id = "w2";
      previous = none;
      current = QueueStatus.cancelled;
      reason = some "stopped";
    }
    ∷ []

-- A record with no generation left.
abbrev last_generation : SubagentRecord
last_generation = record default_record { generation = u64_max }

abbrev with_work : QueueStatus → SubagentRecord
with_work status = record default_record {
  state = State.running;
  queue =
      pending_work "w0" "s" "first" (pos 1)
      ∷ record (pending_work "w1" "s" "next" (pos 2)) { status = status }
      ∷ [];
}

awaiting_work :
    status_of (find_work (with_work QueueStatus.awaiting_approval).queue "w1")
    ≡ some QueueStatus.awaiting_approval
unfolding find_work
awaiting_work = refl

cancelled_work :
    status_of (find_work (with_work QueueStatus.cancelled).queue "w1") ≡ some QueueStatus.cancelled
unfolding find_work
cancelled_work = refl
