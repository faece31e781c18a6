-- ===== src/Subagent/Control/Revision/Approval.antt =====
-- Waiting for an approval and going on after it, on a record of the subagent.
use fx_rust.Prelude.{
  ◌+◌, ◌≤◌, ◌<◌, ◌≡◌, ◌⊎◌, ℤ, List, [], ◌∷◌, ◌++◌, ok, err, arith, none, some, String, Option,
}
use fx_rust.Prelude.U64.{u64_max}
use fx_rust.Subagent.Domain.Types.{State, QueueStatus}
use fx_rust.Subagent.Control.{SubagentRecord, generation_exhausted}
use fx_rust.Subagent.Control.Revision.{
  TransitionInput, ApprovalTransition, changed, already_in_state, cancellation_won, stale_work,
  append_revision, find_work, set_status, status_of, transit, await_approval, resume_approval,
}
use fx_rust.Subagent.Control.Revision.Log.{numbered, append_revision_ok}

abbrev pub the_transition : String → QueueStatus → QueueStatus → List TransitionInput
the_transition id previous current =
    record { work_item_id = id; previous = some previous; current = current; reason = none } ∷ []

-- The record after one successful transition of a work item.
abbrev pub transited :
    SubagentRecord → String → QueueStatus → QueueStatus → State → ℤ → SubagentRecord
transited r id previous current state timestamp_ms = record r {
  queue = set_status r.queue id current;
  state = state;
  events =
      r.events
      ++ numbered r.next_event_sequence (r.generation + 1) (the_transition id previous current)
          timestamp_ms;
  next_event_sequence = r.next_event_sequence + 1;
  generation = r.generation + 1;
  updated_at_ms = timestamp_ms;
}

pub transit_ok :
    (r : SubagentRecord) (id : String) (previous current : QueueStatus) (state : State)
    (timestamp_ms : ℤ)
    → r.generation < u64_max
    → r.next_event_sequence < u64_max
    → transit r id previous current state timestamp_ms
      ≡ (transited r id previous current state timestamp_ms, ok changed)
unfolding transit
transit_ok r id previous current state timestamp_ms g h = rw (
    append_revision_ok (record r { queue = set_status r.queue id current; state = state })
      (the_transition id previous current) timestamp_ms (λ e. cc) g (omega arith))

-- With no generation left the transition fails, with the item and the record already changed.
pub transit_exhausted :
    (r : SubagentRecord) (id : String) (previous current : QueueStatus) (state : State)
    (timestamp_ms : ℤ)
    → u64_max ≤ r.generation
    → transit r id previous current state timestamp_ms ≡ (
      record r { queue = set_status r.queue id current; state = state },
      err generation_exhausted,
    )
unfolding transit append_revision
transit_exhausted r id previous current state timestamp_ms g = ground arith

-- Either call leaves the record or makes its one transition.
pub await_approval_cases :
    (r : SubagentRecord) (id : String) (timestamp_ms : ℤ)
    → ((await_approval r id timestamp_ms).0 ≡ r)
      ⊎ ((await_approval r id timestamp_ms).0
          ≡ (transit r id QueueStatus.running QueueStatus.awaiting_approval State.awaiting_approval
              timestamp_ms).0)
unfolding await_approval
await_approval_cases r id timestamp_ms = ground arith

pub resume_approval_cases :
    (r : SubagentRecord) (id : String) (timestamp_ms : ℤ)
    → ((resume_approval r id timestamp_ms).0 ≡ r)
      ⊎ ((resume_approval r id timestamp_ms).0
          ≡ (transit r id QueueStatus.awaiting_approval QueueStatus.running State.running
              timestamp_ms).0)
unfolding resume_approval
resume_approval_cases r id timestamp_ms = ground arith

-- An item that runs is made to wait, with room for one more generation and sequence: the item and
-- the record await approval, and the one transition is logged under the next sequence and the next
-- generation.
pub await_approval_running :
    (r : SubagentRecord) (id : String) (timestamp_ms : ℤ)
    → status_of (find_work r.queue id) ≡ some QueueStatus.running
    → r.generation < u64_max
    → r.next_event_sequence < u64_max
    → await_approval r id timestamp_ms ≡ (
      transited r id QueueStatus.running QueueStatus.awaiting_approval State.awaiting_approval
          timestamp_ms,
      ok changed,
    )
unfolding await_approval
await_approval_running r id timestamp_ms w g h = rw w (
    transit_ok r id QueueStatus.running QueueStatus.awaiting_approval State.awaiting_approval
      timestamp_ms g h)

-- An item that awaits approval runs again, with room for one more generation and sequence: the item
-- and the record run, and the one transition is logged under the next sequence and the next
-- generation.
pub resume_approval_awaiting :
    (r : SubagentRecord) (id : String) (timestamp_ms : ℤ)
    → status_of (find_work r.queue id) ≡ some QueueStatus.awaiting_approval
    → r.generation < u64_max
    → r.next_event_sequence < u64_max
    → resume_approval r id timestamp_ms ≡ (
      transited r id QueueStatus.awaiting_approval QueueStatus.running State.running timestamp_ms,
      ok changed,
    )
unfolding resume_approval
resume_approval_awaiting r id timestamp_ms w g h = rw w (
    transit_ok r id QueueStatus.awaiting_approval QueueStatus.running State.running timestamp_ms g
      h)

-- The outcomes that leave a record as it is, by the state of the work item.
abbrev pub await_refusal : Option QueueStatus → Option ApprovalTransition
await_refusal (some QueueStatus.running) = none
await_refusal (some QueueStatus.awaiting_approval) = some already_in_state
await_refusal (some QueueStatus.cancelled) = some cancellation_won
await_refusal _ = some stale_work

abbrev pub resume_refusal : Option QueueStatus → Option ApprovalTransition
resume_refusal (some QueueStatus.awaiting_approval) = none
resume_refusal (some QueueStatus.running) = some already_in_state
resume_refusal (some QueueStatus.cancelled) = some cancellation_won
resume_refusal _ = some stale_work

-- Waiting is idempotent and lets a cancellation win: an item that awaits approval already, is
-- cancelled, is in any other state but running or is unknown leaves the record as it is, with the
-- outcome that says so.
pub await_refused :
    (r : SubagentRecord) (id : String) (timestamp_ms : ℤ) (o : ApprovalTransition)
    → await_refusal (status_of (find_work r.queue id)) ≡ some o
    → await_approval r id timestamp_ms ≡ (r, ok o)
unfolding await_approval
await_refused r id timestamp_ms o h = ground arith

-- Resuming is idempotent and lets a cancellation win: an item that runs already, is cancelled, is
-- in any other state but awaiting approval or is unknown leaves the record as it is, with the
-- outcome that says so.
pub resume_refused :
    (r : SubagentRecord) (id : String) (timestamp_ms : ℤ) (o : ApprovalTransition)
    → resume_refusal (status_of (find_work r.queue id)) ≡ some o
    → resume_approval r id timestamp_ms ≡ (r, ok o)
unfolding resume_approval
resume_refused r id timestamp_ms o h = ground arith
