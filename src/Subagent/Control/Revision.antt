-- ===== src/Subagent/Control/Revision.antt =====
-- src/subagent_control.rs: the work events, `append_revision`, `await_approval`, `resume_approval`.
pub mod Log
pub mod Approval
use fx_rust.Prelude.{
  ℕ, ◌+◌, ℤ, String, Option, none, some, List, [], ◌∷◌, ◌++◌, Bool, true, false, Result, Check, ok,
  err, find, update_first, str_eq, if◌then◌else◌,
}
use fx_rust.Prelude.U64.{checked_suc}
use fx_rust.Subagent.Domain.Types.{State, QueuedMessage, QueueStatus, Event, work_transition}
use fx_rust.Subagent.Control.{SubagentRecord, TransitionError, generation_exhausted}

pub record TransitionInput : Type 0 where
  pub work_item_id : String
  pub previous : Option QueueStatus
  pub current : QueueStatus
  pub reason : Option String

abbrev pub has_id : String → QueuedMessage → Bool
has_id work_id w = str_eq w.id work_id

unfoldable pub find_work : List QueuedMessage → String → Option QueuedMessage
find_work queue work_id = find (has_id work_id) queue

-- A write of the status through the reference that `find_work` returns.
unfoldable pub set_status : List QueuedMessage → String → QueueStatus → List QueuedMessage
set_status queue work_id status =
    update_first (has_id work_id) (λ w. record w { status = status }) queue

abbrev pub transition_event : ℕ → ℕ → TransitionInput → ℤ → Event
transition_event sequence revision t timestamp_ms = record {
  sequence = sequence;
  revision = revision;
  id = t.work_item_id;
  timestamp_ms = timestamp_ms;
  kind = work_transition t.work_item_id t.previous t.current t.reason;
}

-- The event is pushed before the sequence is advanced, so it stays when that fails.
advance_sequence : SubagentRecord → Option ℕ → SubagentRecord × Check TransitionError
advance_sequence r none = (r, err generation_exhausted)
advance_sequence r (some next) = (record r { next_event_sequence = next }, ok tt)

unfoldable pub append_at_revision :
    SubagentRecord → ℕ → TransitionInput → ℤ → SubagentRecord × Check TransitionError
unfolding advance_sequence
append_at_revision r revision t timestamp_ms =
    let sequence = r.next_event_sequence in
    advance_sequence
      (record r { events = r.events ++ transition_event sequence revision t timestamp_ms ∷ [] })
      (checked_suc sequence)

-- `step(record)?; …`
abbrev pub and_then :
    SubagentRecord × Check TransitionError
    → (SubagentRecord → SubagentRecord × Check TransitionError)
    → SubagentRecord × Check TransitionError
and_then (r, ok _) f = f r
and_then (r, err e) f = (r, err e)

-- The loop over the transitions, which an error ends.
unfoldable pub append_all :
    SubagentRecord → ℕ → List TransitionInput → ℤ → SubagentRecord × Check TransitionError
append_all r revision [] timestamp_ms = (r, ok tt)
append_all r revision (t ∷ ts) timestamp_ms =
    and_then (append_at_revision r revision t timestamp_ms)
      λ r'. append_all r' revision ts timestamp_ms

revise :
    SubagentRecord → List TransitionInput → ℤ → Option ℕ → SubagentRecord × Check TransitionError
revise r transitions timestamp_ms none = (r, err generation_exhausted)
revise r transitions timestamp_ms (some revision) =
    and_then (append_all r revision transitions timestamp_ms)
      λ r'. (record r' { generation = revision; updated_at_ms = timestamp_ms }, ok tt)

unfoldable pub append_revision :
    SubagentRecord → List TransitionInput → ℤ → SubagentRecord × Check TransitionError
unfolding revise
append_revision r [] timestamp_ms = (r, ok tt)
append_revision r (t ∷ ts) timestamp_ms = revise r (t ∷ ts) timestamp_ms (checked_suc r.generation)

pub data ApprovalTransition : Type 0 where
  changed already_in_state cancellation_won stale_work : ApprovalTransition

-- `append_revision(…)?; Ok(Changed)`
abbrev after_revision :
    SubagentRecord × Check TransitionError
    → SubagentRecord × Result TransitionError ApprovalTransition
after_revision (r, ok _) = (r, ok changed)
after_revision (r, err e) = (r, err e)

-- The part of both transitions after the guards: the item and the record take the new state, and
-- one transition is logged.
unfoldable pub transit :
    SubagentRecord
    → String
    → QueueStatus
    → QueueStatus
    → State
    → ℤ
    → SubagentRecord × Result TransitionError ApprovalTransition
transit r work_id previous current state timestamp_ms = after_revision (
    append_revision (record r { queue = set_status r.queue work_id current; state = state })
      (record { work_item_id = work_id; previous = some previous; current = current; reason = none }
        ∷ [])
      timestamp_ms)

await_found :
    SubagentRecord
    → String
    → ℤ
    → Option QueueStatus
    → SubagentRecord × Result TransitionError ApprovalTransition
await_found r work_id timestamp_ms none = (r, ok stale_work)
await_found r work_id timestamp_ms (some QueueStatus.awaiting_approval) = (r, ok already_in_state)
await_found r work_id timestamp_ms (some QueueStatus.cancelled) = (r, ok cancellation_won)
await_found r work_id timestamp_ms (some QueueStatus.running) =
    transit r work_id QueueStatus.running QueueStatus.awaiting_approval State.awaiting_approval
      timestamp_ms
await_found r work_id timestamp_ms (some other) = (r, ok stale_work)

abbrev pub status_of : Option QueuedMessage → Option QueueStatus
status_of none = none
status_of (some w) = some w.status

unfoldable pub await_approval :
    SubagentRecord → String → ℤ → SubagentRecord × Result TransitionError ApprovalTransition
unfolding await_found find_work
await_approval r work_id timestamp_ms =
    await_found r work_id timestamp_ms (status_of (find_work r.queue work_id))

resume_found :
    SubagentRecord
    → String
    → ℤ
    → Option QueueStatus
    → SubagentRecord × Result TransitionError ApprovalTransition
resume_found r work_id timestamp_ms none = (r, ok stale_work)
resume_found r work_id timestamp_ms (some QueueStatus.running) = (r, ok already_in_state)
resume_found r work_id timestamp_ms (some QueueStatus.cancelled) = (r, ok cancellation_won)
resume_found r work_id timestamp_ms (some QueueStatus.awaiting_approval) =
    transit r work_id QueueStatus.awaiting_approval QueueStatus.running State.running timestamp_ms
resume_found r work_id timestamp_ms (some other) = (r, ok stale_work)

unfoldable pub resume_approval :
    SubagentRecord → String → ℤ → SubagentRecord × Result TransitionError ApprovalTransition
unfolding resume_found find_work
resume_approval r work_id timestamp_ms =
    resume_found r work_id timestamp_ms (status_of (find_work r.queue work_id))
