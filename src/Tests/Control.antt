-- ===== src/Tests/Control.antt =====
-- Concrete commands on a control record of src/subagent_control.rs.
use fx_rust.Prelude.{
  ℕ, ℤ, ◌+◌, ◌≡◌, ◌↔◌, refl, none, some, [], ◌∷◌, ◌++◌, ok, arith, pos, List, length, map, Distinct,
  true, false, string_eq, String,
}
use fx_rust.Subagent.Domain.Types.{
  State, one_off, persistent, Command, CreateCommand, MessageCommand, QueueStatus, cancel, close,
}
use fx_rust.Subagent.Control.{SubagentRecord, default_record}
use fx_rust.Subagent.Control.Revision.{TransitionInput}
use fx_rust.Subagent.Control.Lifecycle.{next_lifecycle_state, reopened_state}
use fx_rust.Subagent.Control.Lifecycle.Rules.{next_lifecycle_state_iff, Moves, archive}
use fx_rust.Subagent.Control.Apply.{apply_lifecycle, apply_create, CommandOutcome, has_pending}
use fx_rust.Subagent.Control.Apply.Order.{Rising}
use fx_rust.Subagent.Control.Apply.Archive.{MayMove, closing, reopening, close_reopen}
use fx_rust.Subagent.Control.Apply.History.{
  Call, commands, awaits, resumes, revises, starts, finishes, run, new_record, run_ordered,
}

next_lifecycle_state_iff_example :
    (next_lifecycle_state persistent State.running cancel true none ≡ ok State.idle)
    ↔ Moves persistent true none State.running cancel State.idle
next_lifecycle_state_iff_example =
    next_lifecycle_state_iff persistent true none State.running State.idle cancel

abbrev clock : ℕ → ℤ
clock n = pos n

abbrev closed_child : SubagentRecord
closed_child = record default_record {
  child_id = "child-1";
  state = State.archived;
  archived_from = some State.completed;
}

no_second_close : (t : State) → ¬ MayMove closed_child close t
no_second_close t (archive n) = n refl

abbrev completed_child : SubagentRecord
completed_child = record default_record { child_id = "child-1"; state = State.completed }

nothing_pending : has_pending completed_child.queue ≡ false
nothing_pending = refl

close_reopen_example :
    let closed = apply_lifecycle completed_child (closing "child-1") clock in
    let reopened = apply_lifecycle closed.0 (reopening "child-1") clock in
    (closed.1 ≡ ok (record { previous = State.completed; current = State.archived }))
    × (reopened.1
        ≡ ok (record { previous = State.archived; current = reopened_state State.completed }))
    × (reopened.0.state ≡ reopened_state State.completed)
    × (reopened.0.queue ≡ completed_child.queue)
    × (length reopened.0.events ≡ length completed_child.events + 2)
close_reopen_example =
    close_reopen completed_child "child-1" clock clock (λ h. absurd cc) nothing_pending

abbrev creation : CreateCommand
creation = record {
  configuration = record default_record.configuration { name = "reviewer" };
  mode = one_off;
  prompt = some "review the change";
  permission_mode_explicit = false;
}

abbrev child : SubagentRecord
child = new_record "child-1"

creates : (apply_create child creation (pos 1)).1 ≡ ok CommandOutcome.created
unfolding apply_create
creates = refl

abbrev prompt_id : String
prompt_id = "w-17"

abbrev retried : TransitionInput
retried = record {
  work_item_id = prompt_id;
  previous = some QueueStatus.completed;
  current = QueueStatus.pending;
  reason = some "again";
}

abbrev work_calls : List Call
work_calls =
    commands (Command.create creation) (pos 1) clock
    ∷ commands (Command.message (MessageCommand.send "child-1" "go on")) (pos 2) clock
    ∷ starts (pos 3)
    ∷ awaits prompt_id (pos 4)
    ∷ resumes prompt_id (pos 5)
    ∷ finishes true (pos 6)
    ∷ revises (retried ∷ retried ∷ []) (pos 7)
    ∷ []

abbrev calls : List Call
calls =
    work_calls
    ++ commands (Command.lifecycle (record { id = "child-1"; action = cancel })) (pos 8) clock ∷ []

-- The prompt runs, waits, goes on and is done: each of these calls changes the record.
prompt_done :
    let r = run (new_record "child-1") work_calls in
    (map (λ w. w.status) r.queue ≡ QueueStatus.completed ∷ QueueStatus.pending ∷ [])
    × (r.generation ≡ 4)
unfolding run fx_rust.Subagent.Control.Apply.History.step
    fx_rust.Subagent.Control.Apply.apply_command apply_create
    fx_rust.Subagent.Control.Apply.apply_message fx_rust.Subagent.Control.Revision.append_revision
    fx_rust.Subagent.Control.Revision.append_all
    fx_rust.Subagent.Control.Revision.append_at_revision
    fx_rust.Subagent.Control.Revision.await_approval
    fx_rust.Subagent.Control.Revision.resume_approval fx_rust.Subagent.Control.Revision.transit
    fx_rust.Subagent.Control.Revision.set_status fx_rust.Subagent.Control.Revision.find_work
    fx_rust.Subagent.Control.Work.start_work fx_rust.Subagent.Control.Work.find_pending_item
    fx_rust.Subagent.Control.Work.finish_control fx_rust.Prelude.U64.to_string
prompt_done = (refl, refl)

run_ordered_example :
    let r = run (new_record "child-1") calls in
    Rising 0 r.events r.next_event_sequence × Distinct (map (λ w. w.id) r.queue)
run_ordered_example = run_ordered "child-1" calls (omega arith)
