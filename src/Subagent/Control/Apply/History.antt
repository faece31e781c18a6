-- ===== src/Subagent/Control/Apply/History.antt =====
-- A record over its whole life: commands, waits for approvals and resumptions, in any order.
use fx_rust.Prelude.{
  ℕ, Bool, ◌+◌, ◌≤◌, ◌<◌, refl, ℤ, String, List, [], ◌∷◌, length, arith, map, Distinct, string_eq,
  inl, inr, ok, err, Result,
}
use fx_rust.Prelude.U64.{u64_max}
use native.Mathlib.Decide.{dec_lt}
use fx_rust.Subagent.Domain.Types.{
  Command, State, QueueStatus, QueuedMessage, CreateCommand, MessageCommand, LifecycleCommand,
}
use fx_rust.Subagent.Control.{SubagentRecord, TransitionError, default_record}
use fx_rust.Subagent.Control.Revision.{
  TransitionInput, append_revision, await_approval, resume_approval, transit,
}
use fx_rust.Subagent.Control.Revision.Approval.{
  transit_ok, transit_exhausted, await_approval_cases, resume_approval_cases,
}
use fx_rust.Subagent.Control.Apply.{
  apply_command, apply_create, apply_configure, apply_relationship, apply_lifecycle, apply_message,
  move_to,
}
use fx_rust.Subagent.Control.Work.{start_work, transition_work, start_first, finish_control}
use fx_rust.Subagent.Control.Work.Ordered.{
  Keeps, append_revision-Keeps, start_work-Keeps, transition_work-Keeps, start_first-Keeps,
  finish_control-Keeps,
}
use fx_rust.Subagent.Control.Apply.Order.{IsOrdered, Rising, sent}
use fx_rust.Subagent.Control.Apply.Keep.{
  apply_command-IsOrdered, await_approval-IsOrdered, resume_approval-IsOrdered,
  lifecycle_outcome_record, events-push_prompt,
}
use fx_rust.Subagent.Control.Apply.Unique.{Queued-Distinct}

-- One call on the record, with the time that it is given or reads.
pub data Call : Type 0 where
  commands : Command → ℤ → (ℕ → ℤ) → Call
  awaits : String → ℤ → Call
  resumes : String → ℤ → Call
  revises : List TransitionInput → ℤ → Call
  starts : ℤ → Call
  transitions : QueuedMessage → QueueStatus → Bool → ℤ → Call
  starts_first : ℤ → Call
  finishes : Bool → ℤ → Call

unfoldable pub step : SubagentRecord → Call → SubagentRecord
step r (commands c timestamp_ms clock) = (apply_command r c timestamp_ms clock).0
step r (awaits work_id timestamp_ms) = (await_approval r work_id timestamp_ms).0
step r (resumes work_id timestamp_ms) = (resume_approval r work_id timestamp_ms).0
step r (revises ts timestamp_ms) = (append_revision r ts timestamp_ms).0
step r (starts timestamp_ms) = start_work r timestamp_ms
step r (transitions work current succeeded timestamp_ms) =
    (transition_work r work current succeeded timestamp_ms).0
step r (starts_first timestamp_ms) = start_first r timestamp_ms
step r (finishes succeeded timestamp_ms) = (finish_control r succeeded timestamp_ms).0

-- How many sequences a call may give out: a revision one for each of its transitions, any other
-- call one.
abbrev pub sequences : Call → ℕ
sequences (revises ts _) = length ts
sequences _ = 1

abbrev pub all_sequences : List Call → ℕ
all_sequences [] = 0
all_sequences (c ∷ cs) = sequences c + all_sequences cs

unfoldable pub run : SubagentRecord → List Call → SubagentRecord
run r [] = r
run r (c ∷ cs) = run (step r c) cs

-- The record that a store makes for a new child.
abbrev pub new_record : String → SubagentRecord
new_record child_id = record default_record { child_id = child_id }

-- A call gives out one sequence at most.
abbrev Slow : SubagentRecord → SubagentRecord → Type 0
Slow r r' = r'.next_event_sequence ≤ r.next_event_sequence + 1

transit-Slow :
    (r : SubagentRecord) (id : String) (previous current : QueueStatus) (state : State) (t : ℤ)
    → r.next_event_sequence < u64_max
    → Slow r (transit r id previous current state t).0
transit-Slow r id previous current state t b = elim (dec_lt r.generation u64_max) [
  | yes room ↦ rw (transit_ok r id previous current state t room b) (omega arith)
  | no full ↦ rw (transit_exhausted r id previous current state t (omega arith)) (omega arith)
]

apply_create-Slow :
    (r : SubagentRecord) (cmd : CreateCommand) (t : ℤ)
    → r.next_event_sequence < u64_max
    → Slow r (apply_create r cmd t).0
unfolding apply_create
apply_create-Slow r cmd t b = ground (
  arith,
  events-push_prompt (record r { configuration = cmd.configuration; mode = cmd.mode }) cmd.prompt t,
)

move_to-Slow :
    (r : SubagentRecord) (cmd : LifecycleCommand) (clock : ℕ → ℤ)
    (next : Result TransitionError State)
    → r.next_event_sequence < u64_max
    → Slow r (move_to r cmd clock next).0
unfolding move_to
move_to-Slow r cmd clock (err e) b = omega arith
move_to-Slow r cmd clock (ok next) b = omega arith

apply_message-Slow :
    (r : SubagentRecord) (msg : MessageCommand) (clock : ℕ → ℤ)
    → r.next_event_sequence < u64_max
    → Slow r (apply_message r msg clock).0
unfolding apply_message
apply_message-Slow r (MessageCommand.send id content) clock b = omega arith
apply_message-Slow r (MessageCommand.milestone name) clock b = omega arith

apply_command-Slow :
    (r : SubagentRecord) (c : Command) (t : ℤ) (clock : ℕ → ℤ)
    → r.next_event_sequence < u64_max
    → Slow r (apply_command r c t clock).0
unfolding apply_command apply_configure apply_relationship apply_lifecycle
apply_command-Slow r (Command.create cmd) t clock b = apply_create-Slow r cmd t b
apply_command-Slow r (Command.inspect cmd) t clock b = omega arith
apply_command-Slow r (Command.message msg) t clock b = apply_message-Slow r msg clock b
apply_command-Slow r (Command.relationship cmd) t clock b = omega arith
apply_command-Slow r (Command.configure cmd) t clock b = omega arith
apply_command-Slow r (Command.lifecycle cmd) t clock b =
    rw (lifecycle_outcome_record (apply_lifecycle r cmd clock)) (move_to-Slow r cmd clock _ b)

await_approval-Slow :
    (r : SubagentRecord) (id : String) (t : ℤ)
    → r.next_event_sequence < u64_max
    → Slow r (await_approval r id t).0
await_approval-Slow r id t b = elim (await_approval_cases r id t) [
  | inl same ↦ rw same (omega arith)
  | inr moved ↦ rw moved (transit-Slow r id _ _ _ t b)
]

resume_approval-Slow :
    (r : SubagentRecord) (id : String) (t : ℤ)
    → r.next_event_sequence < u64_max
    → Slow r (resume_approval r id t).0
resume_approval-Slow r id t b = elim (resume_approval_cases r id t) [
  | inl same ↦ rw same (omega arith)
  | inr moved ↦ rw moved (transit-Slow r id _ _ _ t b)
]

step-Keeps :
    (r : SubagentRecord) (c : Call)
    → r.next_event_sequence + sequences c ≤ u64_max
    → IsOrdered r
    → Keeps (sequences c) r (step r c)
unfolding step
step-Keeps r (commands c t clock) b h =
    let room : r.next_event_sequence < u64_max = omega arith in
    (apply_command-IsOrdered r c t clock room h, apply_command-Slow r c t clock room)
step-Keeps r (awaits id t) b h =
    let room : r.next_event_sequence < u64_max = omega arith in
    (await_approval-IsOrdered r id t room h, await_approval-Slow r id t room)
step-Keeps r (resumes id t) b h =
    let room : r.next_event_sequence < u64_max = omega arith in
    (resume_approval-IsOrdered r id t room h, resume_approval-Slow r id t room)
step-Keeps r (revises ts t) b h = append_revision-Keeps r ts t b h
step-Keeps r (starts t) b h = start_work-Keeps r t h
step-Keeps r (transitions work s succeeded t) b h =
    transition_work-Keeps r work s succeeded t (omega arith) h
step-Keeps r (starts_first t) b h = start_first-Keeps r t h
step-Keeps r (finishes succeeded t) b h = finish_control-Keeps r succeeded t (omega arith) h

run-IsOrdered :
    (r : SubagentRecord) (cs : List Call)
    → r.next_event_sequence + all_sequences cs ≤ u64_max
    → IsOrdered r
    → IsOrdered (run r cs) × ((run r cs).next_event_sequence ≤ u64_max)
unfolding run
run-IsOrdered r [] b h = (h, omega arith)
run-IsOrdered r (c ∷ cs) b h =
    let (ordered, slow) = step-Keeps r c (omega arith) h in
    run-IsOrdered (step r c) cs (omega (arith, slow)) ordered

new_record-IsOrdered : (child_id : String) → IsOrdered (new_record child_id)
new_record-IsOrdered child_id = record {
  log = omega arith;
  queue = sent (omega arith);
  unborn = λ e. refl;
}

-- From a new record, after any calls in any order, successful or not: commands, waits for approvals
-- and resumptions, revisions of any transitions, and the starts and ends of work items by the
-- executor and by the tool; as long as they may give out fewer than 2 ^ 64 - 1 sequences, one for
-- each transition of a revision and one for any other call, the event sequences rise strictly along
-- the log and stay below the next one to be given out, and no two work items of the queue have the
-- same id.
pub run_ordered :
    (child_id : String) (cs : List Call)
    → all_sequences cs < u64_max
    → let r = run (new_record child_id) cs in
      Rising 0 r.events r.next_event_sequence × Distinct (map (λ w. w.id) r.queue)
run_ordered child_id cs b =
    let (h, fits) =
      run-IsOrdered (new_record child_id) cs (omega arith) (new_record-IsOrdered child_id) in
    (h.log, Queued-Distinct h.queue fits)
