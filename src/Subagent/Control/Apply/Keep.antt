-- ===== src/Subagent/Control/Apply/Keep.antt =====
-- Every operation on a record keeps its order.
use mathlib.Core.List.{concat-ne-nil}
use fx_rust.Prelude.{
  ℕ, suc, ◌<◌, ◌≡◌, refl, ℤ, List, [], ◌∷◌, ok, err, arith, none, some, String, Option, string_eq,
  true, not, is_zero, is_empty, len, Result, ◌||◌, Bool-cases, inl, inr,
}
use native.Mathlib.Decide.{dec_lt}
use native.Mathlib.Numerals.{add-one}
use fx_rust.Subagent.Control.Revision.Approval.{
  transit_ok, transit_exhausted, await_approval_cases, resume_approval_cases,
}
use fx_rust.Prelude.U64.{u64_max, wrapping_suc}
use fx_rust.Subagent.Domain.Types.{
  State, QueueStatus, EventKind, Event, Command, MessageCommand, LifecycleCommand, CreateCommand,
}
use fx_rust.Subagent.Control.{SubagentRecord, TransitionError}
use fx_rust.Subagent.Control.Revision.{set_status, transit, await_approval, resume_approval}
use fx_rust.Subagent.Control.Apply.{
  apply_command, apply_create, apply_configure, apply_relationship, apply_lifecycle, apply_message,
  push_event, push_prompt, move_to, archive_note, lifecycle_outcome, CommandError, LifecycleOutcome,
}
use fx_rust.Subagent.Control.Apply.Order.{
  IsOrdered, Queued, sent, prompted, Rising-append_one, Queued-mono, Queued-append_one,
  Queued-set_status,
}

wrapping_suc_below : (n : ℕ) → n < u64_max → wrapping_suc n ≡ suc n
wrapping_suc_below n h = omega arith

-- One more event under the next sequence, with no change of the queue.
push_event-IsOrdered :
    (r : SubagentRecord) (revision : ℕ) (id : String) (t : ℤ) (kind : EventKind)
    → r.next_event_sequence < u64_max
    → IsOrdered r
    → IsOrdered (push_event r revision id t kind)
push_event-IsOrdered r revision id t kind b h = record {
  log =
      rw (wrapping_suc_below r.next_event_sequence b) (Rising-append_one _ _ r.events _ h.log refl);
  queue = rw (wrapping_suc_below r.next_event_sequence b) (Queued-mono h.queue);
  unborn = λ e. absurd (concat-ne-nil _ r.events e);
}

transit-IsOrdered :
    (r : SubagentRecord) (id : String) (previous current : QueueStatus) (state : State) (t : ℤ)
    → r.next_event_sequence < u64_max
    → IsOrdered r
    → IsOrdered (transit r id previous current state t).0
transit-IsOrdered r id previous current state t b h = elim (dec_lt r.generation u64_max) [
  | yes room ↦ rw (transit_ok r id previous current state t room b) (record {
    log = rw (add-one r.next_event_sequence) (Rising-append_one _ _ r.events _ h.log refl);
    queue = rw (add-one r.next_event_sequence) (Queued-mono (Queued-set_status id current h.queue));
    unborn = λ e. absurd (concat-ne-nil _ r.events e);
  })
  | no full ↦ rw (transit_exhausted r id previous current state t (omega arith)) (record {
    log = h.log;
    queue = Queued-set_status id current h.queue;
    unborn = λ e. rw (h.unborn e) (unfold set_status in refl);
  })
]

pub await_approval-IsOrdered :
    (r : SubagentRecord) (id : String) (t : ℤ)
    → r.next_event_sequence < u64_max
    → IsOrdered r
    → IsOrdered (await_approval r id t).0
await_approval-IsOrdered r id t b h = elim (await_approval_cases r id t) [
  | inl same ↦ rw same h
  | inr moved ↦ rw moved (transit-IsOrdered r id _ _ _ t b h)
]

pub resume_approval-IsOrdered :
    (r : SubagentRecord) (id : String) (t : ℤ)
    → r.next_event_sequence < u64_max
    → IsOrdered r
    → IsOrdered (resume_approval r id t).0
resume_approval-IsOrdered r id t b h = elim (resume_approval_cases r id t) [
  | inl same ↦ rw same h
  | inr moved ↦ rw moved (transit-IsOrdered r id _ _ _ t b h)
]

push_prompt-Queued :
    (r : SubagentRecord) (prompt : Option String) (t : ℤ) (hi : ℕ)
    → r.queue ≡ []
    → Queued hi (push_prompt r prompt t).queue
push_prompt-Queued r none t hi e = rw e (sent (omega arith))
push_prompt-Queued r (some prompt) t hi e = rw e (prompted (len prompt) refl (omega arith))

nil_of_is_empty : (es : List Event) → is_empty es ≡ true → es ≡ []
nil_of_is_empty [] h = refl
nil_of_is_empty (e ∷ es) h = cc

pub events-push_prompt :
    (r : SubagentRecord) (prompt : Option String) (t : ℤ)
    → ((push_prompt r prompt t).events ≡ r.events)
      × ((push_prompt r prompt t).next_event_sequence ≡ r.next_event_sequence)
events-push_prompt r none t = (refl, refl)
events-push_prompt r (some prompt) t = (refl, refl)

apply_create-IsOrdered :
    (r : SubagentRecord) (cmd : CreateCommand) (t : ℤ)
    → r.next_event_sequence < u64_max
    → IsOrdered r
    → IsOrdered (apply_create r cmd t).0
unfolding apply_create
apply_create-IsOrdered r cmd t b h =
    elim (Bool-cases (not (is_zero r.created_at_ms) || not (is_empty r.events))) [
      | inl exists ↦ rw exists h
      | inr fresh ↦
          let configured : SubagentRecord = record r {
            configuration = cmd.configuration;
            mode = cmd.mode;
          } in
          let kept = events-push_prompt configured cmd.prompt t in
          let empty = h.unborn (nil_of_is_empty r.events (ground arith)) in
          rw fresh (record {
            log =
                rw (kept.0, kept.1, wrapping_suc_below r.next_event_sequence b)
                  (Rising-append_one _ _ r.events _ h.log refl);
            queue =
                rw (kept.1, wrapping_suc_below r.next_event_sequence b)
                  (push_prompt-Queued configured cmd.prompt t _ empty);
            unborn = λ e. absurd (concat-ne-nil _ _ e);
          })
    ]

move_to-IsOrdered :
    (r : SubagentRecord) (cmd : LifecycleCommand) (clock : ℕ → ℤ)
    (next : Result TransitionError State)
    → r.next_event_sequence < u64_max
    → IsOrdered r
    → IsOrdered (move_to r cmd clock next).0
unfolding move_to
move_to-IsOrdered r cmd clock (err e) b h = h
move_to-IsOrdered r cmd clock (ok next) b h =
    push_event-IsOrdered
      (record r {
        archived_from = archive_note next r.state r.archived_from;
        state = next;
        updated_at_ms = clock 0;
      })
      _ _ _ _ b (record { log = h.log; queue = h.queue; unborn = h.unborn })

apply_lifecycle-IsOrdered :
    (r : SubagentRecord) (cmd : LifecycleCommand) (clock : ℕ → ℤ)
    → r.next_event_sequence < u64_max
    → IsOrdered r
    → IsOrdered (apply_lifecycle r cmd clock).0
unfolding apply_lifecycle
apply_lifecycle-IsOrdered r cmd clock b h = move_to-IsOrdered r cmd clock _ b h

apply_message-IsOrdered :
    (r : SubagentRecord) (msg : MessageCommand) (clock : ℕ → ℤ)
    → r.next_event_sequence < u64_max
    → IsOrdered r
    → IsOrdered (apply_message r msg clock).0
unfolding apply_message
apply_message-IsOrdered r (MessageCommand.send id content) clock b h = record {
  log =
      rw (wrapping_suc_below r.next_event_sequence b) (Rising-append_one _ _ r.events _ h.log refl);
  queue = rw (wrapping_suc_below r.next_event_sequence b) (Queued-append_one _ h.queue refl);
  unborn = λ e. absurd (concat-ne-nil _ r.events e);
}
apply_message-IsOrdered r (MessageCommand.milestone name) clock b h =
    push_event-IsOrdered r _ _ _ _ b h

pub lifecycle_outcome_record :
    (o : SubagentRecord × Result CommandError LifecycleOutcome) → (lifecycle_outcome o).0 ≡ o.0
lifecycle_outcome_record (r, ok outcome) = refl
lifecycle_outcome_record (r, err e) = refl

pub apply_command-IsOrdered :
    (r : SubagentRecord) (c : Command) (t : ℤ) (clock : ℕ → ℤ)
    → r.next_event_sequence < u64_max
    → IsOrdered r
    → IsOrdered (apply_command r c t clock).0
unfolding apply_command apply_configure apply_relationship
apply_command-IsOrdered r (Command.create cmd) t clock b h = apply_create-IsOrdered r cmd t b h
apply_command-IsOrdered r (Command.inspect cmd) t clock b h = h
apply_command-IsOrdered r (Command.message msg) t clock b h =
    apply_message-IsOrdered r msg clock b h
apply_command-IsOrdered r (Command.relationship cmd) t clock b h = record {
  log = h.log;
  queue = h.queue;
  unborn = h.unborn;
}
apply_command-IsOrdered r (Command.configure cmd) t clock b h = record {
  log = h.log;
  queue = h.queue;
  unborn = h.unborn;
}
apply_command-IsOrdered r (Command.lifecycle cmd) t clock b h =
    rw (lifecycle_outcome_record (apply_lifecycle r cmd clock))
      (apply_lifecycle-IsOrdered r cmd clock b h)
