-- ===== src/Subagent/Control/Lifecycle.antt =====
-- src/subagent_control.rs: `next_lifecycle_state`, `state_after_restart`, and the transition rules
-- as a relation.
pub mod Rules
use fx_rust.Prelude.{
  ◌≡◌, refl, ◌≢◌, ◌↔◌, ◌⊎◌, Bool, true, false, Option, none, some, Result, ok, err, if◌then◌else◌,
  is_some, arith, unwrap_or,
}
use fx_rust.Subagent.Domain.Types.{
  Mode, one_off, persistent, State, LifecycleAction, cancel, resume, close, reopen, is_settled,
}
use fx_rust.Subagent.Control.{TransitionError, invalid_lifecycle_transition}

-- The arm of a cancellation that is allowed.
abbrev cancelled_state : Mode → State
cancelled_state persistent = State.idle
cancelled_state one_off = State.cancelled

-- The state that a record without pending work goes back to.
abbrev pub reopened_state : State → State
reopened_state State.completed = State.completed
reopened_state State.failed = State.failed
reopened_state State.cancelled = State.cancelled
reopened_state _ = State.idle

unfoldable pub next_lifecycle_state :
    Mode → State → LifecycleAction → Bool → Option State → Result TransitionError State
next_lifecycle_state mode State.queued cancel pending from = ok (cancelled_state mode)
next_lifecycle_state mode State.running cancel pending from = ok (cancelled_state mode)
next_lifecycle_state mode State.awaiting_approval cancel pending from = ok (cancelled_state mode)
next_lifecycle_state mode State.interrupted cancel pending from = ok (cancelled_state mode)
next_lifecycle_state mode State.interrupted resume pending from =
    ok (if pending then State.queued else State.idle)
next_lifecycle_state mode State.queued resume true from = ok State.queued
next_lifecycle_state mode State.archived close pending from = err invalid_lifecycle_transition
next_lifecycle_state mode current close pending from = ok State.archived
next_lifecycle_state mode State.archived reopen pending from =
    ok (if pending then State.queued else reopened_state (unwrap_or from State.idle))
next_lifecycle_state mode current action pending from = err invalid_lifecycle_transition

-- Live work is never resumed by a restart.
unfoldable pub state_after_restart : State → State
state_after_restart State.queued = State.interrupted
state_after_restart State.running = State.interrupted
state_after_restart State.awaiting_approval = State.interrupted
state_after_restart other = other
