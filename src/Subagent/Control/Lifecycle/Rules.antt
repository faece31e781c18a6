-- ===== src/Subagent/Control/Lifecycle/Rules.antt =====
-- The lifecycle rules as a relation, which the code decides, and what a restart does.
use fx_rust.Prelude.{
  ◌≡◌, ◌≢◌, ◌↔◌, ◌⊎◌, Bool, true, false, Option, refl, ok, arith, unwrap_or, inl, inr,
}
use fx_rust.Subagent.Domain.Types.{
  Mode, one_off, persistent, State, LifecycleAction, cancel, resume, close, reopen, is_settled,
}
use fx_rust.Subagent.Control.Lifecycle.{next_lifecycle_state, state_after_restart, reopened_state}

-- States that hold work which a cancellation can stop.
pub data IsStoppable : State → Type 0 where
  queued : IsStoppable State.queued
  running : IsStoppable State.running
  awaiting : IsStoppable State.awaiting_approval
  interrupted : IsStoppable State.interrupted

-- States that a reopened record goes back to.
pub data IsFinal : State → Type 0 where
  completed : IsFinal State.completed
  failed : IsFinal State.failed
  cancelled : IsFinal State.cancelled

-- The moves of a record of the given mode, with or without pending work, that was archived from
-- the given state: cancelling ends a one-off child and frees a persistent one; only interrupted or
-- queued work resumes; everything but an archived record closes; only an archived one reopens,
-- to its work if it has some, to the final state it had, or else to idle.
pub data Moves (mode : Mode) (pending : Bool) (from : Option State)
    : State → LifecycleAction → State → Type 0 where
  end :
      {s : State}
      → IsStoppable s
      → mode ≡ one_off
      → Moves mode pending from s cancel State.cancelled
  free :
      {s : State} → IsStoppable s → mode ≡ persistent → Moves mode pending from s cancel State.idle
  requeue : pending ≡ true → Moves mode pending from State.interrupted resume State.queued
  rest : pending ≡ false → Moves mode pending from State.interrupted resume State.idle
  stay_queued : pending ≡ true → Moves mode pending from State.queued resume State.queued
  archive : {s : State} → s ≢ State.archived → Moves mode pending from s close State.archived
  reopen_work : pending ≡ true → Moves mode pending from State.archived reopen State.queued
  reopen_final :
      {s : State}
      → pending ≡ false
      → unwrap_or from State.idle ≡ s
      → IsFinal s
      → Moves mode pending from State.archived reopen s
  reopen_idle :
      pending ≡ false
      → ¬ IsFinal (unwrap_or from State.idle)
      → Moves mode pending from State.archived reopen State.idle

pub reopened_cases :
    (s : State)
    → (IsFinal s × (reopened_state s ≡ s)) ⊎ ((¬ IsFinal s) × (reopened_state s ≡ State.idle))
reopened_cases State.completed = inl (completed, refl)
reopened_cases State.failed = inl (failed, refl)
reopened_cases State.cancelled = inl (cancelled, refl)
reopened_cases State.idle = inr (λ f. elim f [ ], refl)
reopened_cases State.queued = inr (λ f. elim f [ ], refl)
reopened_cases State.running = inr (λ f. elim f [ ], refl)
reopened_cases State.awaiting_approval = inr (λ f. elim f [ ], refl)
reopened_cases State.interrupted = inr (λ f. elim f [ ], refl)
reopened_cases State.archived = inr (λ f. elim f [ ], refl)

pub archives :
    (mode : Mode) (pending : Bool) (from : Option State) (s : State)
    → s ≢ State.archived
    → next_lifecycle_state mode s close pending from ≡ ok State.archived
unfolding next_lifecycle_state
archives mode pending from State.archived n = absurd (n refl)
archives mode pending from _ n = refl

pub Moves-next :
    (mode : Mode) (pending : Bool) (from : Option State) {s t : State} {a : LifecycleAction}
    → Moves mode pending from s a t
    → next_lifecycle_state mode s a pending from ≡ ok t
unfolding next_lifecycle_state
Moves-next mode pending from (end queued e) = ground arith
Moves-next mode pending from (end running e) = ground arith
Moves-next mode pending from (end awaiting e) = ground arith
Moves-next mode pending from (end interrupted e) = ground arith
Moves-next mode pending from (free queued e) = ground arith
Moves-next mode pending from (free running e) = ground arith
Moves-next mode pending from (free awaiting e) = ground arith
Moves-next mode pending from (free interrupted e) = ground arith
Moves-next mode pending from (requeue e) = ground arith
Moves-next mode pending from (rest e) = ground arith
Moves-next mode pending from (stay_queued e) = ground arith
Moves-next mode pending from (archive {s} n) = archives mode pending from s n
Moves-next mode pending from (reopen_work e) = ground arith
Moves-next mode pending from (reopen_final {s} e f i) = ground (arith, reopened_cases s)
Moves-next mode pending from (reopen_idle e n) =
    ground (arith, reopened_cases (unwrap_or from State.idle))

pub next-Moves :
    (mode : Mode) (pending : Bool) (from : Option State) (s t : State) (a : LifecycleAction)
    → next_lifecycle_state mode s a pending from ≡ ok t
    → Moves mode pending from s a t
unfolding next_lifecycle_state
next-Moves mode pending from s t cancel h =
    grind (arith, end, free, queued, running, awaiting, interrupted)
next-Moves mode pending from s t resume h = grind (arith, requeue, rest, stay_queued)
next-Moves mode pending from s t close h = grind (arith, archive)
next-Moves mode pending from State.archived t reopen h =
    let cases = reopened_cases (unwrap_or from State.idle) in
    grind (arith, reopen_work, reopen_final, reopen_idle)
next-Moves mode pending from s t reopen h = cc

-- The code makes exactly the moves of the lifecycle rules, whatever the mode, the pending work and
-- the state that was archived.
pub next_lifecycle_state_iff :
    (mode : Mode) (pending : Bool) (from : Option State) (s t : State) (a : LifecycleAction)
    → (next_lifecycle_state mode s a pending from ≡ ok t) ↔ Moves mode pending from s a t
next_lifecycle_state_iff mode pending from s t a =
    (next-Moves mode pending from s t a, Moves-next mode pending from)

-- After a restart a record is settled, and its state is as it was exactly if it was settled.
pub state_after_restart_settled :
    (s : State)
    → (is_settled (state_after_restart s) ≡ true)
      × ((is_settled s ≡ true) ↔ (state_after_restart s ≡ s))
unfolding state_after_restart
state_after_restart_settled s = ground arith
