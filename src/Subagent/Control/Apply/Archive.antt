-- ===== src/Subagent/Control/Apply/Archive.antt =====
-- Lifecycle commands on a record: refusals, a second creation, and closing and reopening.
use fx_rust.Prelude.{
  ℕ, ◌+◌, ◌≡◌, ◌≢◌, refl, ℤ, String, List, [], ◌∷◌, ◌++◌, ◌∙◌, ok, err, arith, false, some, Result,
  inl, inr, length, length-append_one, is_empty, not, is_zero, ◌||◌, Bool-cases,
}
use fx_rust.Subagent.Domain.Types.{
  State, LifecycleAction, LifecycleCommand, CreateCommand, close, reopen,
}
use fx_rust.Subagent.Control.{SubagentRecord, TransitionError}
use fx_rust.Subagent.Control.Lifecycle.{reopened_state}
use fx_rust.Subagent.Control.Lifecycle.Rules.{
  Moves, next-Moves, Moves-next, reopened_cases, archive, reopen_final, reopen_idle,
}
use fx_rust.Subagent.Control.Apply.{
  apply_create, apply_lifecycle, has_pending, CommandOutcome, already_exists, invalid_transition,
  move_to,
}

-- The moves that the rules allow a record.
abbrev pub MayMove : SubagentRecord → LifecycleAction → State → Type 0
MayMove r = Moves r.mode (has_pending r.queue) r.archived_from r.state

move_to_refused :
    (r : SubagentRecord) (cmd : LifecycleCommand) (clock : ℕ → ℤ)
    (next : Result TransitionError State)
    → ((t : State) → next ≢ ok t)
    → move_to r cmd clock next ≡ (r, err (invalid_transition cmd.action r.state))
unfolding move_to
move_to_refused r cmd clock (ok t) h = absurd (h t refl)
move_to_refused r cmd clock (err e) h = refl

-- A lifecycle command that the rules allow no move for leaves the record as it is, with an error
-- that names the action and the state.
pub apply_lifecycle_refused :
    (r : SubagentRecord) (cmd : LifecycleCommand) (clock : ℕ → ℤ)
    → ((t : State) → ¬ MayMove r cmd.action t)
    → apply_lifecycle r cmd clock ≡ (r, err (invalid_transition cmd.action r.state))
unfolding apply_lifecycle
apply_lifecycle_refused r cmd clock no_move = move_to_refused r cmd clock _ (λ t e.
    no_move t (next-Moves r.mode (has_pending r.queue) r.archived_from r.state t cmd.action e))

-- What an allowed move leaves in the record: the new state, one event more, and no change of the
-- queue, of the mode or of the generation.
pub record IsMoved (r r' : SubagentRecord) (t : State) : Type 0 where
  pub state : r'.state ≡ t
  pub queue : r'.queue ≡ r.queue
  pub mode : r'.mode ≡ r.mode
  pub generation : r'.generation ≡ r.generation
  pub logged : length r'.events ≡ length r.events + 1
  pub archived : t ≡ State.archived → r.state ≢ State.archived → r'.archived_from ≡ some r.state
  pub remembered : t ≢ State.archived → r'.archived_from ≡ r.archived_from

move_to_ok :
    (r : SubagentRecord) (cmd : LifecycleCommand) (clock : ℕ → ℤ) (t : State)
    → ((move_to r cmd clock (ok t)).1 ≡ ok (record { previous = r.state; current = t }))
      × IsMoved r (move_to r cmd clock (ok t)).0 t
unfolding move_to
move_to_ok r cmd clock t = (
  refl,
  record {
    state = refl;
    queue = refl;
    mode = refl;
    generation = refl;
    logged = rw length-append_one (omega arith);
    archived = λ e n. ground arith;
    remembered = λ n. ground arith;
  },
)

-- A lifecycle command that the rules allow a move for makes that move: the record takes the new
-- state, one event is logged, and the queue, the mode and the generation stay.
apply_lifecycle_moves :
    (r : SubagentRecord) (cmd : LifecycleCommand) (clock : ℕ → ℤ) (t : State)
    → MayMove r cmd.action t
    → ((apply_lifecycle r cmd clock).1 ≡ ok (record { previous = r.state; current = t }))
      × IsMoved r (apply_lifecycle r cmd clock).0 t
unfolding apply_lifecycle
apply_lifecycle_moves r cmd clock t m =
    rw (Moves-next r.mode (has_pending r.queue) r.archived_from m) (move_to_ok r cmd clock t)

abbrev pub closing : String → LifecycleCommand
closing id = record { id = id; action = close }

abbrev pub reopening : String → LifecycleCommand
reopening id = record { id = id; action = reopen }

reopening_move :
    (r : SubagentRecord) (s : State)
    → r.state ≡ State.archived
    → r.archived_from ≡ some s
    → has_pending r.queue ≡ false
    → MayMove r reopen (reopened_state s)
reopening_move r s a f p = elim (reopened_cases s) [
  | inl (final, e) ↦ rw (a, e) (reopen_final p (rw f) final)
  | inr (not_final, e) ↦ rw (a, e) (reopen_idle p (rw f not_final))
]

-- Closing a record that is not archived and has no pending work, and reopening it, both succeed. A
-- record that had completed, failed or been cancelled is back in that state; any other is idle. The
-- queue is as it was, and the log has two events more.
pub close_reopen :
    (r : SubagentRecord) (id : String) (clock clock' : ℕ → ℤ)
    → r.state ≢ State.archived
    → has_pending r.queue ≡ false
    → let closed = apply_lifecycle r (closing id) clock in
      let reopened = apply_lifecycle closed.0 (reopening id) clock' in
      (closed.1 ≡ ok (record { previous = r.state; current = State.archived }))
      × (reopened.1 ≡ ok (record { previous = State.archived; current = reopened_state r.state }))
      × (reopened.0.state ≡ reopened_state r.state)
      × (reopened.0.queue ≡ r.queue)
      × (length reopened.0.events ≡ length r.events + 2)
close_reopen r id clock clock' n p =
    let closes = apply_lifecycle_moves r (closing id) clock State.archived (archive n) in
    let closed = (apply_lifecycle r (closing id) clock).0 in
    let c = closes.1 in
    let reopens =
      apply_lifecycle_moves closed (reopening id) clock' (reopened_state r.state)
        (reopening_move closed r.state c.state (c.archived refl n) (rw c.queue p)) in
    let o = reopens.1 in
    (
      closes.0,
      rw c.state at reopens.0,
      o.state,
      o.queue ∙ c.queue,
      omega (arith, o.logged, c.logged),
    )

is_empty-append_one {ℓ} : {A : Type ℓ} (xs : List A) (y : A) → is_empty (xs ++ y ∷ []) ≡ false
is_empty-append_one [] y = refl
is_empty-append_one (x ∷ xs) y = refl

created_logs :
    (r : SubagentRecord) (cmd : CreateCommand) (t : ℤ)
    → (apply_create r cmd t).1 ≡ ok CommandOutcome.created
    → is_empty (apply_create r cmd t).0.events ≡ false
unfolding apply_create
created_logs r cmd t h =
    elim (Bool-cases (not (is_zero r.created_at_ms) || not (is_empty r.events))) [
      | inl exists ↦ cc (rw exists at h)
      | inr fresh ↦ rw fresh (is_empty-append_one _ _)
    ]

logged_refuses :
    (r : SubagentRecord) (cmd : CreateCommand) (t : ℤ)
    → is_empty r.events ≡ false
    → apply_create r cmd t ≡ (r, err (already_exists r.child_id))
unfolding apply_create
logged_refuses r cmd t h = ground arith

-- A record that was created refuses to be created again, and stays as it is.
pub apply_create_once :
    (r : SubagentRecord) (cmd cmd' : CreateCommand) (t t' : ℤ)
    → (apply_create r cmd t).1 ≡ ok CommandOutcome.created
    → let r' = (apply_create r cmd t).0 in
      apply_create r' cmd' t' ≡ (r', err (already_exists r'.child_id))
apply_create_once r cmd cmd' t t' h =
    logged_refuses (apply_create r cmd t).0 cmd' t' (created_logs r cmd t h)
