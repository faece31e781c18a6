-- ===== src/Subagent/Control/Work/Ordered.antt =====
-- Running a work item keeps the order of the record, and gives out one sequence at most.
use fx_rust.Prelude.{
  ℕ, zero, suc, ◌+◌, ◌≤◌, ◌<◌, ◌≡◌, ◌≢◌, refl, ℤ, Bool, List, [], ◌∷◌, ◌++◌, length, ok, err, Check,
  Option, none, some, arith, string_eq, String,
}
use native.Mathlib.Nat.{add-zero}
use native.Mathlib.Decide.{dec_lt}
use fx_rust.Prelude.U64.{u64_max}
use fx_rust.Subagent.Domain.Types.{State, QueueStatus, QueuedMessage, Event}
use fx_rust.Subagent.Control.{SubagentRecord, TransitionError}
use fx_rust.Subagent.Control.Revision.{TransitionInput, set_status, append_revision, and_then}
use fx_rust.Subagent.Control.Revision.Log.{numbered, append_revision_ok}
use fx_rust.Subagent.Control.Apply.Order.{
  IsOrdered, Rising, Queued, sent, prompted, Queued-mono, Queued-set_status,
}
use fx_rust.Subagent.Control.Work.{
  started, start_work, transition_work, one_transition, started_first, start_first, finished_first,
  finish_control,
}

one_later : (hi n : ℕ) → hi + suc n ≡ (hi + 1) + n
one_later hi n = omega arith

suc_later : (hi n : ℕ) → hi + suc n ≡ suc (hi + n)
suc_later hi n = omega arith

Rising-numbered :
    (lo hi revision : ℕ) (ts : List TransitionInput) (t : ℤ)
    → lo ≤ hi
    → Rising lo (numbered hi revision ts t) (hi + length ts)
Rising-numbered lo hi revision [] t b = omega arith
Rising-numbered lo hi revision (x ∷ ts) t b = (
  b,
  rw (one_later hi (length ts)) (Rising-numbered (suc hi) (hi + 1) revision ts t (omega arith)),
)

Rising-append :
    (lo hi revision : ℕ) (es : List Event) (ts : List TransitionInput) (t : ℤ)
    → Rising lo es hi
    → Rising lo (es ++ numbered hi revision ts t) (hi + length ts)
Rising-append lo hi revision [] ts t h = Rising-numbered lo hi revision ts t h
Rising-append lo hi revision (e ∷ es) ts t h =
    (h.0, Rising-append (suc e.sequence) hi revision es ts t h.1)

Queued-more : (n : ℕ) {hi : ℕ} {ws : List QueuedMessage} → Queued hi ws → Queued (hi + n) ws
Queued-more zero {hi} h = rw (add-zero hi) h
Queued-more (suc n) {hi} h = rw (suc_later hi n) (Queued-mono (Queued-more n h))

append_ne_nil : (es : List Event) (e : Event) (later : List Event) → es ++ e ∷ later ≢ []
append_ne_nil [] e later h = absurd cc
append_ne_nil (x ∷ es) e later h = absurd cc

-- The record keeps its order, and gave out `n` sequences at most.
abbrev pub Keeps : ℕ → SubagentRecord → SubagentRecord → Type 0
Keeps n r r' = IsOrdered r' × (r'.next_event_sequence ≤ r.next_event_sequence + n)

append_revision_full :
    (r : SubagentRecord) (ts : List TransitionInput) (t : ℤ)
    → u64_max ≤ r.generation
    → (append_revision r ts t).0 ≡ r
unfolding append_revision
append_revision_full r [] t h = refl
append_revision_full r (x ∷ ts) t h = ground arith

pub append_revision-Keeps :
    (r : SubagentRecord) (ts : List TransitionInput) (t : ℤ)
    → r.next_event_sequence + length ts ≤ u64_max
    → IsOrdered r
    → Keeps (length ts) r (append_revision r ts t).0
append_revision-Keeps r [] t b h = unfold append_revision in (h, omega arith)
append_revision-Keeps r (x ∷ ts) t b h = elim (dec_lt r.generation u64_max) [
  | yes room ↦ rw (append_revision_ok r (x ∷ ts) t (λ e. cc) room b) (
    record {
      log = Rising-append 0 r.next_event_sequence (r.generation + 1) r.events (x ∷ ts) t h.log;
      queue = Queued-more (length (x ∷ ts)) h.queue;
      unborn = λ e. absurd (append_ne_nil r.events _ _ e);
    },
    omega arith,
  )
  | no full ↦ rw (append_revision_full r (x ∷ ts) t (omega arith)) (h, omega arith)
]

-- A change of the queue that its order allows, and of what the order does not bear on.
requeued :
    (r : SubagentRecord) (queue : List QueuedMessage) (state : State) (t : ℤ)
    → Queued r.next_event_sequence queue
    → (r.queue ≡ [] → queue ≡ [])
    → IsOrdered r
    → IsOrdered (record r { queue = queue; state = state; updated_at_ms = t })
requeued r queue state t q empty h = record {
  log = h.log;
  queue = q;
  unborn = λ e. empty (h.unborn e);
}

set_status_empty :
    (queue : List QueuedMessage) (id : String) (s : QueueStatus)
    → queue ≡ []
    → set_status queue id s ≡ []
unfolding set_status
set_status_empty queue id s e = rw e refl

restated :
    (r : SubagentRecord) (id : String) (s : QueueStatus) (state : State) (t : ℤ)
    → IsOrdered r
    → IsOrdered (record r { queue = set_status r.queue id s; state = state; updated_at_ms = t })
restated r id s state t h =
    requeued r (set_status r.queue id s) state t (Queued-set_status id s h.queue)
      (set_status_empty r.queue id s) h

Queued-first :
    {hi : ℕ} (work : QueuedMessage) (later : List QueuedMessage) (s : QueueStatus)
    → Queued hi (work ∷ later)
    → Queued hi (record work { status = s } ∷ later)
Queued-first work later s (sent h) = sent h
Queued-first work later s (prompted n i h) = prompted n i h

started-IsOrdered :
    (r : SubagentRecord) (t : ℤ) (work : Option QueuedMessage)
    → IsOrdered r
    → Keeps 1 r (started r t work)
started-IsOrdered r t none h = (h, omega arith)
started-IsOrdered r t (some work) h =
    (restated r work.id QueueStatus.running State.running t h, omega arith)

pub start_work-Keeps : (r : SubagentRecord) (t : ℤ) → IsOrdered r → Keeps 1 r (start_work r t)
unfolding start_work
start_work-Keeps r t h = started-IsOrdered r t _ h

transitioned-Keeps :
    (r : SubagentRecord) (id : String) (s : QueueStatus) (state : State) (t : ℤ)
    (done : SubagentRecord × Check TransitionError)
    → Keeps 1 r done.0
    → Keeps 1 r
        (and_then done λ r'. (
          record r' { state = state; queue = set_status r'.queue id s; updated_at_ms = t },
          ok tt,
        )).0
transitioned-Keeps r id s state t (r', ok _) k = (restated r' id s state t k.0, k.1)
transitioned-Keeps r id s state t (r', err e) k = k

pub transition_work-Keeps :
    (r : SubagentRecord) (work : QueuedMessage) (s : QueueStatus) (succeeded : Bool) (t : ℤ)
    → r.next_event_sequence < u64_max
    → IsOrdered r
    → Keeps 1 r (transition_work r work s succeeded t).0
unfolding transition_work
transition_work-Keeps r work s succeeded t b h =
    transitioned-Keeps r work.id s _ t (append_revision r (one_transition work s ∷ []) t)
      (append_revision-Keeps r (one_transition work s ∷ []) t (omega arith) h)

first_requeued :
    (r : SubagentRecord) (work : QueuedMessage) (later : List QueuedMessage) (s : QueueStatus)
    (state : State) (t : ℤ)
    → r.queue ≡ work ∷ later
    → IsOrdered r
    → IsOrdered
        (record r { queue = record work { status = s } ∷ later; state = state; updated_at_ms = t })
first_requeued r work later s state t e h =
    requeued r (record work { status = s } ∷ later) state t
      (Queued-first work later s (rw e at h.queue)) (λ e'. cc) h

started_first-Keeps :
    (r : SubagentRecord) (t : ℤ) (queue : List QueuedMessage)
    → r.queue ≡ queue
    → IsOrdered r
    → Keeps 1 r (started_first r t queue)
started_first-Keeps r t [] e h = (h, omega arith)
started_first-Keeps r t (work ∷ later) e h =
    (first_requeued r work later QueueStatus.running State.running t e h, omega arith)

pub start_first-Keeps : (r : SubagentRecord) (t : ℤ) → IsOrdered r → Keeps 1 r (start_first r t)
unfolding start_first
start_first-Keeps r t h = started_first-Keeps r t r.queue refl h

finished_first-Keeps :
    (r : SubagentRecord) (target : QueueStatus) (t : ℤ) (queue : List QueuedMessage)
    → r.queue ≡ queue
    → r.next_event_sequence < u64_max
    → IsOrdered r
    → Keeps 1 r (finished_first r target t queue).0
finished_first-Keeps r target t [] e b h = (h, omega arith)
finished_first-Keeps r target t (work ∷ later) e b h =
    append_revision-Keeps (record r { queue = record work { status = target } ∷ later })
      (one_transition work target ∷ []) t (omega arith)
      (first_requeued r work later target r.state r.updated_at_ms e h)

concluded-Keeps :
    (r : SubagentRecord) (state : State) (t : ℤ) (done : SubagentRecord × Check TransitionError)
    → Keeps 1 r done.0
    → Keeps 1 r (and_then done λ r'. (record r' { state = state; updated_at_ms = t }, ok tt)).0
concluded-Keeps r state t (r', ok _) k = (requeued r' r'.queue state t k.0.queue (λ e. e) k.0, k.1)
concluded-Keeps r state t (r', err e) k = k

pub finish_control-Keeps :
    (r : SubagentRecord) (succeeded : Bool) (t : ℤ)
    → r.next_event_sequence < u64_max
    → IsOrdered r
    → Keeps 1 r (finish_control r succeeded t).0
unfolding finish_control
finish_control-Keeps r succeeded t b h =
    concluded-Keeps r _ t (finished_first r _ t r.queue)
      (finished_first-Keeps r _ t r.queue refl b h)
