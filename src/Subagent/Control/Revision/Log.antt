-- ===== src/Subagent/Control/Revision/Log.antt =====
-- What `append_revision` does to a record, for any number of transitions.
use fx_rust.Prelude.{
  ℕ, ◌+◌, ◌≤◌, ◌<◌, ◌≡◌, ◌≢◌, refl, ℤ, List, [], ◌∷◌, ◌++◌, append_assoc, append-nil, ok, err,
  length, arith, some, ◌⊎◌, ◌∙◌,
}
use native.Mathlib.Nat.{add-zero}
use native.Mathlib.Decide.{dec_lt}
use fx_rust.Prelude.U64.{u64_max, checked_suc}
use fx_rust.Subagent.Domain.Types.{Event}
use fx_rust.Subagent.Control.{SubagentRecord, generation_exhausted}
use fx_rust.Subagent.Control.Revision.{
  TransitionInput, transition_event, append_at_revision, append_all, append_revision,
}

-- The events of a batch of transitions, numbered from a sequence on.
abbrev pub numbered : ℕ → ℕ → List TransitionInput → ℤ → List Event
numbered sequence revision [] timestamp_ms = []
numbered sequence revision (t ∷ ts) timestamp_ms =
    transition_event sequence revision t timestamp_ms
    ∷ numbered (sequence + 1) revision ts timestamp_ms

checked_suc_below : (n : ℕ) → n < u64_max → checked_suc n ≡ some (n + 1)
checked_suc_below n h = ground arith

-- The record after one event.
abbrev one_logged : SubagentRecord → ℕ → TransitionInput → ℤ → SubagentRecord
one_logged r revision t timestamp_ms = record r {
  events = r.events ++ transition_event r.next_event_sequence revision t timestamp_ms ∷ [];
  next_event_sequence = r.next_event_sequence + 1;
}

append_at_revision_ok :
    (r : SubagentRecord) (revision : ℕ) (t : TransitionInput) (timestamp_ms : ℤ)
    → r.next_event_sequence < u64_max
    → append_at_revision r revision t timestamp_ms ≡ (one_logged r revision t timestamp_ms, ok tt)
unfolding append_at_revision
append_at_revision_ok r revision t timestamp_ms h = ground arith

append_at_revision_exhausted :
    (r : SubagentRecord) (revision : ℕ) (t : TransitionInput) (timestamp_ms : ℤ)
    → u64_max ≤ r.next_event_sequence
    → (append_at_revision r revision t timestamp_ms).1 ≡ err generation_exhausted
unfolding append_at_revision
append_at_revision_exhausted r revision t timestamp_ms h = ground arith

-- The record after a loop that is not stopped.
abbrev pub logged : SubagentRecord → ℕ → List TransitionInput → ℤ → SubagentRecord
logged r revision ts timestamp_ms = record r {
  events = r.events ++ numbered r.next_event_sequence revision ts timestamp_ms;
  next_event_sequence = r.next_event_sequence + length ts;
}

append_all_ok :
    (r : SubagentRecord) (revision : ℕ) (ts : List TransitionInput) (timestamp_ms : ℤ)
    → r.next_event_sequence + length ts ≤ u64_max
    → append_all r revision ts timestamp_ms ≡ (logged r revision ts timestamp_ms, ok tt)
unfolding append_all
append_all_ok r revision [] timestamp_ms h = simp (append-nil, add-zero)
append_all_ok r revision (t ∷ ts) timestamp_ms h =
    rw (append_at_revision_ok r revision t timestamp_ms (omega arith)) (
      append_all_ok (one_logged r revision t timestamp_ms) revision ts timestamp_ms (omega arith)
      ∙ simp (append_assoc) (ground arith))

generation-append_all :
    (r : SubagentRecord) (revision : ℕ) (ts : List TransitionInput) (timestamp_ms : ℤ)
    → (append_all r revision ts timestamp_ms).0.generation ≡ r.generation
unfolding append_all
generation-append_all r revision [] timestamp_ms = refl
generation-append_all r revision (t ∷ ts) timestamp_ms = ground (
  arith,
  generation_at,
  generation-append_all (append_at_revision r revision t timestamp_ms).0 revision ts timestamp_ms,
)
  where
    generation_at : (append_at_revision r revision t timestamp_ms).0.generation ≡ r.generation
    generation_at = unfold append_at_revision in ground arith

append_all_exhausted :
    (r : SubagentRecord) (revision : ℕ) (ts : List TransitionInput) (timestamp_ms : ℤ)
    → r.next_event_sequence ≤ u64_max
    → u64_max < r.next_event_sequence + length ts
    → (append_all r revision ts timestamp_ms).1 ≡ err generation_exhausted
unfolding append_all
append_all_exhausted r revision [] timestamp_ms b h = absurd (omega arith)
append_all_exhausted r revision (t ∷ ts) timestamp_ms b h =
    elim (dec_lt r.next_event_sequence u64_max) [
      | yes room ↦ rw (append_at_revision_ok r revision t timestamp_ms room) (
          append_all_exhausted (one_logged r revision t timestamp_ms) revision ts timestamp_ms
            (omega arith) (omega arith))
      | no full ↦
          ground (arith, append_at_revision_exhausted r revision t timestamp_ms (omega arith))
    ]

-- With room for one more generation and for a sequence number each, a batch of at least one
-- transition is logged whole: the events carry consecutive sequences and the one new generation,
-- both counters advance, and nothing else of the record changes but the time of the update.
pub append_revision_ok :
    (r : SubagentRecord) (ts : List TransitionInput) (timestamp_ms : ℤ)
    → ts ≢ []
    → r.generation < u64_max
    → r.next_event_sequence + length ts ≤ u64_max
    → append_revision r ts timestamp_ms ≡ (
      record r {
        events = r.events ++ numbered r.next_event_sequence (r.generation + 1) ts timestamp_ms;
        next_event_sequence = r.next_event_sequence + length ts;
        generation = r.generation + 1;
        updated_at_ms = timestamp_ms;
      },
      ok tt,
    )
unfolding append_revision
append_revision_ok r [] timestamp_ms some_work g h = absurd (some_work refl)
append_revision_ok r (t ∷ ts) timestamp_ms some_work g h =
    rw (checked_suc_below r.generation g)
      (rw (append_all_ok r (r.generation + 1) (t ∷ ts) timestamp_ms h))

-- With no generation left, or no sequence number for each, a batch of at least one transition is
-- refused, and the generation stays as it was.
pub append_revision_exhausted :
    (r : SubagentRecord) (ts : List TransitionInput) (timestamp_ms : ℤ)
    → ts ≢ []
    → r.next_event_sequence ≤ u64_max
    → (r.generation ≡ u64_max) ⊎ (u64_max < r.next_event_sequence + length ts)
    → ((append_revision r ts timestamp_ms).1 ≡ err generation_exhausted)
      × ((append_revision r ts timestamp_ms).0.generation ≡ r.generation)
unfolding append_revision
append_revision_exhausted r [] timestamp_ms some_work b h = absurd (some_work refl)
append_revision_exhausted r (t ∷ ts) timestamp_ms some_work b h = ground (
  arith,
  append_all_exhausted r (r.generation + 1) (t ∷ ts) timestamp_ms b,
  generation-append_all r (r.generation + 1) (t ∷ ts) timestamp_ms,
)
