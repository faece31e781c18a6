-- ===== src/Subagent/Control/Apply/Order.antt =====
-- The order that every operation keeps: event sequences rise strictly along the log, and the ids of
-- the work items are those that the record gave out, each once.
use Prim.Native.String.{◌++◌ as ◌+++◌}
use fx_rust.Prelude.{
  ℕ, suc, ◌≤◌, ◌≡◌, List, [], ◌∷◌, ◌++◌, arith, String, string_eq, Bool-cases, inl, inr,
}
use fx_rust.Prelude.U64.{to_string}
use fx_rust.Subagent.Domain.Types.{QueueStatus, QueuedMessage, Event}
use fx_rust.Subagent.Control.{SubagentRecord}
use fx_rust.Subagent.Control.Revision.{set_status, has_id}

-- Sequences rise strictly along the log, from `lo` on, and stay below `hi`.
abbrev pub Rising : ℕ → List Event → ℕ → Type 0
Rising lo [] hi = lo ≤ hi
Rising lo (e ∷ es) hi = (lo ≤ e.sequence) × Rising (suc e.sequence) es hi

pub Rising-append_one :
    (lo hi : ℕ) (es : List Event) (e : Event)
    → Rising lo es hi
    → e.sequence ≡ hi
    → Rising lo (es ++ e ∷ []) (suc hi)
Rising-append_one lo hi [] e h s = (omega arith, omega arith)
Rising-append_one lo hi (x ∷ es) e (b, h) s = (b, Rising-append_one (suc x.sequence) hi es e h s)

-- The ids of sent messages, in the order of the queue: each carries the sequence of its event.
abbrev pub Sent : ℕ → List QueuedMessage → ℕ → Type 0
Sent lo [] hi = lo ≤ hi
Sent lo (w ∷ ws) hi = (k : ℕ) × (lo ≤ k) × (w.id ≡ "m-" +++ to_string k) × Sent (suc k) ws hi

-- A queue holds the prompt at most once, in front.
pub data Queued (hi : ℕ) : List QueuedMessage → Type 0 where
  sent : {ws : List QueuedMessage} → Sent 0 ws hi → Queued hi ws
  prompted :
      {w : QueuedMessage} {ws : List QueuedMessage} (n : ℕ)
      → w.id ≡ "w-" +++ to_string n
      → Sent 0 ws hi
      → Queued hi (w ∷ ws)

pub Sent-mono : (lo hi : ℕ) (ws : List QueuedMessage) → Sent lo ws hi → Sent lo ws (suc hi)
Sent-mono lo hi [] h = omega arith
Sent-mono lo hi (w ∷ ws) (k, b, e, h) = (k, b, e, Sent-mono (suc k) hi ws h)

pub Sent-append_one :
    (lo hi : ℕ) (ws : List QueuedMessage) (w : QueuedMessage)
    → Sent lo ws hi
    → w.id ≡ "m-" +++ to_string hi
    → Sent lo (ws ++ w ∷ []) (suc hi)
Sent-append_one lo hi [] w h e = (hi, h, e, omega arith)
Sent-append_one lo hi (x ∷ ws) w (k, b, i, h) e = (k, b, i, Sent-append_one (suc k) hi ws w h e)

pub Sent-set_status :
    (lo hi : ℕ) (ws : List QueuedMessage) (id : String) (s : QueueStatus)
    → Sent lo ws hi
    → Sent lo (set_status ws id s) hi
unfolding set_status
Sent-set_status lo hi [] id s h = h
Sent-set_status lo hi (w ∷ ws) id s (k, b, i, h) = elim (Bool-cases (has_id id w)) [
  | inl hit ↦ rw hit (k, b, i, h)
  | inr miss ↦ rw miss (k, b, i, Sent-set_status (suc k) hi ws id s h)
]

pub Queued-mono : {hi : ℕ} {ws : List QueuedMessage} → Queued hi ws → Queued (suc hi) ws
Queued-mono (sent h) = sent (Sent-mono _ _ _ h)
Queued-mono (prompted n i h) = prompted n i (Sent-mono _ _ _ h)

pub Queued-append_one :
    {hi : ℕ} {ws : List QueuedMessage} (w : QueuedMessage)
    → Queued hi ws
    → w.id ≡ "m-" +++ to_string hi
    → Queued (suc hi) (ws ++ w ∷ [])
Queued-append_one w (sent h) e = sent (Sent-append_one _ _ _ w h e)
Queued-append_one w (prompted n i h) e = prompted n i (Sent-append_one _ _ _ w h e)

pub Queued-set_status :
    {hi : ℕ} {ws : List QueuedMessage} (id : String) (s : QueueStatus)
    → Queued hi ws
    → Queued hi (set_status ws id s)
unfolding set_status
Queued-set_status id s (sent h) = sent (Sent-set_status _ _ _ id s h)
Queued-set_status id s (prompted {w} {ws} n i h) = elim (Bool-cases (has_id id w)) [
  | inl hit ↦ rw hit (prompted n i h)
  | inr miss ↦ rw miss (prompted n i (Sent-set_status _ _ ws id s h))
]

-- What holds between two calls, while fewer than 2 ^ 64 sequences have been given out.
pub record IsOrdered (r : SubagentRecord) : Type 0 where
  pub log : Rising 0 r.events r.next_event_sequence
  pub queue : Queued r.next_event_sequence r.queue
  pub unborn : r.events ≡ [] → r.queue ≡ []
