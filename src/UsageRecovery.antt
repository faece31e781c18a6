-- ===== src/UsageRecovery.antt =====
-- The collection of src/usage_recovery.rs: which of the marked sessions have usage that the ledger does not cover. How a
-- session is loaded, the ledger's records and the registry's markers are arguments.
-- The facts of a recovery, which the source keeps empty, have no field.
pub mod Complete
use fx_rust.Prelude.{
  ℕ, ◌+◌, ◌-◌, ◌%◌, Bool, true, false, ◌&&◌, not, List, [], ◌∷◌, ◌++◌, Option, none, some, ltb, leb,
  if◌then◌else◌, length, String, str_eq, unwrap_or, Result, ok, err, ℤ, pos, negsuc,
}

abbrev pub max_recovery_incidents : ℕ
max_recovery_incidents = 4096

abbrev pub max_recovery_pending : ℕ
max_recovery_pending = 4096

pub record UsageRecoverySession : Type 0 where
  pub id : String
  pub protected_updated_at_ms : ℤ

pub data Completeness : Type 0 where
  complete : Completeness
  pending_window : Completeness
  incomplete : Completeness
  legacy : Completeness

pub record Incident : Type 0 where
  pub occurred_at_ms : ℤ
  pub completeness : Completeness

pub record PendingMarker : Type 0 where
  pub id : String
  pub observed_at_ms : ℤ

pub record OwnedRecovery : Type 0 where
  pub incidents : List Incident
  pub pending : List PendingMarker
  pub unknown_pending : Bool

abbrev pub default_recovery : OwnedRecovery
default_recovery = record { incidents = []; pending = []; unknown_pending = false }

-- what the collection reads of a session and of a record of the ledger
pub record Session : Type 0 where
  pub updated_ms : ℕ
  pub total_tokens : ℕ

pub record UsageRecord : Type 0 where
  pub session_id : String
  pub record_tokens : ℕ

-- `n as i64`
abbrev pub as_i64 : ℕ → ℤ
as_i64 n =
    let w = n % 18446744073709551616 in
    if ltb w 9223372036854775808 then pos w else negsuc (18446744073709551615 - w)

-- `a >= b`
abbrev pub at_least : ℤ → ℤ → Bool
at_least (pos a) (pos b) = leb b a
at_least (pos a) (negsuc b) = true
at_least (negsuc a) (pos b) = false
at_least (negsuc a) (negsuc b) = leb a b

unfoldable pub needs_recovery : Session → ℕ → Bool
needs_recovery session ledger_tokens = ltb ledger_tokens session.total_tokens

-- `*totals.entry(rec.session_id).or_insert(0) += rec.total_tokens`
abbrev pub add_tokens : (String → Option ℕ) → UsageRecord → String → Option ℕ
add_tokens totals rec id =
    if str_eq id rec.session_id
    then some ((unwrap_or (totals id) 0 + rec.record_tokens) % 18446744073709551616)
    else totals id

unfoldable pub ledger_totals : (String → Option ℕ) → List UsageRecord → String → Option ℕ
ledger_totals totals [] = totals
ledger_totals totals (rec ∷ ledger) = ledger_totals (add_tokens totals rec) ledger

abbrev unknown : OwnedRecovery → OwnedRecovery
unknown recovery = record recovery { unknown_pending = true }

-- `if cond { recovery.unknown_pending = true; }`
abbrev pub unknown_if : Bool → OwnedRecovery → OwnedRecovery
unknown_if true recovery = unknown recovery
unknown_if false recovery = recovery

abbrev pub push_pending : PendingMarker → OwnedRecovery → OwnedRecovery
push_pending marker recovery =
    if ltb (length recovery.pending) max_recovery_pending
    then record recovery { pending = recovery.pending ++ marker ∷ [] }
    else unknown recovery

abbrev pub push_incident : Incident → OwnedRecovery → OwnedRecovery
push_incident incident recovery =
    if ltb (length recovery.incidents) max_recovery_incidents
    then record recovery { incidents = recovery.incidents ++ incident ∷ [] }
    else unknown recovery

-- the checkpoint of the marker is superseded by a later save
abbrev pub superseded : UsageRecoverySession → Session → Bool
superseded marked session =
    at_least marked.protected_updated_at_ms (pos 0)
    && at_least (as_i64 session.updated_ms) marked.protected_updated_at_ms

unfoldable pub collect_session : UsageRecoverySession → Session → ℕ → OwnedRecovery → OwnedRecovery
unfolding needs_recovery
collect_session marked session ledger_tokens recovery =
    if not (needs_recovery session ledger_tokens)
    then unknown_if (not (superseded marked session)) recovery
    else let at_ms = as_i64 session.updated_ms in
      let warned = unknown_if (not (at_least at_ms marked.protected_updated_at_ms)) recovery in
      let listed = push_pending (record { id = marked.id; observed_at_ms = at_ms }) warned in
      if ltb ledger_tokens session.total_tokens
      then push_incident (record { occurred_at_ms = at_ms; completeness = incomplete }) listed
      else listed

module _ {E : Type 0} (load_by_id : String → Result E (Option Session))
    (totals : String → Option ℕ) where
  abbrev pub collect_loaded :
      UsageRecoverySession → Result E (Option Session) → OwnedRecovery → OwnedRecovery
  collect_loaded marked (ok (some session)) recovery =
      collect_session marked session (unwrap_or (totals marked.id) 0) recovery
  collect_loaded marked (ok none) recovery = unknown recovery
  collect_loaded marked (err _) recovery = unknown recovery

  unfoldable pub collect_marked : List UsageRecoverySession → OwnedRecovery → OwnedRecovery
  unfolding collect_session
  collect_marked [] recovery = recovery
  collect_marked (marked ∷ rest) recovery =
      collect_marked rest (collect_loaded marked (load_by_id marked.id) recovery)

unfoldable pub collect_from_home :
    {E : Type 0}
    → (String → Result E (Option Session))
    → List UsageRecord
    → List UsageRecoverySession
    → OwnedRecovery
unfolding collect_marked ledger_totals
collect_from_home load_by_id ledger marked =
    collect_marked load_by_id (ledger_totals (λ id. none) ledger) marked default_recovery
