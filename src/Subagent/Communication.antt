-- ===== src/Subagent/Communication.antt =====
-- src/subagent_communication.rs: the bounded ledger of deliveries between a child and its parent.
pub mod Retention
pub mod Page
pub mod Peers
pub mod Work
use Prim.Native.String.{◌++◌ as ◌+++◌}
use fx_rust.Prelude.{
  ℕ, ℤ, String, str_eq, Option, none, some, List, [], ◌∷◌, ◌++◌, reverse, Bool, true, false, ◌&&◌,
  not, Result, ok, err, if◌then◌else◌, ltb, min, max, length, take, any, find, keep, update_first,
}
use fx_rust.Prelude.U64.{wrapping_suc, to_string}
use fx_rust.Subagent.Domain.Types.{State, max_page_limit}
use fx_rust.Subagent.Approval.Types.{Approval}

abbrev pub max_deliveries : ℕ
max_deliveries = 256

abbrev pub max_approvals : ℕ
max_approvals = 64

abbrev pub max_active_work_notifications : ℕ
max_active_work_notifications = 8

pub data DeliveryKind : Type 0 where
  message milestone terminal interval approval tool_activity : DeliveryKind

pub data ToolActivityPhase : Type 0 where
  started succeeded failed denied : ToolActivityPhase

pub record ToolActivity : Type 0 where
  pub tool_name : String
  pub phase : ToolActivityPhase

pub data DeliveryPayload : Type 0 where
  message : String → DeliveryPayload
  milestone : String → DeliveryPayload
  terminal : State → DeliveryPayload
  interval : State → ℕ → DeliveryPayload
  approval : String → DeliveryPayload
  tool_activity : ToolActivity → DeliveryPayload

abbrev pub delivery_kind : DeliveryPayload → DeliveryKind
delivery_kind (DeliveryPayload.message _) = DeliveryKind.message
delivery_kind (DeliveryPayload.milestone _) = DeliveryKind.milestone
delivery_kind (DeliveryPayload.terminal _) = DeliveryKind.terminal
delivery_kind (DeliveryPayload.interval _ _) = DeliveryKind.interval
delivery_kind (DeliveryPayload.approval _) = DeliveryKind.approval
delivery_kind (DeliveryPayload.tool_activity _) = DeliveryKind.tool_activity

pub record Delivery : Type 0 where
  pub sequence : ℕ
  pub revision : ℕ
  pub id : String
  pub source_id : String
  pub target_id : String
  pub work_id : Option String
  pub operation_id : Option String
  pub timestamp_ms : ℤ
  pub payload : DeliveryPayload

pub record ConsumerCursor : Type 0 where
  pub consumer_id : String
  pub sequence : ℕ

pub record WorkNotification : Type 0 where
  pub work_id : String
  pub source_child_id : String
  pub kind : String
  pub observed_at_ms : ℤ

pub record Ledger : Type 0 where
  pub session_id : String
  pub capacity_version : ℕ
  pub generation : ℕ
  pub next_sequence : ℕ
  pub deliveries : List Delivery
  pub cursors : List ConsumerCursor
  pub work_notifications : List WorkNotification
  pub approvals : List Approval
  pub parent_turn_evicted_through : ℕ
  pub authority_generation : ℕ

-- `impl Default for Ledger`, under a session's id
abbrev pub new_ledger : String → Ledger
new_ledger session_id = record {
  session_id = session_id;
  capacity_version = 2;
  generation = 0;
  next_sequence = 1;
  deliveries = [];
  cursors = [];
  work_notifications = [];
  approvals = [];
  parent_turn_evicted_through = 0;
  authority_generation = 0;
}

-- The `while` loop: the first delivery goes, and its sequence is kept, as long as there are too
-- many.
unfoldable pub evict : List Delivery → ℕ → List Delivery × ℕ
evict [] through = ([], through)
evict (d ∷ ds) through =
    let rest = evict ds d.sequence in
    if ltb max_deliveries (length (d ∷ ds)) then rest else (d ∷ ds, through)

abbrev pub new_delivery : Ledger → String → String → DeliveryPayload → ℤ → Delivery
new_delivery l source_id target_id payload timestamp_ms = record {
  sequence = l.next_sequence;
  revision = l.generation;
  id = "d-" +++ to_string l.next_sequence;
  source_id = source_id;
  target_id = target_id;
  work_id = none;
  operation_id = none;
  timestamp_ms = timestamp_ms;
  payload = payload;
}

unfoldable pub deliver : Ledger → String → String → DeliveryPayload → ℤ → Ledger × Delivery
deliver l source_id target_id payload timestamp_ms =
    let delivery = new_delivery l source_id target_id payload timestamp_ms in
    let retained = evict (l.deliveries ++ delivery ∷ []) l.parent_turn_evicted_through in
    (
      record l {
        deliveries = retained.0;
        parent_turn_evicted_through = retained.1;
        generation = wrapping_suc l.generation;
        next_sequence = wrapping_suc l.next_sequence;
      },
      delivery,
    )

abbrev cursor_sequence : Option ConsumerCursor → ℕ
cursor_sequence none = 0
cursor_sequence (some c) = c.sequence

unfoldable pub cursor_for : Ledger → String → ℕ
cursor_for l consumer_id = cursor_sequence (find (λ c. str_eq c.consumer_id consumer_id) l.cursors)

advanced : List ConsumerCursor → String → ℕ → Option ConsumerCursor → List ConsumerCursor
advanced cursors consumer_id sequence (some _) =
    update_first (λ c. str_eq c.consumer_id consumer_id)
      (λ c. record c { sequence = max sequence c.sequence }) cursors
advanced cursors consumer_id sequence none =
    cursors ++ record { consumer_id = consumer_id; sequence = sequence } ∷ []

unfoldable pub advance_cursor : Ledger → String → ℕ → Ledger
unfolding advanced
advance_cursor l consumer_id sequence = record l {
  cursors =
      advanced l.cursors consumer_id sequence
        (find (λ c. str_eq c.consumer_id consumer_id) l.cursors);
}

unfoldable pub read_page : Ledger → ℕ → ℕ → List Delivery
read_page l after_sequence limit = take (min limit max_page_limit) (
    reverse (
      keep (λ d. ltb after_sequence d.sequence && ltb l.parent_turn_evicted_through d.sequence)
        l.deliveries))

-- The `while` loop of `note_active_work`: the oldest notification goes.
unfoldable pub trim_notifications : List WorkNotification → List WorkNotification
trim_notifications [] = []
trim_notifications (n ∷ ns) =
    let rest = trim_notifications ns in
    if ltb max_active_work_notifications (length (n ∷ ns)) then rest else n ∷ ns

unfoldable pub note_active_work : Ledger → String → String → String → ℤ → Ledger
unfolding trim_notifications
note_active_work l work_id source_child_id kind timestamp_ms =
    if any (λ n. str_eq n.work_id work_id) l.work_notifications then l else record l {
      work_notifications = trim_notifications (
          l.work_notifications
          ++ record {
            work_id = work_id;
            source_child_id = source_child_id;
            kind = kind;
            observed_at_ms = timestamp_ms;
          }
            ∷ []);
    }

unfoldable pub clear_work_notification : Ledger → String → Ledger
clear_work_notification l work_id = record l {
  work_notifications = keep (λ n. not (str_eq n.work_id work_id)) l.work_notifications;
}

abbrev pub visible_to_parent : DeliveryKind → Bool
visible_to_parent DeliveryKind.message = true
visible_to_parent DeliveryKind.milestone = true
visible_to_parent DeliveryKind.terminal = true
visible_to_parent DeliveryKind.interval = true
visible_to_parent _ = false

abbrev pub projected : Ledger → String → Delivery → Bool
projected l parent_id d =
    str_eq d.target_id parent_id
    && ltb l.parent_turn_evicted_through d.sequence
    && visible_to_parent (delivery_kind d.payload)

unfoldable pub project_child_deliveries : Ledger → String → ℕ → List Delivery
project_child_deliveries l parent_id limit =
    take (min limit max_page_limit) (reverse (keep (projected l parent_id) l.deliveries))

-- `CommunicationStore::load`, on what the file of `child_id` holds: `none` where there is no file,
-- an error where it cannot be read or parsed. The other error is the identity mismatch.
pub data LoadError : Type 0 where
  unreadable : LoadError
  identity_mismatch : String → String → LoadError

unfoldable pub load : String → Option (Result LoadError Ledger) → Result LoadError Ledger
load child_id none = ok (new_ledger child_id)
load child_id (some (err e)) = err e
load child_id (some (ok l)) =
    if str_eq l.session_id child_id
    then ok (record l {
      deliveries = keep (λ d. ltb l.parent_turn_evicted_through d.sequence) l.deliveries;
    })
    else err (identity_mismatch child_id l.session_id)
