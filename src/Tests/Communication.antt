-- ===== src/Tests/Communication.antt =====
-- A concrete ledger of src/subagent_communication.rs.
use fx_rust.Prelude.{
  ◌-◌, ◌≤◌, ◌≡◌, refl, [], ◌∷◌, ◌++◌, arith, pos, length, take, drop, reverse, min, max, string_eq,
}
use fx_rust.Subagent.Domain.Types.{max_page_limit}
use fx_rust.Subagent.Communication.{
  Ledger, Delivery, DeliveryPayload, new_ledger, deliver, max_deliveries, read_page,
  WorkNotification,
}
use fx_rust.Subagent.Communication.Retention.{HasHistory, new_ledger-HasHistory, deliver_refines}
use fx_rust.Subagent.Communication.Page.{read_page_refines}
use fx_rust.Subagent.Communication.Work.{HasWork}

abbrev empty : Ledger
empty = new_ledger "child-1"

abbrev sent : Ledger × Delivery
sent = deliver empty "child-1" "root" (DeliveryPayload.message "done") (pos 5)

deliver_refines_example :
    HasHistory sent.0 ([] ++ sent.1 ∷ []) × (length sent.0.deliveries ≤ max_deliveries)
deliver_refines_example =
    deliver_refines empty [] "child-1" "root" (DeliveryPayload.message "done") (pos 5)
      (new_ledger-HasHistory "child-1") (omega arith)

sent_history : HasHistory sent.0 (sent.1 ∷ [])
sent_history =
    (deliver_refines empty [] "child-1" "root" (DeliveryPayload.message "done") (pos 5)
      (new_ledger-HasHistory "child-1") (omega arith)).0

read_page_refines_example :
    read_page sent.0 0 10
    ≡ take
        (min 10 max_page_limit)
        (reverse (drop (max 0 (length (sent.1 ∷ []) - max_deliveries)) (sent.1 ∷ [])))
read_page_refines_example = read_page_refines sent.0 (sent.1 ∷ []) 0 10 sent_history

abbrev noted : WorkNotification
noted = record {
  work_id = "w0";
  source_child_id = "child-1";
  kind = "tool";
  observed_at_ms = pos 1;
}

abbrev busy : Ledger
busy = record empty { work_notifications = noted ∷ [] }

busy-HasWork : HasWork busy.work_notifications
busy-HasWork = record { few = omega arith; distinct = (refl, tt) }
