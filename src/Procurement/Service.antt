-- ===== src/Procurement/Service.antt =====
-- procurement/service.py: the fixed transitions of an order, and the goods receipt.
pub mod Receipt
pub mod Calls
use inventory_management_sys.Base.{
  ℕ, String, Bool, true, false, Option, none, some, List, [], ◌∷◌, ◌==◌, ◌+◌, map, if◌then◌else◌,
}
use inventory_management_sys.Base.Int.{ℤ}
use inventory_management_sys.Base.Dict.{Dict, get, dict_of}
use inventory_management_sys.Base.Table.{find_row}
use inventory_management_sys.Base.Result.{
  AppError, not_found, conflict, business_rule, internal, Tx, pure, raise, gets, modify, or_raise,
  ◌>>=◌, ◌>>◌,
}
use inventory_management_sys.Stock.Tables.{StockMovement, receipt, Db}
use inventory_management_sys.Stock.Repository.{save, add_movement}
use inventory_management_sys.Stock.Context.{get_or_create_locked, add_on_hand}
use inventory_management_sys.Procurement.States.{
  DomainError, invalid_transition, receipt_error, key_error, Checked, done, failed, PoStatus,
  pending_approval, PoAction, submit, approve, reject, cancel, send, assert_transition,
  target_status,
}
use inventory_management_sys.Procurement.States.{receive as receive_action}
use inventory_management_sys.Procurement.Receiving.{
  LineState, LineReceipt, ReceiptOutcome, apply_receipt,
}
use inventory_management_sys.Procurement.Tables.{
  PurchaseOrder, PurchaseOrderLine, PurchaseOrderEvent, PoAudit, Office, order_key, line_key,
  on_stock, save_order, save_line,
}

-- `get_for_update`, and the error where there is no such order.
abbrev pub require_order : ℕ → Tx Office PurchaseOrder
require_order po_id = do
  found ← gets (λ (office : Office). find_row order_key po_id office.orders)
  or_raise found (not_found "Purchase order not found")

-- `except InvalidTransitionError: raise ConflictError`, `except ReceiptError: raise
-- BusinessRuleError`; a `KeyError` is caught by neither.
abbrev pub raised_as : DomainError → AppError
raised_as (invalid_transition message) = conflict message
raised_as (receipt_error message) = business_rule message
raised_as key_error = internal "KeyError"

abbrev pub checked : {A : Type 0} → Checked A → Tx Office A
checked (done a) = pure a
checked (failed e) = raise (raised_as e)

abbrev pub record_event :
    PurchaseOrder
    → String
    → Option PoStatus
    → Option PoStatus
    → Option String
    → ℕ
    → Tx Office (Unit {0})
record_event po action from to comment actor = modify λ (office : Office). record office {
  events =
      record {
        po_id = po.id;
        action = action;
        from_status = from;
        to_status = to;
        comment = comment;
        actor_id = actor;
      }
      ∷ office.events;
}

abbrev pub audit : ℕ → String → PurchaseOrder → Tx Office (Unit {0})
audit user action po = modify λ (office : Office). record office {
  audits = record { user_id = user; action = action; entity_id = po.id } ∷ office.audits;
}

-- `_ACTION_EVENT` and `_ACTION_AUDIT`; `receive` has no entry.
abbrev pub action_event : PoAction → String
action_event submit = "submitted"
action_event approve = "approved"
action_event reject = "rejected"
action_event cancel = "cancelled"
action_event send = "sent"
action_event receive_action = ""

abbrev pub action_audit : PoAction → String
action_audit submit = "po.submitted"
action_audit approve = "po.approved"
action_audit reject = "po.rejected"
action_audit cancel = "po.cancelled"
action_audit send = "po.sent"
action_audit receive_action = ""

abbrev pub is_approve : PoAction → Bool
is_approve approve = true
is_approve _ = false

abbrev pub is_pending : PoStatus → Bool
is_pending pending_approval = true
is_pending _ = false

-- The order after the action `a` by `actor` at the instant `now`.
abbrev pub acted : PurchaseOrder → PoAction → PoStatus → ℕ → ℕ → PurchaseOrder
acted po a target actor now =
    let po' = record po { status = target; version = po.version + 1 } in
    if is_approve a then record po' { approved_by = some actor; approved_at = some now } else po'

-- `if po.status == PENDING_APPROVAL and self.notifications is not None`
abbrev pub notify_approvers : Bool → PurchaseOrder → Tx Office (Unit {0})
notify_approvers has_notifications po =
    if is_pending po.status
    then (if has_notifications
        then modify (λ (office : Office). record office { awaiting = po.id ∷ office.awaiting })
        else pure tt)
    else pure tt

abbrev pub act :
    Bool → PurchaseOrder → PoAction → Option String → ℕ → Option PoStatus → Tx Office (Unit {0})
act has_notifications po a comment actor none = raise (internal "AttributeError")
act has_notifications po a comment actor (some target) = do
  now ← gets (λ (office : Office). office.stock.now)
  let po' = acted po a target actor now
  save_order po'
  record_event po' (action_event a) (some po.status) (some po'.status) comment actor
  audit actor (action_audit a) po'
  notify_approvers has_notifications po'

-- `_apply_action`
unfoldable pub apply_action : Bool → ℕ → PoAction → Option String → ℕ → Tx Office (Unit {0})
apply_action has_notifications po_id a comment actor = do
  po ← require_order po_id
  checked (assert_transition po.status a)
  act has_notifications po a comment actor (target_status po.status a)
