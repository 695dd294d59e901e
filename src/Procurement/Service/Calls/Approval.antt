-- ===== src/Procurement/Service/Calls/Approval.antt =====
-- Every order that is approved, sent or (partially) received names who approved it.
use inventory_management_sys.Base.{
  ℕ, String, ◌≡◌, refl, inl, inr, not, ◌||◌, Bool, true, false, Bool-cases, Option, none, some,
  List, [], ◌∷◌, map, All, arith, if◌then◌else◌,
}
use inventory_management_sys.Base.Table.{find_row, set_row, All-set_row, find_row-All}
use inventory_management_sys.Base.Result.{
  AppError, Result, ok, err, or_raise, pure, modify, Ensures, Triple, Triple-bind, given,
}
use inventory_management_sys.Procurement.Tables.{
  PurchaseOrder, PurchaseOrderLine, Office, order_key,
}
use inventory_management_sys.Procurement.States.{
  PoAction, PoStatus, assert_transition, target_status, is_receivable, is_some,
  receive as receiving,
}
use inventory_management_sys.Procurement.States.Workflow.{is_approved}
use inventory_management_sys.Procurement.Receiving.{apply_receipt}
use inventory_management_sys.Procurement.Service.{
  require_order, is_approve, is_pending, acted, act, notify_approvers, apply_action,
}
use inventory_management_sys.Procurement.Service.Receipt.{
  ReceiveRequest, line_state, lines_for, lines_by_id, receipt_of, received_order, close_order,
  receive_goods, receive,
}
use inventory_management_sys.Procurement.Service.Calls.{
  PoCall, acting, taking_in, run, office_after, run_all,
}
use inventory_management_sys.Procurement.Service.Calls.TakingIn.{post_lines-keeps, legal-receivable}
use inventory_management_sys.Procurement.Service.Calls.Goods.{checked-given}

abbrev pub is_signed : PoStatus → Option ℕ → Bool
is_signed status approved_by = not (is_approved status) || is_some approved_by

-- An order past its approval has an approver.
abbrev pub AllSigned : Office → Type 0
AllSigned office =
    All (λ (po : PurchaseOrder). is_signed po.status po.approved_by ≡ true) office.orders

received-is_signed :
    (s t : PoStatus) (who : Option ℕ)
    → is_receivable s ≡ true
    → is_signed s who ≡ true
    → is_signed t who ≡ true
received-is_signed s t who h n = ground arith

fixed-is_signed :
    (s t : PoStatus) (a : PoAction) (who : Option ℕ) (actor : ℕ)
    → target_status s a ≡ some t
    → is_signed s who ≡ true
    → is_signed t (if is_approve a then some actor else who) ≡ true
unfolding target_status
fixed-is_signed s t a who actor e n = ground arith

acted-is_signed :
    (po : PurchaseOrder) (a : PoAction) (t : PoStatus) (actor now : ℕ)
    → target_status po.status a ≡ some t
    → is_signed po.status po.approved_by ≡ true
    → is_signed (acted po a t actor now).status (acted po a t actor now).approved_by ≡ true
acted-is_signed po a t actor now e n = elim (Bool-cases (is_approve a)) [
  | inl yes_approve ↦
      rw yes_approve (rw yes_approve at (fixed-is_signed po.status t a po.approved_by actor e n))
  | inr other ↦ rw other (rw other at (fixed-is_signed po.status t a po.approved_by actor e n))
]

-- A call works on an order of the table.
abbrev Held : PurchaseOrder → Office → Type 0
Held po office = AllSigned office × (is_signed po.status po.approved_by ≡ true)

require_order-Held : (po_id : ℕ) → Triple AllSigned (require_order po_id) Held
require_order-Held po_id = record {
  at = λ office k. go office k (find_row order_key po_id office.orders) refl;
}
  where
    go :
        (office : Office)
        → AllSigned office
        → (o : Option PurchaseOrder) → find_row order_key po_id office.orders ≡ o
        → Ensures Held (or_raise o (AppError.not_found "Purchase order not found") office)
    go office k none e = tt
    go office k (some po) e = (
      k,
      find_row-All order_key (λ (po : PurchaseOrder). is_signed po.status po.approved_by ≡ true)
          po_id po office.orders e k,
    )

saved-AllSigned :
    (po : PurchaseOrder) (orders : List PurchaseOrder)
    → is_signed po.status po.approved_by ≡ true
    → All (λ (po : PurchaseOrder). is_signed po.status po.approved_by ≡ true) orders
    → All
        (λ (po : PurchaseOrder). is_signed po.status po.approved_by ≡ true)
        (set_row order_key po orders)
saved-AllSigned po orders n k =
    All-set_row order_key (λ (po : PurchaseOrder). is_signed po.status po.approved_by ≡ true) po
      orders n k

notify-AllSigned :
    (on : Bool) (po : PurchaseOrder) (office : Office)
    → AllSigned office
    → Ensures (λ _. AllSigned) (notify_approvers on po office)
notify-AllSigned on po office k = elim (Bool-cases (is_pending po.status)) [
  | inl waiting ↦ rw waiting (told on)
  | inr other ↦ rw other k
]
  where
    told :
        (b : Bool)
        → Ensures
            (λ _. AllSigned)
            ((if b
                then modify
                    (λ (office : Office). record office { awaiting = po.id ∷ office.awaiting })
                else pure tt)
              office)
    told true = k
    told false = k

act-AllSigned :
    (on : Bool) (po : PurchaseOrder) (a : PoAction) (comment : Option String) (actor : ℕ)
    (target : Option PoStatus)
    → target_status po.status a ≡ target
    → Triple (Held po) (act on po a comment actor target) (λ _. AllSigned)
act-AllSigned on po a comment actor none e = record { at = λ office k. tt }
act-AllSigned on po a comment actor (some target) e = record {
  at = λ office (k, n). notify-AllSigned on (acted po a target actor office.stock.now) _ (
      saved-AllSigned (acted po a target actor office.stock.now) office.orders
        (acted-is_signed po a target actor office.stock.now e n) k);
}

close-AllSigned :
    (fully : Bool) (po : PurchaseOrder) (user : ℕ) (office : Office)
    → AllSigned office
    → Ensures (λ _. AllSigned) (close_order fully po user office)
close-AllSigned true po user office k = k
close-AllSigned false po user office k = k

receive_goods-AllSigned :
    (user : ℕ) (po : PurchaseOrder) (req : ReceiveRequest) (lines : List PurchaseOrderLine)
    → is_receivable po.status ≡ true
    → is_signed po.status po.approved_by ≡ true
    → Triple AllSigned (receive_goods user po req lines) (λ _. AllSigned)
unfolding receive_goods
receive_goods-AllSigned user po req lines r n =
    Triple-bind (checked-given (apply_receipt (map line_state lines) (receipt_of req))) λ o.
      given λ e.
        Triple-bind
          (post_lines-keeps
            (All (λ (po : PurchaseOrder). is_signed po.status po.approved_by ≡ true)) user po
            (lines_by_id lines) o.lines)
          λ u. record {
            at = λ office k.
                close-AllSigned o.fully_received (received_order po o.resulting_status) user _ (
                  saved-AllSigned (received_order po o.resulting_status) office.orders
                    (received-is_signed po.status o.resulting_status po.approved_by r n) k);
          }

receive-AllSigned :
    (user po_id : ℕ) (req : ReceiveRequest)
    → Triple AllSigned (receive user po_id req) (λ _. AllSigned)
unfolding receive
receive-AllSigned user po_id req = Triple-bind (require_order-Held po_id) λ po. given λ n.
    Triple-bind (checked-given (assert_transition po.status receiving)) λ u. given λ legal. record {
      at = λ office k.
          (receive_goods-AllSigned user po req (lines_for po.id office.lines)
              (legal-receivable po.status u legal) n).at
            office k;
    }

apply_action-AllSigned :
    (on : Bool) (po_id : ℕ) (a : PoAction) (comment : Option String) (actor : ℕ)
    → Triple AllSigned (apply_action on po_id a comment actor) (λ _. AllSigned)
unfolding apply_action
apply_action-AllSigned on po_id a comment actor = Triple-bind (require_order-Held po_id) λ po.
    given λ n. Triple-bind (checked-given (assert_transition po.status a)) λ u. given λ legal.
      record {
        at = λ office k.
            (act-AllSigned on po a comment actor (target_status po.status a) refl).at office (k, n);
      }

run-AllSigned :
    (call : PoCall) (office : Office)
    → AllSigned office
    → Ensures (λ _. AllSigned) (run call office)
unfolding run
run-AllSigned (acting on po_id a comment actor) office k =
    (apply_action-AllSigned on po_id a comment actor).at office k
run-AllSigned (taking_in user po_id req) office k = (receive-AllSigned user po_id req).at office k

after-AllSigned :
    (office : Office) (r : Result (Unit {0} × Office))
    → AllSigned office
    → Ensures (λ _. AllSigned) r
    → AllSigned (office_after office r)
after-AllSigned office (ok (_, after)) k h = h
after-AllSigned office (err e) k h = k

-- If every order that is approved, sent, partially received or received names an approver, it is
-- so after every sequence of calls, returning or not.
pub run_all-AllSigned :
    (calls : List PoCall) (office : Office) → AllSigned office → AllSigned (run_all calls office)
unfolding run_all
run_all-AllSigned [] office k = k
run_all-AllSigned (call ∷ calls) office k =
    run_all-AllSigned calls (office_after office (run call office))
      (after-AllSigned office (run call office) k (run-AllSigned call office k))
