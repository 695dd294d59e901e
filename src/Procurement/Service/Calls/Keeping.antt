-- ===== src/Procurement/Service/Calls/Keeping.antt =====
-- The calls keep the stock sound and no line over what is ordered.
use inventory_management_sys.Base.{
  ℕ, String, inl, inr, Bool, true, false, Bool-cases, Option, none, some, List, [], ◌∷◌,
  if◌then◌else◌,
}
use inventory_management_sys.Base.Table.{find_row}
use inventory_management_sys.Base.Result.{
  AppError, Result, ok, err, or_raise, Ensures, Triple, Triple-bind, given, modify, pure,
}
use inventory_management_sys.Procurement.Tables.{PurchaseOrder, Office, order_key}
use inventory_management_sys.Procurement.States.{
  PoAction, PoStatus, assert_transition, target_status, receive as receiving,
}
use inventory_management_sys.Procurement.Service.{require_order, act, apply_action}
use inventory_management_sys.Procurement.Service.Receipt.{ReceiveRequest, lines_for, receive}
use inventory_management_sys.Procurement.Service.Calls.{
  PoCall, acting, taking_in, run, office_after, run_all,
}
use inventory_management_sys.Procurement.Service.{notify_approvers, acted, is_pending}
use inventory_management_sys.Procurement.Service.Calls.Goods.{
  Kept, checked-given, receive_goods-Kept,
}

require_order-Kept : (po_id : ℕ) → Triple Kept (require_order po_id) (λ _. Kept)
require_order-Kept po_id = record {
  at = λ office k. go office k (find_row order_key po_id office.orders);
}
  where
    go :
        (office : Office)
        → Kept office
        → (o : Option PurchaseOrder)
        → Ensures (λ _. Kept) (or_raise o (AppError.not_found "Purchase order not found") office)
    go office k none = tt
    go office k (some po) = k

receive-Kept :
    (user po_id : ℕ) (req : ReceiveRequest) → Triple Kept (receive user po_id req) (λ _. Kept)
unfolding receive
receive-Kept user po_id req = Triple-bind (require_order-Kept po_id) λ po.
    Triple-bind (checked-given (assert_transition po.status receiving)) λ u. given λ e. record {
      at = λ office k. (receive_goods-Kept user po (lines_for po.id office.lines) req).at office k;
    }

notify-Kept :
    (on : Bool) (po : PurchaseOrder) (office : Office)
    → Kept office
    → Ensures (λ _. Kept) (notify_approvers on po office)
notify-Kept on po office k = elim (Bool-cases (is_pending po.status)) [
  | inl waiting ↦ rw waiting (told on)
  | inr other ↦ rw other k
]
  where
    told :
        (b : Bool)
        → Ensures
            (λ _. Kept)
            ((if b
                then modify
                    (λ (office : Office). record office { awaiting = po.id ∷ office.awaiting })
                else pure tt)
              office)
    told true = record { sound = k.sound; within = k.within }
    told false = k

act-Kept :
    (on : Bool) (po : PurchaseOrder) (a : PoAction) (comment : Option String) (actor : ℕ)
    (target : Option PoStatus)
    → Triple Kept (act on po a comment actor target) (λ _. Kept)
act-Kept on po a comment actor none = record { at = λ office k. tt }
act-Kept on po a comment actor (some target) = record {
  at = λ office k.
      notify-Kept on (acted po a target actor office.stock.now) _
        (record { sound = k.sound; within = k.within });
}

-- Any call from tables where the stock is sound and no line of an order has received more than is
-- ordered raises, or leaves tables of which both are true.
pub run-Kept :
    (call : PoCall) (office : Office) → Kept office → Ensures (λ _. Kept) (run call office)
unfolding run apply_action
run-Kept (acting on po_id a comment actor) office k =
    (Triple-bind (require_order-Kept po_id) λ po.
        Triple-bind (checked-given (assert_transition po.status a))
          λ u. given λ e. act-Kept on po a comment actor (target_status po.status a)).at
      office k
run-Kept (taking_in user po_id req) office k = (receive-Kept user po_id req).at office k

after-Kept :
    (office : Office) (r : Result (Unit {0} × Office))
    → Kept office
    → Ensures (λ _. Kept) r
    → Kept (office_after office r)
after-Kept office (ok (_, after)) k h = h
after-Kept office (err e) k h = k

-- From tables where the stock is sound and no line has received more than is ordered, every
-- sequence of calls, returning or not, leads to tables where both hold again.
pub run_all-Kept :
    (calls : List PoCall) (office : Office) → Kept office → Kept (run_all calls office)
unfolding run_all
run_all-Kept [] office k = k
run_all-Kept (call ∷ calls) office k =
    run_all-Kept calls (office_after office (run call office))
      (after-Kept office (run call office) k (run-Kept call office k))
