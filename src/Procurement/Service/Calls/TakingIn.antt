-- ===== src/Procurement/Service/Calls/TakingIn.antt =====
-- A goods receipt moves the status of its order one step, and no other.
use inventory_management_sys.Base.{
  ℕ, ◌≡◌, ap, ◌⊎◌, inl, inr, Bool, true, false, Option, none, some, List, [], ◌∷◌, map, arith,
}
use inventory_management_sys.Base.Int.{ℤ}
use inventory_management_sys.Base.Dict.{Dict, get}
use inventory_management_sys.Base.Result.{
  AppError, internal, Tx, Result, ok, err, or_raise, Ensures, Triple, Triple-bind,
}
use inventory_management_sys.Stock.Tables.{Db}
use inventory_management_sys.Procurement.Tables.{PurchaseOrder, PurchaseOrderLine, Office, on_stock}
use inventory_management_sys.Procurement.States.{
  PoStatus, received, partially_received, done, is_receivable, can_transition, assert_transition,
  receive as receiving,
}
use inventory_management_sys.Procurement.States.Workflow.{Step, some_received, all_received}
use inventory_management_sys.Procurement.Receiving.{
  LineState, LineReceipt, ReceiptOutcome, apply_receipt,
}
use inventory_management_sys.Procurement.Service.Receipt.{
  ReceiveRequest, line_state, lines_for, lines_by_id, receipt_of, book_line, post_line, post_lines,
  received_order, close_order, receive_goods, receive,
}
use inventory_management_sys.Procurement.Service.Calls.Status.{
  Found, require_order-Found, Ok, saved-Ok, checked-keeps,
}

module _ {ℓ} (Q : List PurchaseOrder → Type ℓ) where
  abbrev pub OfOrders : Office → Type ℓ
  OfOrders office = Q office.orders

  on_stock-keeps : {A : Type 0} (m : Tx Db A) → Triple OfOrders (on_stock m) (λ _. OfOrders)
  on_stock-keeps {A} m = record { at = λ office q. go office q (m office.stock) }
    where
      go :
          (office : Office)
          → OfOrders office
          → (r : Result (A × Db))
          → Ensures
              (λ _. OfOrders)
              (elim r [ ok (a, db) ↦ ok (a, record office { stock = db }) | err e ↦ err e ])
      go office q (ok (a, db)) = q
      go office q (err e) = tt

  line-keeps :
      (o : Option PurchaseOrderLine) (e : AppError) → Triple OfOrders (or_raise o e) (λ _. OfOrders)
  line-keeps none e = record { at = λ office q. tt }
  line-keeps (some line) e = record { at = λ office q. q }

  post_line-keeps :
      (user : ℕ) (po : PurchaseOrder) (index : Dict PurchaseOrderLine) (lr : LineReceipt)
      → Triple OfOrders (post_line user po index lr) (λ _. OfOrders)
  unfolding post_line
  post_line-keeps user po index lr =
      Triple-bind (line-keeps (get lr.line_id index) (internal "KeyError")) λ line.
        Triple-bind (on_stock-keeps (book_line user po line lr.received_now))
          λ u. record { at = λ office q. q }

  pub post_lines-keeps :
      (user : ℕ) (po : PurchaseOrder) (index : Dict PurchaseOrderLine) (lrs : List LineReceipt)
      → Triple OfOrders (post_lines user po index lrs) (λ _. OfOrders)
  unfolding post_lines
  post_lines-keeps user po index [] = record { at = λ office q. q }
  post_lines-keeps user po index (lr ∷ lrs) =
      Triple-bind (post_line-keeps user po index lr) λ u. post_lines-keeps user po index lrs

-- The two statuses that a receipt may end in.
abbrev pub EndsIn : ReceiptOutcome → Type 0
EndsIn o = (o.resulting_status ≡ received) ⊎ (o.resulting_status ≡ partially_received)

pub apply_receipt-EndsIn :
    (ls : List LineState) (receipt : Dict ℤ) (o : ReceiptOutcome)
    → apply_receipt ls receipt ≡ done o
    → EndsIn o
unfolding apply_receipt
apply_receipt-EndsIn ls [] o e = absurd (ground arith)
apply_receipt-EndsIn ls (item ∷ rest) o e = ground arith

pub legal-receivable :
    (s : PoStatus) (u : Unit {0}) → assert_transition s receiving ≡ done u → is_receivable s ≡ true
unfolding assert_transition can_transition
legal-receivable s u e = ground arith

module _ (office : Office) (po_id k : ℕ) where
  close-Ok :
      (fully : Bool) (po : PurchaseOrder) (user : ℕ) (office' : Office)
      → Ok office po_id k office'
      → Ensures (λ _. Ok office po_id k) (close_order fully po user office')
  close-Ok true po user office' h = h
  close-Ok false po user office' h = h

  EndsIn-Step :
      (po : PurchaseOrder) (o : ReceiptOutcome)
      → is_receivable po.status ≡ true
      → EndsIn o
      → Step po.status o.resulting_status
  EndsIn-Step po o r (inl e) = all_received r e
  EndsIn-Step po o r (inr e) = some_received r e

  abbrev Same : Office → Type 0
  Same office' = office'.orders ≡ office.orders

  receive_goods-Ok :
      (user : ℕ) (po : PurchaseOrder) (req : ReceiveRequest) (lines : List PurchaseOrderLine)
      → is_receivable po.status ≡ true
      → Triple (Found office po_id po) (receive_goods user po req lines) (λ _. Ok office po_id k)
  unfolding receive_goods
  receive_goods-Ok user po req lines r =
      Triple-bind
        (checked-keeps office po_id k (Found office po_id po)
          (apply_receipt (map line_state lines) (receipt_of req)))
        λ o. record {
          at = λ office' (f, e).
              (Triple-bind
                  (post_lines-keeps (λ orders. orders ≡ office.orders) user po (lines_by_id lines)
                    o.lines)
                  (λ u. record {
                    at = λ office'' same.
                        close-Ok o.fully_received (received_order po o.resulting_status) user _ (
                          saved-Ok office po_id k po (received_order po o.resulting_status)
                            office''.orders f.found f.id
                            (EndsIn-Step po o r
                              (apply_receipt-EndsIn (map line_state lines) (receipt_of req) o e))
                            same);
                  })).at
                office' (ap (λ (x : Office). x.orders) f.same);
        }

  pub receive-Ok :
      (user : ℕ) (req : ReceiveRequest)
      → Triple (λ office'. office' ≡ office) (receive user po_id req) (λ _. Ok office po_id k)
  unfolding receive
  receive-Ok user req = Triple-bind (require_order-Found office po_id) λ po.
      Triple-bind
        (checked-keeps office po_id k (Found office po_id po)
          (assert_transition po.status receiving))
        λ u. record {
          at = λ office' (f, legal).
              (receive_goods-Ok user po req (lines_for po.id office'.lines)
                  (legal-receivable po.status u legal)).at
                office' f;
        }
