-- ===== src/Stock/Soundness/Inbound.antt =====
-- `receive`, `opening_balance` and `adjust` keep the invariant.
use inventory_management_sys.Base.{ℕ, refl, List, [], ◌∷◌, arith, All}
use inventory_management_sys.Base.Int.{pos, ◌+ℤ◌, ◌≤ℤ◌, ltb_ℤ, int_laws}
use inventory_management_sys.Base.Result.{Triple, Triple-bind}
use inventory_management_sys.Stock.Ledger.{on_hand}
use inventory_management_sys.Stock.Invariant.{IsSound}
use inventory_management_sys.Stock.Posting.{
  flow-Sound, get_or_create_locked-Locked, add_on_hand-Shifts, found_nonneg,
}
use inventory_management_sys.Stock.Context.{Call, add_on_hand}
use inventory_management_sys.Stock.Service.Inbound.{
  ReceiptLine, ReceiveStockRequest, receive_line, receive_lines, receive, OpeningBalance,
  opening_balance, AdjustStockRequest, adjust,
}
use inventory_management_sys.Stock.Soundness.Reads.{
  require_product-keeps, require_warehouse-keeps, raise_if-Triple,
}

pub receive_line-IsSound :
    (c : Call) (req : ReceiveStockRequest) (line : ReceiptLine)
    → pos 0 ≤ℤ line.quantity
    → Triple IsSound (receive_line c req line) (λ _. IsSound)
unfolding receive_line
receive_line-IsSound c req line h = Triple-bind (require_product-keeps line.product_id) λ _.
    Triple-bind (get_or_create_locked-Locked line.product_id req.warehouse_id) λ inv. record {
      at = λ db l.
          flow-Sound line.product_id req.warehouse_id inv (add_on_hand line.quantity inv)
            line.quantity _ l.found l.sound (add_on_hand-Shifts line.quantity inv)
            (record { of_product = refl; of_warehouse = refl; of_quantity = refl; flow = refl })
            (omega
              (int_laws, found_nonneg on_hand line.product_id req.warehouse_id l.found l.sound));
    }

receive_lines-IsSound :
    (c : Call) (req : ReceiveStockRequest) (lines : List ReceiptLine)
    → All (λ l. pos 0 ≤ℤ l.quantity) lines
    → Triple IsSound (receive_lines c req lines) (λ _. IsSound)
unfolding receive_lines
receive_lines-IsSound c req [] h = record { at = λ db s. s }
receive_lines-IsSound c req (line ∷ lines) (h, hs) =
    Triple-bind (receive_line-IsSound c req line h) λ _. receive_lines-IsSound c req lines hs

pub receive-IsSound :
    (c : Call) (req : ReceiveStockRequest)
    → All (λ l. pos 0 ≤ℤ l.quantity) req.lines
    → Triple IsSound (receive c req) (λ _. IsSound)
unfolding receive
receive-IsSound c req h =
    Triple-bind (require_warehouse-keeps req.warehouse_id)
      λ _. receive_lines-IsSound c req req.lines h

pub opening_balance-IsSound :
    (user : ℕ) (req : OpeningBalance) → Triple IsSound (opening_balance user req) (λ _. IsSound)
unfolding opening_balance
opening_balance-IsSound user req = raise_if-Triple (ltb_ℤ req.quantity (pos 0)) _ _ λ h.
    Triple-bind (require_warehouse-keeps req.warehouse_id) λ _.
      Triple-bind (require_product-keeps req.product_id) λ _.
        Triple-bind (get_or_create_locked-Locked req.product_id req.warehouse_id) λ inv. record {
          at = λ db l.
              flow-Sound req.product_id req.warehouse_id inv (add_on_hand req.quantity inv)
                req.quantity _ l.found l.sound (add_on_hand-Shifts req.quantity inv)
                (record { of_product = refl; of_warehouse = refl; of_quantity = refl; flow = refl })
                (grind (
                  int_laws,
                  found_nonneg on_hand req.product_id req.warehouse_id l.found l.sound,
                  h,
                ));
        }

pub adjust-IsSound :
    (c : Call) (req : AdjustStockRequest) → Triple IsSound (adjust c req) (λ _. IsSound)
unfolding adjust
adjust-IsSound c req = Triple-bind (require_warehouse-keeps req.warehouse_id) λ _.
    Triple-bind (require_product-keeps req.product_id) λ _.
      Triple-bind (get_or_create_locked-Locked req.product_id req.warehouse_id) λ inv.
        raise_if-Triple (ltb_ℤ (inv.qty_on_hand +ℤ req.delta) (pos 0)) _ _ λ h. record {
          at = λ db l.
              flow-Sound req.product_id req.warehouse_id inv (add_on_hand req.delta inv) req.delta _
                l.found l.sound (add_on_hand-Shifts req.delta inv)
                (record { of_product = refl; of_warehouse = refl; of_quantity = refl; flow = refl })
                (ground (arith, h));
        }
