-- ===== src/Procurement/Service/Receipt.antt =====
-- procurement/service.py: `receive`.
use inventory_management_sys.Base.{
  ℕ, String, Bool, false, Option, none, some, List, [], ◌∷◌, ◌==◌, ◌+◌, map, if◌then◌else◌,
}
use inventory_management_sys.Base.Int.{ℤ}
use inventory_management_sys.Base.Dict.{Dict, get, dict_of}
use inventory_management_sys.Base.Result.{internal, Tx, pure, gets, or_raise, ◌>>=◌, ◌>>◌}
use inventory_management_sys.Stock.Tables.{receipt, StockMovement, Db}
use inventory_management_sys.Stock.Repository.{save, add_movement}
use inventory_management_sys.Stock.Context.{Call, movement, get_or_create_locked, add_on_hand}
use inventory_management_sys.Procurement.States.{PoStatus, assert_transition, receive as receiving}
use inventory_management_sys.Procurement.Receiving.{LineState, LineReceipt, apply_receipt}
use inventory_management_sys.Procurement.Tables.{
  PurchaseOrder, PurchaseOrderLine, Office, on_stock, save_order, save_line,
}
use inventory_management_sys.Procurement.Service.{require_order, checked, record_event, audit}

pub record ReceiptLineIn : Type 0 where
  pub line_id : ℕ
  pub quantity : ℤ

pub record ReceiveRequest : Type 0 where
  pub lines : List ReceiptLineIn
  pub note : Option String

-- `lines_for_update`
unfoldable pub lines_for : ℕ → List PurchaseOrderLine → List PurchaseOrderLine
lines_for po_id [] = []
lines_for po_id (line ∷ lines) =
    let rest = lines_for po_id lines in if line.po_id == po_id then line ∷ rest else rest

abbrev pub line_state : PurchaseOrderLine → LineState
line_state line = record {
  line_id = line.id;
  product_id = line.product_id;
  ordered_qty = line.ordered_qty;
  already_received = line.received_qty;
}

abbrev pub lines_by_id : List PurchaseOrderLine → Dict PurchaseOrderLine
lines_by_id lines = dict_of (map (λ (line : PurchaseOrderLine). (line.id, line)) lines)

-- The receipt that a request gives: the later of two items for a line wins.
abbrev pub receipt_of : ReceiveRequest → Dict ℤ
receipt_of req = dict_of (map (λ (item : ReceiptLineIn). (item.line_id, item.quantity)) req.lines)

abbrev pub goods_movement : ℕ → PurchaseOrder → PurchaseOrderLine → ℤ → StockMovement
goods_movement user po line qty =
    let c : Call = record { user_id = user; occurred_at = none; historical = false } in
    let mv = movement c receipt line.product_id po.warehouse_id qty in
    record mv {
      reference_type = some "purchase_order";
      reference_id = some po.id;
      unit_cost = some line.unit_cost;
      reason = some "PO goods receipt";
    }

-- Book the received units of one line into the stock.
unfoldable pub book_line : ℕ → PurchaseOrder → PurchaseOrderLine → ℤ → Tx Db StockMovement
book_line user po line qty = do
  inv ← get_or_create_locked line.product_id po.warehouse_id
  save (add_on_hand qty inv)
  add_movement (goods_movement user po line qty)

-- One turn of the loop over `outcome.lines`.
unfoldable pub post_line :
    ℕ → PurchaseOrder → Dict PurchaseOrderLine → LineReceipt → Tx Office (Unit {0})
post_line user po index lr = do
  line ← or_raise (get lr.line_id index) (internal "KeyError")
  on_stock (book_line user po line lr.received_now)
  save_line (record line { received_qty = lr.new_received_total })

unfoldable pub post_lines :
    ℕ → PurchaseOrder → Dict PurchaseOrderLine → List LineReceipt → Tx Office (Unit {0})
post_lines user po index [] = pure tt
post_lines user po index (lr ∷ lrs) = post_line user po index lr >> post_lines user po index lrs

abbrev pub received_order : PurchaseOrder → PoStatus → PurchaseOrder
received_order po status = record po { status = status; version = po.version + 1 }

-- `if outcome.fully_received:`
abbrev pub close_order : Bool → PurchaseOrder → ℕ → Tx Office (Unit {0})
close_order fully po user =
    if fully
    then (do
      record_event po "closed" (some po.status) (some po.status) none user
      audit user "po.closed" po)
    else pure tt

unfoldable pub receive_goods :
    ℕ → PurchaseOrder → ReceiveRequest → List PurchaseOrderLine → Tx Office (Unit {0})
receive_goods user po req lines = do
  outcome ← checked (apply_receipt (map line_state lines) (receipt_of req))
  post_lines user po (lines_by_id lines) outcome.lines
  let po' = received_order po outcome.resulting_status
  save_order po'
  record_event po' "received" (some po.status) (some po'.status) req.note user
  audit user "goods.received" po'
  close_order outcome.fully_received po' user

unfoldable pub receive : ℕ → ℕ → ReceiveRequest → Tx Office (Unit {0})
receive user po_id req = do
  po ← require_order po_id
  checked (assert_transition po.status receiving)
  lines ← gets (λ (office : Office). lines_for po.id office.lines)
  receive_goods user po req lines
