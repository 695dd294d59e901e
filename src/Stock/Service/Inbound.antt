-- ===== src/Stock/Service/Inbound.antt =====
-- services/inventory_service.py: `receive`, `opening_balance` and `adjust`.
use inventory_management_sys.Base.{ℕ, String, true, Option, some, List, [], ◌∷◌}
use inventory_management_sys.Base.Int.{ℤ, pos, ◌+ℤ◌, ltb_ℤ}
use inventory_management_sys.Base.Result.{business_rule, Tx, pure, raise_if, ◌>>=◌, ◌>>◌}
use inventory_management_sys.Stock.Tables.{
  receipt, adjustment, opening_balance as opening_entry, Db,
}
use inventory_management_sys.Stock.Repository.{save, add_movement}
use inventory_management_sys.Stock.Context.{
  Call, require_product, require_warehouse, get_or_create_locked, movement, audit_movement,
  add_on_hand,
}

pub record ReceiptLine : Type 0 where
  pub product_id : ℕ
  pub quantity : ℤ
  pub unit_cost : Option ℤ

pub record ReceiveStockRequest : Type 0 where
  pub warehouse_id : ℕ
  pub lines : List ReceiptLine
  pub reference_type : Option String
  pub reference_id : Option ℕ

unfoldable pub receive_line : Call → ReceiveStockRequest → ReceiptLine → Tx Db (Unit {0})
receive_line c req line = do
  require_product line.product_id
  inv ← get_or_create_locked line.product_id req.warehouse_id
  let before = inv.qty_on_hand
  let inv' = add_on_hand line.quantity inv
  save inv'
  let mv = movement c receipt line.product_id req.warehouse_id line.quantity
  add_movement (record mv {
    reference_type = req.reference_type;
    reference_id = req.reference_id;
    unit_cost = line.unit_cost;
  })
  audit_movement c.user_id "stock.receive" inv' mv before

-- The `for` loop over the lines.
unfoldable pub receive_lines : Call → ReceiveStockRequest → List ReceiptLine → Tx Db (Unit {0})
receive_lines c req [] = pure tt
receive_lines c req (line ∷ lines) = receive_line c req line >> receive_lines c req lines

unfoldable pub receive : Call → ReceiveStockRequest → Tx Db (Unit {0})
receive c req = do require_warehouse req.warehouse_id; receive_lines c req req.lines

pub record OpeningBalance : Type 0 where
  pub product_id : ℕ
  pub warehouse_id : ℕ
  pub quantity : ℤ
  pub as_of : ℕ
  pub reference_id : Option ℕ
  pub unit_cost : Option ℤ

unfoldable pub opening_balance : ℕ → OpeningBalance → Tx Db (Unit {0})
opening_balance user req = do
  raise_if (ltb_ℤ req.quantity (pos 0)) (business_rule "Opening balance cannot be negative")
  require_warehouse req.warehouse_id
  require_product req.product_id
  inv ← get_or_create_locked req.product_id req.warehouse_id
  let before = inv.qty_on_hand
  let inv' = add_on_hand req.quantity inv
  save inv'
  let c : Call = record { user_id = user; occurred_at = some req.as_of; historical = true }
  let mv = movement c opening_entry req.product_id req.warehouse_id req.quantity
  add_movement (record mv {
    reference_type = some "opening_balance";
    reference_id = req.reference_id;
    unit_cost = req.unit_cost;
    reason = some "Reconstruction opening balance";
  })
  audit_movement user "stock.opening_balance" inv' mv before

pub record AdjustStockRequest : Type 0 where
  pub warehouse_id : ℕ
  pub product_id : ℕ
  pub delta : ℤ
  pub reason : String

unfoldable pub adjust : Call → AdjustStockRequest → Tx Db (Unit {0})
adjust c req = do
  require_warehouse req.warehouse_id
  require_product req.product_id
  inv ← get_or_create_locked req.product_id req.warehouse_id
  let before = inv.qty_on_hand
  raise_if (ltb_ℤ (before +ℤ req.delta) (pos 0))
      (business_rule "Adjustment would drive on-hand quantity below zero")
  let inv' = add_on_hand req.delta inv
  save inv'
  let mv = movement c adjustment req.product_id req.warehouse_id req.delta
  add_movement (record mv { reference_type = some "manual"; reason = some req.reason })
  audit_movement c.user_id "stock.adjust" inv' mv before
