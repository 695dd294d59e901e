-- ===== src/Stock/Service/Relocate.antt =====
-- services/inventory_service.py: `transfer`.
use inventory_management_sys.Base.{ℕ, String, Option, some, leb, ◌==◌, if◌then◌else◌}
use inventory_management_sys.Base.Int.{ℤ, pos, ◌-ℤ◌, ltb_ℤ}
use inventory_management_sys.Base.Result.{business_rule, Tx, pure, raise_if, ◌>>=◌, ◌>>◌}
use inventory_management_sys.Stock.Tables.{transfer_in, transfer_out, Inventory, Db}
use inventory_management_sys.Stock.Repository.{save, add_movement}
use inventory_management_sys.Stock.Context.{
  Call, available, require_product, require_warehouse, get_or_create_locked, movement,
  audit_movement, add_on_hand, take_on_hand,
}

pub record TransferStockRequest : Type 0 where
  pub product_id : ℕ
  pub from_warehouse_id : ℕ
  pub to_warehouse_id : ℕ
  pub quantity : ℤ
  pub reason : Option String

-- Both rows, source first, locked in the order of the warehouse ids.
unfoldable pub lock_both : ℕ → ℕ → ℕ → Tx Db (Inventory × Inventory)
lock_both p from to =
    if leb from to
    then (do src ← get_or_create_locked p from; dst ← get_or_create_locked p to; pure (src, dst))
    else do dst ← get_or_create_locked p to; src ← get_or_create_locked p from; pure (src, dst)

-- The writes, once the source row has been found to suffice.
unfoldable pub move : Call → TransferStockRequest → Inventory → Inventory → Tx Db (Unit {0})
move c req src dst = do
  let src' = take_on_hand req.quantity src
  let dst' = add_on_hand req.quantity dst
  save src'
  save dst'
  let out_mv = movement c transfer_out req.product_id req.from_warehouse_id (pos 0 -ℤ req.quantity)
  let in_mv = movement c transfer_in req.product_id req.to_warehouse_id req.quantity
  add_movement (record out_mv {
    reference_type = some "transfer";
    from_warehouse_id = some req.from_warehouse_id;
    to_warehouse_id = some req.to_warehouse_id;
    reason = req.reason;
  })
  add_movement (record in_mv {
    reference_type = some "transfer";
    from_warehouse_id = some req.from_warehouse_id;
    to_warehouse_id = some req.to_warehouse_id;
    reason = req.reason;
  })
  audit_movement c.user_id "stock.transfer" src' out_mv src.qty_on_hand
  audit_movement c.user_id "stock.transfer" dst' in_mv dst.qty_on_hand

abbrev pub move_available : Call → TransferStockRequest → Inventory × Inventory → Tx Db (Unit {0})
move_available c req (src, dst) = do
  raise_if (ltb_ℤ (available src) req.quantity)
      (business_rule "Insufficient available stock to transfer")
  move c req src dst

unfoldable pub transfer : Call → TransferStockRequest → Tx Db (Unit {0})
transfer c req = do
  raise_if (req.from_warehouse_id == req.to_warehouse_id)
      (business_rule "Source and destination warehouses must differ")
  require_product req.product_id
  require_warehouse req.from_warehouse_id
  require_warehouse req.to_warehouse_id
  locked ← lock_both req.product_id req.from_warehouse_id req.to_warehouse_id
  move_available c req locked
