-- ===== src/Stock/Context.antt =====
-- services/inventory_service.py: what the operations share, that is the helpers of
-- `InventoryService` and the keyword arguments that every call takes.
use inventory_management_sys.Base.{ℕ, String, Bool, Option, none, some, ◌∷◌, ◌+◌}
use inventory_management_sys.Base.Int.{ℤ, ◌-ℤ◌, ◌+ℤ◌}
use inventory_management_sys.Base.Result.{not_found, Tx, pure, gets, modify, or_raise, ◌>>=◌}
use inventory_management_sys.Stock.Tables.{
  MovementType, Inventory, StockMovement, StockAudit, Product, Warehouse, Db,
}
use inventory_management_sys.Stock.Repository.{get_for_update, create}

-- `user_id`, `occurred_at` and `historical`.
pub record Call : Type 0 where
  pub user_id : ℕ
  pub occurred_at : Option ℕ
  pub historical : Bool

-- Which optional collaborators the service was built with.
pub record Wiring : Type 0 where
  pub has_reservations : Bool
  pub has_notifications : Bool

abbrev pub available : Inventory → ℤ
available inv = inv.qty_on_hand -ℤ inv.qty_reserved -ℤ inv.qty_damaged

abbrev pub require_product : ℕ → Tx Db Product
require_product p = do
  found ← gets (λ (db : Db). db.products p)
  or_raise found (not_found "Product not found")

abbrev pub require_warehouse : ℕ → Tx Db Warehouse
require_warehouse w = do
  found ← gets (λ (db : Db). db.warehouses w)
  or_raise found (not_found "Warehouse not found")

abbrev pub or_create : ℕ → ℕ → Option Inventory → Tx Db Inventory
or_create p w none = create p w
or_create p w (some inv) = pure inv

unfoldable pub get_or_create_locked : ℕ → ℕ → Tx Db Inventory
get_or_create_locked p w = do found ← get_for_update p w; or_create p w found

-- The columns that the movements of the service share; each call gives the others anew.
abbrev pub movement : Call → MovementType → ℕ → ℕ → ℤ → StockMovement
movement c kind p w q = record {
  movement_type = kind;
  product_id = p;
  warehouse_id = w;
  quantity = q;
  reference_type = none;
  reference_id = none;
  from_warehouse_id = none;
  to_warehouse_id = none;
  unit_cost = none;
  reason = none;
  user_id = some c.user_id;
  occurred_at = c.occurred_at;
  imported_historical = c.historical;
}

-- `_audit_movement`; the free-form extra context is not kept.
abbrev pub audit_row : ℕ → String → Inventory → StockMovement → ℤ → StockAudit
audit_row user action inv m before = record {
  user_id = user;
  action = action;
  product_id = inv.product_id;
  warehouse_id = inv.warehouse_id;
  movement_type = m.movement_type;
  quantity = m.quantity;
  on_hand_before = before;
  on_hand_after = inv.qty_on_hand;
}

abbrev pub audit_movement : ℕ → String → Inventory → StockMovement → ℤ → Tx Db (Unit {0})
audit_movement user action inv m before =
    modify
      λ (db : Db). record db { audit_logs = audit_row user action inv m before ∷ db.audit_logs }

-- The row after `delta` more units on hand: the assignment and the version counter.
abbrev pub add_on_hand : ℤ → Inventory → Inventory
add_on_hand delta inv = record inv {
  qty_on_hand = inv.qty_on_hand +ℤ delta;
  version = inv.version + 1;
}

-- `inv.qty_on_hand = before - quantity`
abbrev pub take_on_hand : ℤ → Inventory → Inventory
take_on_hand q inv = record inv { qty_on_hand = inv.qty_on_hand -ℤ q; version = inv.version + 1 }
