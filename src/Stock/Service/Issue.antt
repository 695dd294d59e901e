-- ===== src/Stock/Service/Issue.antt =====
-- services/inventory_service.py: `issue` and the low-stock alert that it fires.
use inventory_management_sys.Base.{
  ℕ, String, ◌&&◌, Option, none, some, List, [], ◌∷◌, if◌then◌else◌,
}
use inventory_management_sys.Base.Int.{ℤ, pos, ◌+ℤ◌, ◌-ℤ◌, ltb_ℤ, leb_ℤ}
use inventory_management_sys.Base.Result.{
  business_rule, Tx, pure, raise, raise_if, gets, modify, ◌>>=◌, ◌>>◌,
}
use inventory_management_sys.Stock.Tables.{issue as issue_entry, Inventory, Product, Warehouse, Db}
use inventory_management_sys.Stock.Repository.{get_for_update, save, add_movement}
use inventory_management_sys.Stock.Context.{
  Call, Wiring, available, require_product, require_warehouse, movement, audit_movement,
  take_on_hand,
}

pub record IssueLine : Type 0 where
  pub product_id : ℕ
  pub quantity : ℤ

pub record IssueStockRequest : Type 0 where
  pub warehouse_id : ℕ
  pub lines : List IssueLine
  pub reference_type : Option String
  pub reference_id : Option ℕ
  pub reason : Option String

abbrev pub reorder_point_of : Option Product → Option ℤ
reorder_point_of none = none
reorder_point_of (some p) = p.reorder_point

abbrev pub branch_of : Option Warehouse → Option ℕ
branch_of none = none
branch_of (some w) = w.branch_id

abbrev pub alert : ℕ → ℕ → ℕ → ℤ → ℤ → Tx Db (Unit {0})
alert user p w left rop = do
  wh ← gets (λ (db : Db). db.warehouses w)
  modify λ (db : Db). record db {
    notifications =
        record {
          product_id = p;
          branch_id = branch_of wh;
          left = left;
          reorder_point = rop;
          actor_user_id = user;
        }
        ∷ db.notifications;
  }

abbrev pub alert_at : ℕ → ℕ → ℕ → Inventory → ℤ → Option ℤ → Tx Db (Unit {0})
alert_at user p w inv issued none = pure tt
alert_at user p w inv issued (some rop) =
    let after = available inv in
    let before = after +ℤ issued in
    if ltb_ℤ rop before && leb_ℤ after rop then alert user p w after rop else pure tt

unfoldable pub notify_low_stock : ℕ → ℕ → ℕ → Inventory → ℤ → Tx Db (Unit {0})
notify_low_stock user p w inv issued = do
  product ← gets (λ (db : Db). db.products p)
  alert_at user p w inv issued (reorder_point_of product)

abbrev pub issue_from : Wiring → Call → IssueStockRequest → IssueLine → Inventory → Tx Db (Unit {0})
issue_from wiring c req line inv = do
  raise_if (ltb_ℤ (available inv) line.quantity)
      (business_rule "Insufficient available stock to issue")
  let before = inv.qty_on_hand
  let inv' = take_on_hand line.quantity inv
  save inv'
  let mv = movement c issue_entry line.product_id req.warehouse_id (pos 0 -ℤ line.quantity)
  add_movement (record mv {
    reference_type = req.reference_type;
    reference_id = req.reference_id;
    reason = req.reason;
  })
  audit_movement c.user_id "stock.issue" inv' mv before
  if wiring.has_notifications
      then notify_low_stock c.user_id line.product_id req.warehouse_id inv' line.quantity
      else pure tt

abbrev pub issue_row :
    Wiring → Call → IssueStockRequest → IssueLine → Option Inventory → Tx Db (Unit {0})
issue_row wiring c req line none = raise (business_rule "Insufficient available stock to issue")
issue_row wiring c req line (some inv) = issue_from wiring c req line inv

unfoldable pub issue_line : Wiring → Call → IssueStockRequest → IssueLine → Tx Db (Unit {0})
issue_line wiring c req line = do
  require_product line.product_id
  found ← get_for_update line.product_id req.warehouse_id
  issue_row wiring c req line found

unfoldable pub issue_lines : Wiring → Call → IssueStockRequest → List IssueLine → Tx Db (Unit {0})
issue_lines wiring c req [] = pure tt
issue_lines wiring c req (line ∷ lines) =
    issue_line wiring c req line >> issue_lines wiring c req lines

unfoldable pub issue : Wiring → Call → IssueStockRequest → Tx Db (Unit {0})
issue wiring c req = do require_warehouse req.warehouse_id; issue_lines wiring c req req.lines
