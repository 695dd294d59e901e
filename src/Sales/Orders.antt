-- ===== src/Sales/Orders.antt =====
-- sales/service.py: confirming, cancelling and delivering a sales order, with the stock effects of
-- sales/repository.py.
pub mod Delivering
pub mod Calls
pub mod Shelf
pub mod Keeping
pub mod Fulfilled
mod Examples
use inventory_management_sys.Base.{
  ℕ, String, Bool, true, false, ◌||◌, not, Option, none, some, List, [], ◌∷◌, map, if◌then◌else◌,
}
use inventory_management_sys.Base.Int.{ℤ, pos, ◌+ℤ◌, ◌-ℤ◌, leb_ℤ, ltb_ℤ, min_ℤ, max_ℤ}
use inventory_management_sys.Base.Dict.{Dict, get, dict_of}
use inventory_management_sys.Base.Table.{find_row}
use inventory_management_sys.Base.Result.{
  not_found, business_rule, Tx, Result, ok, err, pure, raise, raise_if, gets, modify, or_raise,
  ◌>>=◌, ◌>>◌,
}
use inventory_management_sys.Stock.Tables.{Inventory, InventoryReservation, Db}
use inventory_management_sys.Stock.Repository.{get_for_update}
use inventory_management_sys.Stock.Reservations.{active_for, reserve, release}
use inventory_management_sys.Stock.Context.{Call, Wiring, available}
use inventory_management_sys.Stock.Service.Held.{HeldIssue, issue_against_reservation}
use inventory_management_sys.Sales.{
  SalesOrderStatus, so_draft, so_confirmed, so_reserved, so_picking, so_partially_delivered,
  so_cancelled, is_deliverable, is_cancellable, so_delivery_outcome,
}
use inventory_management_sys.Sales.Tables.{
  SalesOrderLine, SalesOrder, DeliveryNoteLine, DeliveryNote, Shop, so_key, on_shelf, save_so,
  add_delivery,
}

-- `SO_LINE_REF`
abbrev pub so_line_ref : String
so_line_ref = "sales_order_line"

abbrev pub require_so : ℕ → Tx Shop SalesOrder
require_so so_id = do
  found ← gets (λ (shop : Shop). find_row so_key so_id shop.orders)
  or_raise found (not_found "Sales order not found")

abbrev pub add_audit : String → ℕ → ℕ → String → Tx Shop (Unit {0})
add_audit entity id user action = modify λ (shop : Shop). record shop {
  sales_audit =
      record { entity_type = entity; entity_id = id; user_id = user; action = action }
      ∷ shop.sales_audit;
}

-- The error message of `reserve_line`, if it returns one.
abbrev pub hold_for : SalesOrderLine → ℕ → Option Inventory → Tx Db (Option String)
hold_for line user none = pure (some "Insufficient available stock for product")
hold_for line user (some inv) =
    if ltb_ℤ (available inv) line.qty
    then pure (some "Insufficient available stock for product")
    else (do reserve inv line.qty line.id (some user) so_line_ref; pure none)

unfoldable pub reserve_so_line : SalesOrderLine → ℕ → ℕ → Tx Db (Option String)
reserve_so_line line location user =
    if leb_ℤ line.qty (pos 0)
    then pure none
    else do found ← get_for_update line.product_id location; hold_for line user found

abbrev pub release_on : ℕ → InventoryReservation → Option Inventory → Tx Db (Unit {0})
release_on user r none = pure tt
release_on user r (some inv) = do release inv r (some user); pure tt

abbrev pub release_one : ℕ → Option InventoryReservation → Tx Db (Unit {0})
release_one user none = pure tt
release_one user (some r) = do
  found ← get_for_update r.product_id r.warehouse_id
  release_on user r found

unfoldable pub release_reservation : ℕ → ℕ → Tx Db (Unit {0})
release_reservation line_id user = do hold ← active_for line_id so_line_ref; release_one user hold

-- Confirmation: every line is held, or nothing is.
abbrev pub fail_with : Option String → Tx Shop (Unit {0})
fail_with none = pure tt
fail_with (some message) = raise (business_rule message)

unfoldable pub reserve_lines : ℕ → ℕ → List SalesOrderLine → Tx Shop (List SalesOrderLine)
reserve_lines location user [] = pure []
reserve_lines location user (line ∷ lines) = do
  problem ← on_shelf (reserve_so_line line location user)
  fail_with problem
  lines' ← reserve_lines location user lines
  pure (record line { reserved_qty = line.qty } ∷ lines')

abbrev pub is_so_draft : SalesOrderStatus → Bool
is_so_draft so_draft = true
is_so_draft _ = false

unfoldable pub confirm_sales_order : ℕ → ℕ → Tx Shop (Unit {0})
confirm_sales_order user so_id = do
  so ← require_so so_id
  raise_if (not (is_so_draft so.status)) (business_rule "Only a draft sales order can be confirmed")
  location ←
      or_raise so.location_id (business_rule "A selling location is required to reserve stock.")
  lines ← reserve_lines location user so.lines
  now ← gets (λ (shop : Shop). shop.stock.now)
  save_so (record so { lines = lines; status = so_confirmed; confirmed_at = some now })
  add_audit "sales_order" so.id user "confirmed"

-- Cancellation: what is held is released.
unfoldable pub release_lines : ℕ → List SalesOrderLine → Tx Shop (List SalesOrderLine)
release_lines user [] = pure []
release_lines user (line ∷ lines) = do
  on_shelf (release_reservation line.id user)
  lines' ← release_lines user lines
  pure (record line { reserved_qty = pos 0 } ∷ lines')

-- `status in SO_OPEN_RESERVED`
abbrev pub is_open_reserved : SalesOrderStatus → Bool
is_open_reserved so_confirmed = true
is_open_reserved so_reserved = true
is_open_reserved so_picking = true
is_open_reserved so_partially_delivered = true
is_open_reserved _ = false

abbrev pub noted : Option String → Option String → Option String
noted none notes = notes
noted (some reason) notes = some reason

unfoldable pub cancel_sales_order : ℕ → ℕ → Option String → Tx Shop (Unit {0})
cancel_sales_order user so_id reason = do
  so ← require_so so_id
  raise_if (not (is_cancellable so.status))
      (business_rule "Cannot cancel a sales order in this status")
  lines ← if is_open_reserved so.status then release_lines user so.lines else pure so.lines
  save_so (record so { lines = lines; status = so_cancelled; notes = noted reason so.notes })
  add_audit "sales_order" so.id user "cancelled"
