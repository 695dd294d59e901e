-- ===== src/OrderRequests/Repository.antt =====
-- order_requests/repository.py: what the lines of a request do to the stock.
use inventory_management_sys.Base.{
  ℕ, String, false, ◌&&◌, ◌||◌, Option, none, some, List, [], ◌∷◌, ◌+◌, if◌then◌else◌,
}
use inventory_management_sys.Base.Int.{ℤ, pos, ◌+ℤ◌, ◌-ℤ◌, leb_ℤ, ltb_ℤ, eqb_ℤ}
use inventory_management_sys.Base.Result.{internal, Tx, pure, gets, raise_if, ◌>>=◌, ◌>>◌}
use inventory_management_sys.Stock.Tables.{
  MovementType, issue as issue_entry, transfer_in, transfer_out, damage, Inventory, StockMovement,
  released, InventoryReservation, Db,
}
use inventory_management_sys.Stock.Repository.{get_for_update, save, add_movement}
use inventory_management_sys.Stock.Reservations.{ref_type, active_for, reserve, release, save_hold}
use inventory_management_sys.Stock.Context.{
  Call, available, movement, get_or_create_locked, take_on_hand,
}
use inventory_management_sys.Stock.Service.Held.{consume_own}
use inventory_management_sys.OrderRequests.Tables.{RequestLine}

-- The error string that a function returns, or the line afterwards.
pub data LineResult : Type 0 where
  refused : String → LineResult
  updated : RequestLine → LineResult

-- A row that covers the quantity, or none.
abbrev pub hold_units : RequestLine → ℤ → ℕ → Option Inventory → Tx Db LineResult
hold_units line qty user none = pure (refused "Insufficient available stock for product")
hold_units line qty user (some inv) =
    if ltb_ℤ (available inv) qty
    then pure (refused "Insufficient available stock for product")
    else (do reserve inv qty line.id (some user) ref_type; pure (updated line))

unfoldable pub reserve_line : RequestLine → ℕ → ℤ → ℕ → Tx Db LineResult
reserve_line line source qty user =
    if leb_ℤ qty (pos 0)
    then pure (updated line)
    else do found ← get_for_update line.product_id source; hold_units line qty user found

-- Without a row for the hold, only its status is changed.
abbrev pub release_held : ℕ → InventoryReservation → Option Inventory → Tx Db (Unit {0})
release_held user r none = do
  now ← gets (λ (db : Db). db.now)
  save_hold r (record r { status = released; released_at = some now })
release_held user r (some inv) = do release inv r (some user); pure tt

abbrev pub release_found : ℕ → Option InventoryReservation → Tx Db (Unit {0})
release_found user none = pure tt
release_found user (some r) = do
  found ← get_for_update r.product_id r.warehouse_id
  release_held user r found

unfoldable pub release_reservations : List RequestLine → ℕ → Tx Db (Unit {0})
release_reservations [] user = pure tt
release_reservations (line ∷ lines) user = do
  hold ← active_for line.id ref_type
  release_found user hold
  release_reservations lines user

-- The row and the hold are there: give the hold up, take the units, and write the movement.
unfoldable pub take_units : StockMovement → ℕ → RequestLine → ℤ → Inventory → Tx Db LineResult
take_units mv user line qty inv = do
  hold ← active_for line.id ref_type
  inv' ← consume_own qty user inv hold
  save (take_on_hand qty inv')
  add_movement mv
  pure (updated (record line { issued_qty = line.issued_qty +ℤ qty }))

abbrev pub take_from : StockMovement → ℕ → RequestLine → ℤ → Option Inventory → Tx Db LineResult
take_from mv user line qty none = pure (refused "Insufficient stock for product")
take_from mv user line qty (some inv) =
    if ltb_ℤ inv.qty_on_hand qty
    then pure (refused "Insufficient stock for product")
    else take_units mv user line qty inv

-- The columns that the movements of a request share.
abbrev pub request_movement : ℕ → ℕ → MovementType → RequestLine → ℕ → ℤ → StockMovement
request_movement request_id user kind line location qty =
    let c : Call = record { user_id = user; occurred_at = none; historical = false } in
    let mv = movement c kind line.product_id location qty in
    record mv { reference_type = some "order_request"; reference_id = some request_id }

abbrev pub issue_movement : ℕ → ℕ → RequestLine → ℕ → ℤ → StockMovement
issue_movement request_id user line source qty =
    let mv = request_movement request_id user issue_entry line source (pos 0 -ℤ qty) in
    record mv { reason = some "Order request issue" }

unfoldable pub issue_line : ℕ → ℕ → RequestLine → ℕ → ℤ → Tx Db LineResult
issue_line request_id user line source qty = if leb_ℤ qty (pos 0) then pure (updated line) else do
  found ← get_for_update line.product_id source
  take_from (issue_movement request_id user line source qty) user line qty found

abbrev pub transfer_movement : ℕ → ℕ → RequestLine → ℕ → ℕ → ℤ → StockMovement
transfer_movement request_id user line source dest qty =
    let mv = request_movement request_id user transfer_out line source (pos 0 -ℤ qty) in
    record mv {
      from_warehouse_id = some source;
      to_warehouse_id = some dest;
      reason = some "Order request transfer (issued)";
    }

unfoldable pub transfer_line : ℕ → ℕ → RequestLine → ℕ → ℕ → ℤ → Tx Db LineResult
transfer_line request_id user line source dest qty =
    if leb_ℤ qty (pos 0) then pure (updated line) else do
      found ← get_for_update line.product_id source
      take_from (transfer_movement request_id user line source dest qty) user line qty found

abbrev pub arrival : ℕ → ℕ → MovementType → String → RequestLine → ℕ → ℤ → StockMovement
arrival request_id user kind why line dest qty =
    let mv = request_movement request_id user kind line dest qty in
    record mv { to_warehouse_id = some dest; reason = some why }

-- `if received != 0:`
unfoldable pub credit_good : ℕ → ℕ → RequestLine → ℕ → ℤ → Inventory → Tx Db Inventory
credit_good request_id user line dest received inv = if eqb_ℤ received (pos 0) then pure inv else do
  let inv' = record inv { qty_on_hand = inv.qty_on_hand +ℤ received }
  save inv'
  add_movement
      (arrival request_id user transfer_in "Order request transfer (received)" line dest received)
  pure inv'

-- `if damaged != 0:`
unfoldable pub credit_damaged : ℕ → ℕ → RequestLine → ℕ → ℤ → Inventory → Tx Db Inventory
credit_damaged request_id user line dest damaged inv =
    if eqb_ℤ damaged (pos 0) then pure inv else do
      let inv' = record inv { qty_damaged = inv.qty_damaged +ℤ damaged }
      save inv'
      add_movement (
          arrival request_id user damage "Order request transfer (damaged in transit)" line dest
            damaged)
      pure inv'

-- The row's CHECK constraints, which the final `flush` meets. A raise discards the writes, so it
-- may stand before them.
abbrev pub check_row : Inventory → ℤ → ℤ → Tx Db (Unit {0})
check_row inv received damaged =
    raise_if
      (ltb_ℤ (inv.qty_on_hand +ℤ received) (pos 0) || ltb_ℤ (inv.qty_damaged +ℤ damaged) (pos 0))
      (internal "IntegrityError")

unfoldable pub receive_line : ℕ → ℕ → RequestLine → ℕ → ℤ → ℤ → Tx Db (Unit {0})
receive_line request_id user line dest received damaged =
    if eqb_ℤ received (pos 0) && eqb_ℤ damaged (pos 0) then pure tt else do
      inv ← get_or_create_locked line.product_id dest
      check_row inv received damaged
      good ← credit_good request_id user line dest received inv
      both ← credit_damaged request_id user line dest damaged good
      save (record both { version = both.version + 1 })
