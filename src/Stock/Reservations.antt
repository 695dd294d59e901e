-- ===== src/Stock/Reservations.antt =====
-- repositories/reservation_repo.py: hold stock, consume a hold at issue, release it. Each takes
-- the inventory row that the caller has locked, and gives it back as it is after the change.
use text.Mathlib.Text.{◌==◌ as str_eq}
use inventory_management_sys.Base.{
  ℕ, String, Bool, true, false, ◌&&◌, ◌+◌, ◌==◌, Option, none, some, List, [], ◌∷◌, if◌then◌else◌,
}
use inventory_management_sys.Base.Int.{ℤ, pos, ◌-ℤ◌, ◌+ℤ◌, leb_ℤ, min_ℤ, max_ℤ}
use inventory_management_sys.Base.Result.{Tx, pure, gets, modify, ◌>>=◌, ◌>>◌}
use inventory_management_sys.Stock.Tables.{
  MovementType, Inventory, StockMovement, ReservationStatus, active, consumed, released,
  InventoryReservation, Db,
}
use inventory_management_sys.Stock.Repository.{save, add_movement}

abbrev pub ref_type : String
ref_type = "order_request_line"

abbrev pub is_active : ReservationStatus → Bool
is_active active = true
is_active _ = false

-- The filter of `active_for`.
unfoldable pub is_held_for : ℕ → String → InventoryReservation → Bool
is_held_for id kind r = is_active r.status && (r.reference_id == id && str_eq r.reference_type kind)

-- The first row that the filter takes, as `session.scalar` returns it.
unfoldable pub find_hold : ℕ → String → List InventoryReservation → Option InventoryReservation
find_hold id kind [] = none
find_hold id kind (r ∷ rs) = if is_held_for id kind r then some r else find_hold id kind rs

-- Write that row back.
unfoldable pub put_hold :
    ℕ → String → InventoryReservation → List InventoryReservation → List InventoryReservation
put_hold id kind h [] = []
put_hold id kind h (r ∷ rs) = if is_held_for id kind r then h ∷ rs else r ∷ put_hold id kind h rs

abbrev pub active_for : ℕ → String → Tx Db (Option InventoryReservation)
active_for id kind db = pure (find_hold id kind db.reservations) db

abbrev pub save_hold : InventoryReservation → InventoryReservation → Tx Db (Unit {0})
save_hold old new = modify λ (db : Db). record db {
  reservations = put_hold old.reference_id old.reference_type new db.reservations;
}

-- The movement that each change of a hold appends.
abbrev pub hold_movement :
    MovementType → Inventory → ℤ → String → ℕ → String → Option ℕ → StockMovement
hold_movement kind inv qty ref id why user = record {
  movement_type = kind;
  product_id = inv.product_id;
  warehouse_id = inv.warehouse_id;
  quantity = qty;
  reference_type = some ref;
  reference_id = some id;
  from_warehouse_id = none;
  to_warehouse_id = none;
  unit_cost = none;
  reason = some why;
  user_id = user;
  occurred_at = none;
  imported_historical = false;
}

abbrev pub new_hold : Inventory → ℤ → ℕ → Option ℕ → String → InventoryReservation
new_hold inv qty id user kind = record {
  product_id = inv.product_id;
  warehouse_id = inv.warehouse_id;
  qty = qty;
  status = active;
  reference_type = kind;
  reference_id = id;
  created_by = user;
  released_at = none;
}

unfoldable pub reserve : Inventory → ℤ → ℕ → Option ℕ → String → Tx Db InventoryReservation
reserve inv qty id user kind = do
  save (record inv { qty_reserved = inv.qty_reserved +ℤ qty; version = inv.version + 1 })
  let hold = new_hold inv qty id user kind
  modify (λ (db : Db). record db { reservations = hold ∷ db.reservations })
  add_movement (hold_movement MovementType.reserve inv (pos 0 -ℤ qty) kind id "Stock reserved" user)
  pure hold

-- The hold after `take` of it is consumed at the instant `now`.
abbrev pub consumed_hold : ℕ → InventoryReservation → ℤ → InventoryReservation
consumed_hold now r take =
    let left = r.qty -ℤ take in
    if leb_ℤ left (pos 0)
    then record r { qty = left; status = consumed; released_at = some now }
    else record r { qty = left }

unfoldable pub consume : Inventory → InventoryReservation → ℤ → Option ℕ → Tx Db Inventory
consume inv r qty user =
    let take = min_ℤ qty r.qty in
    if leb_ℤ take (pos 0) then pure inv else do
      now ← gets (λ db. db.now)
      let inv' = record inv {
        qty_reserved = max_ℤ (pos 0) (inv.qty_reserved -ℤ take);
        version = inv.version + 1;
      }
      save inv'
      save_hold r (consumed_hold now r take)
      add_movement (
          hold_movement MovementType.unreserve inv take "order_request" r.reference_id
            "Reservation consumed on issue" user)
      pure inv'

unfoldable pub release : Inventory → InventoryReservation → Option ℕ → Tx Db Inventory
release inv r user =
    if leb_ℤ r.qty (pos 0)
    then (do
      now ← gets (λ db. db.now)
      save_hold r (record r { status = released; released_at = some now })
      pure inv)
    else do
      now ← gets (λ db. db.now)
      let inv' = record inv {
        qty_reserved = max_ℤ (pos 0) (inv.qty_reserved -ℤ r.qty);
        version = inv.version + 1;
      }
      save inv'
      save_hold r (record r { qty = pos 0; status = released; released_at = some now })
      add_movement (
          hold_movement MovementType.unreserve inv r.qty "order_request" r.reference_id
            "Reservation released" user)
      pure inv'
