-- ===== src/Stock/Service/Held.antt =====
-- services/inventory_service.py: `issue_against_reservation`, the issue of a demand line that may
-- use the units held for that line.
use inventory_management_sys.Base.{ℕ, String, ◌||◌, Option, none, some, if◌then◌else◌}
use inventory_management_sys.Base.Int.{ℤ, pos, ◌+ℤ◌, ◌-ℤ◌, ltb_ℤ, leb_ℤ}
use inventory_management_sys.Base.Result.{business_rule, Tx, pure, raise, raise_if, ◌>>=◌, ◌>>◌}
use inventory_management_sys.Stock.Tables.{
  issue as issue_entry, Inventory, InventoryReservation, Db,
}
use inventory_management_sys.Stock.Repository.{get_for_update, save, add_movement, record_demand}
use inventory_management_sys.Stock.Reservations.{ref_type, active_for, consume}
use inventory_management_sys.Stock.Context.{
  Call, Wiring, available, movement, audit_movement, take_on_hand,
}

pub record HeldIssue : Type 0 where
  pub product_id : ℕ
  pub warehouse_id : ℕ
  pub quantity : ℤ
  pub reference_type : String
  pub reference_id : ℕ
  pub reason : String
  pub reservation_ref : Option ℕ
  pub reservation_ref_type : Option String
  pub demand_source : Option String

abbrev pub kind_of : Option String → String
kind_of none = ref_type
kind_of (some kind) = kind

abbrev pub hold_of : Option ℕ → String → Tx Db (Option InventoryReservation)
hold_of none kind = pure none
hold_of (some id) kind = active_for id kind

abbrev pub own_hold : Option InventoryReservation → ℤ
own_hold none = pos 0
own_hold (some r) = r.qty

abbrev pub consume_own : ℤ → ℕ → Inventory → Option InventoryReservation → Tx Db Inventory
consume_own q user inv none = pure inv
consume_own q user inv (some r) = consume inv r q (some user)

abbrev pub feed_demand : HeldIssue → Option String → Tx Db (Unit {0})
feed_demand req none = pure tt
feed_demand req (some source) = record_demand req.product_id req.warehouse_id req.quantity source

-- The writes, once the row and the hold have been found to suffice.
unfoldable pub issue_held_from :
    Call → HeldIssue → Inventory → Option InventoryReservation → Tx Db (Unit {0})
issue_held_from c req row hold = do
  inv ← consume_own req.quantity c.user_id row hold
  let before = inv.qty_on_hand
  let inv' = take_on_hand req.quantity inv
  save inv'
  let mv = movement c issue_entry req.product_id req.warehouse_id (pos 0 -ℤ req.quantity)
  add_movement (record mv {
    reference_type = some req.reference_type;
    reference_id = some req.reference_id;
    reason = some req.reason;
  })
  audit_movement c.user_id "stock.issue" inv' mv before
  feed_demand req req.demand_source

abbrev pub issue_held_row :
    Call → HeldIssue → Option InventoryReservation → Option Inventory → Tx Db (Unit {0})
issue_held_row c req hold none = raise (business_rule "Insufficient available stock to issue")
issue_held_row c req hold (some inv) = do
  raise_if
      (ltb_ℤ inv.qty_on_hand req.quantity || ltb_ℤ (available inv +ℤ own_hold hold) req.quantity)
      (business_rule "Insufficient available stock to issue")
  issue_held_from c req inv hold

unfoldable pub issue_against_reservation : Wiring → Call → HeldIssue → Tx Db (Unit {0})
issue_against_reservation wiring c req = do
  raise_if (leb_ℤ req.quantity (pos 0)) (business_rule "Issue quantity must be positive")
  found ← get_for_update req.product_id req.warehouse_id
  hold ←
      hold_of (if wiring.has_reservations then req.reservation_ref else none)
        (kind_of req.reservation_ref_type)
  issue_held_row c req hold found
