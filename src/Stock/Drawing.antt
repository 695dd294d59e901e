-- ===== src/Stock/Drawing.antt =====
-- What `issue_against_reservation` leaves: the row, the holds of others, and what is available.
use inventory_management_sys.Base.{
  ℕ, String, ◌≡◌, refl, ◌||◌, false, inl, inr, Bool-cases, Option, none, some, arith,
}
use inventory_management_sys.Base.Int.{pos, ◌+ℤ◌, ◌-ℤ◌, ◌≤ℤ◌, leb_ℤ, ltb_ℤ, min_ℤ, int_laws}
use inventory_management_sys.Base.Result.{ok, Ensures, Triple, Triple-bind}
use inventory_management_sys.Stock.Tables.{Inventory, InventoryReservation, Db}
use inventory_management_sys.Stock.Repository.{find}
use inventory_management_sys.Stock.Reservations.{find_hold}
use inventory_management_sys.Stock.Invariant.{IsSound}
use inventory_management_sys.Stock.Context.{Call, Wiring, available, take_on_hand}
use inventory_management_sys.Stock.Service.Held.{
  HeldIssue, kind_of, hold_of, own_hold, feed_demand, issue_held_from, issue_held_row,
  issue_against_reservation,
}
use inventory_management_sys.Stock.Soundness.Reads.{raise_if-Triple}
use inventory_management_sys.Stock.Soundness.Holds.{Unheld, drawn, find-put_own}
use inventory_management_sys.Stock.Soundness.Reserved.{
  OwnHold, Ready, reference, reference-own, hold_of-Ready, consume_own-Unheld,
}

-- The hold that a reference names.
abbrev pub named : Option ℕ → String → Db → Option InventoryReservation
named none kind db = none
named (some id) kind db = find_hold id kind db.reservations

hold_of-named :
    (ref : Option ℕ) (kind : String) (db : Db) → hold_of ref kind db ≡ ok (named ref kind db, db)
hold_of-named none kind db = refl
hold_of-named (some id) kind db = refl

-- The row of a held issue afterwards: the units are gone, and so is what the issue drew from its
-- own hold; what is reserved for others and what is damaged stays.
pub record Drawn (req : HeldIssue) (inv : Inventory) (hold : Option InventoryReservation) (db : Db)
    : Type 0 where
  pub row : Inventory
  pub found : find req.product_id req.warehouse_id db.inventory ≡ some row
  pub left : row.qty_on_hand ≡ inv.qty_on_hand -ℤ req.quantity
  pub unreserved : row.qty_reserved ≡ inv.qty_reserved -ℤ drawn req.quantity hold
  pub same_damaged : row.qty_damaged ≡ inv.qty_damaged
  -- The available units do not fall below zero, or where they were below it before, not further.
  pub still_available : min_ℤ (pos 0) (available inv) ≤ℤ available row

module _ (c : Call) (req : HeldIssue) (inv : Inventory) (hold : Option InventoryReservation)
    (positive : pos 0 ≤ℤ req.quantity) (enough : req.quantity ≤ℤ inv.qty_on_hand)
    (covered : req.quantity ≤ℤ available inv +ℤ own_hold hold) where
  drawn-covers :
      (o : Option InventoryReservation)
      → req.quantity ≤ℤ available inv +ℤ own_hold o
      → min_ℤ (pos 0) (available inv) +ℤ req.quantity ≤ℤ available inv +ℤ drawn req.quantity o
  drawn-covers none h = grind int_laws
  drawn-covers (some r) h = grind int_laws

  feed_demand-Drawn :
      (o : Option String) (db : Db)
      → Drawn req inv hold db
      → Ensures (λ _. Drawn req inv hold) (feed_demand req o db)
  feed_demand-Drawn none db d = d
  feed_demand-Drawn (some source) db d = record {
    row = d.row;
    found = d.found;
    left = d.left;
    unreserved = d.unreserved;
    same_damaged = d.same_damaged;
    still_available = d.still_available;
  }

  issue_held_from-Drawn :
      Triple (Ready req inv hold) (issue_held_from c req inv hold) (λ _. Drawn req inv hold)
  unfolding issue_held_from
  issue_held_from-Drawn =
      Triple-bind {Q = Unheld req.product_id req.warehouse_id inv req.quantity hold}
        (record { at = consume_own-Unheld c req positive inv enough hold })
        λ inv'. record {
          at = λ db u. feed_demand-Drawn req.demand_source _ (record {
            row = take_on_hand req.quantity inv';
            found =
                find-put_own req.product_id req.warehouse_id db.inventory inv'
                  (take_on_hand req.quantity inv') u.locked.found refl refl;
            left = rw u.same_on_hand refl;
            unreserved = u.less_reserved;
            same_damaged = u.same_damaged;
            still_available = grind (
              int_laws,
              u.same_on_hand,
              u.less_reserved,
              u.same_damaged,
              drawn-covers hold covered,
            );
          });
        }

module _ (wiring : Wiring) (c : Call) (req : HeldIssue) (db : Db) (inv : Inventory) where
  abbrev held_row : Option InventoryReservation
  held_row = named (reference wiring req) (kind_of req.reservation_ref_type) db

  issue_held_row-Drawn :
      IsSound db
      → OwnHold req db
      → find req.product_id req.warehouse_id db.inventory ≡ some inv
      → pos 0 ≤ℤ req.quantity
      → Ensures (λ _. Drawn req inv held_row) (issue_held_row c req held_row (some inv) db)
  issue_held_row-Drawn s own e positive =
      (raise_if-Triple
          (ltb_ℤ inv.qty_on_hand req.quantity
            || ltb_ℤ (available inv +ℤ own_hold held_row) req.quantity)
          _ _
          λ enough.
            issue_held_from-Drawn c req inv held_row positive (ground arith) (ground arith)).at
        db
        (rw hold_of-named at (
          hold_of-Ready wiring c req db s own inv (reference wiring req) e
            (reference-own wiring c req)))

  -- Past its first guard, the call is the decision on the row and the hold that it has found.
  held_call :
      find req.product_id req.warehouse_id db.inventory ≡ some inv
      → leb_ℤ req.quantity (pos 0) ≡ false
      → issue_against_reservation wiring c req db ≡ issue_held_row c req held_row (some inv) db
  unfolding issue_against_reservation
  held_call e something =
      cc (e, something, hold_of-named (reference wiring req) (kind_of req.reservation_ref_type) db)

  -- On sound tables, where the hold that the call names is on the stock that it issues: if the
  -- call returns, the row has lost the quantity, the reserved quantity has lost exactly what was
  -- drawn from that hold, the damaged quantity is as before, and what is available afterwards is not
  -- less than zero, or than it was before if that was less.
  pub issue_against_reservation-Drawn :
      IsSound db
      → OwnHold req db
      → find req.product_id req.warehouse_id db.inventory ≡ some inv
      → Ensures (λ _. Drawn req inv held_row) (issue_against_reservation wiring c req db)
  unfolding issue_against_reservation
  issue_against_reservation-Drawn s own e = elim (Bool-cases (leb_ℤ req.quantity (pos 0))) [
    | inl nothing ↦ rw nothing tt
    | inr something ↦ rw (held_call e something) (issue_held_row-Drawn s own e (ground arith))
  ]
