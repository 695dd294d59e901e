-- ===== src/Stock/Posting.antt =====
-- Booking a movement of goods: a row is written back with its on-hand quantity moved by the
-- quantity of one new movement. Every operation of the service ends in such writes.
use inventory_management_sys.Base.{
  ℕ, ◌≡◌, refl, Bool, true, false, Option, none, some, List, ◌∷◌, arith,
}
use inventory_management_sys.Base.Int.{ℤ, pos, ◌+ℤ◌, ◌-ℤ◌, ◌≤ℤ◌, int_laws}
use inventory_management_sys.Base.Result.{Ensures, Triple}
use inventory_management_sys.Stock.Tables.{
  MovementType, receipt, issue, adjustment, transfer_in, transfer_out, opening_balance, Inventory,
  StockMovement, InventoryReservation, Db,
}
use inventory_management_sys.Stock.Repository.{find, put, find-put, find-key, empty_row}
use inventory_management_sys.Stock.Ledger.{Bucket, on_hand, reserved, damaged, qty, booked, stock}
use inventory_management_sys.Stock.Invariant.{Sound, IsSound, stock-found, insert-Sound, post-Sound}
use inventory_management_sys.Stock.Context.{
  get_or_create_locked, or_create, add_on_hand, take_on_hand,
}

pub stock-own :
    (b : Bucket) (p w : ℕ) (rows : List Inventory) (r : Inventory)
    → find p w rows ≡ some r
    → stock b r.product_id r.warehouse_id rows ≡ qty b r
stock-own b p w rows r h =
    cc (stock-found b p w rows (some r) h, (find-key p w rows h).0, (find-key p w rows h).1)

-- The movements that bring goods in or out.
abbrev pub is_flow : MovementType → Bool
is_flow receipt = true
is_flow issue = true
is_flow adjustment = true
is_flow transfer_in = true
is_flow transfer_out = true
is_flow opening_balance = true
is_flow _ = false

-- Row `new` is row `old` with `q` more units on hand.
pub record Shifts (old new : Inventory) (q : ℤ) : Type 0 where
  pub same_product : new.product_id ≡ old.product_id
  pub same_warehouse : new.warehouse_id ≡ old.warehouse_id
  pub shifted : new.qty_on_hand ≡ old.qty_on_hand +ℤ q
  pub same_reserved : new.qty_reserved ≡ old.qty_reserved
  pub same_damaged : new.qty_damaged ≡ old.qty_damaged

pub record Flows (p w : ℕ) (q : ℤ) (m : StockMovement) : Type 0 where
  pub of_product : m.product_id ≡ p
  pub of_warehouse : m.warehouse_id ≡ w
  pub of_quantity : m.quantity ≡ q
  pub flow : is_flow m.movement_type ≡ true

booked-flow :
    (k : MovementType) (q : ℤ)
    → is_flow k ≡ true
    → (booked on_hand k q ≡ q) × (booked reserved k q ≡ pos 0) × (booked damaged k q ≡ pos 0)
booked-flow receipt q h = (refl, refl, refl)
booked-flow issue q h = (refl, refl, refl)
booked-flow adjustment q h = (refl, refl, refl)
booked-flow transfer_in q h = (refl, refl, refl)
booked-flow transfer_out q h = (refl, refl, refl)
booked-flow opening_balance q h = (refl, refl, refl)
booked-flow _ q h = cc

module _ {rows : List Inventory} {ms : List StockMovement} {hs : List InventoryReservation}
    (p w : ℕ) (old new : Inventory) (q : ℤ) (m : StockMovement) (found : find p w rows ≡ some old)
    (s : Sound rows ms hs) (shift : Shifts old new q) (flows : Flows p w q m) where
  stock-new : (b : Bucket) → stock b new.product_id new.warehouse_id rows ≡ qty b old
  stock-new b = cc (stock-own b p w rows old found, shift.same_product, shift.same_warehouse)

  shift-moved :
      (b : Bucket)
      → qty b new
        ≡ stock b new.product_id new.warehouse_id rows +ℤ booked b m.movement_type m.quantity
  shift-moved on_hand =
      rw stock-new (
        cc
          (shift.shifted, flows.of_quantity, (booked-flow m.movement_type m.quantity flows.flow).0))
  shift-moved reserved = grind (
    int_laws,
    stock-new reserved,
    shift.same_reserved,
    (booked-flow m.movement_type m.quantity flows.flow).1,
  )
  shift-moved damaged = grind (
    int_laws,
    stock-new damaged,
    shift.same_damaged,
    (booked-flow m.movement_type m.quantity flows.flow).2,
  )

  -- What stays was not negative before.
  shift_nonneg : pos 0 ≤ℤ new.qty_on_hand → (b : Bucket) → pos 0 ≤ℤ qty b new
  shift_nonneg h on_hand = h
  shift_nonneg h reserved =
      rw (shift.same_reserved, ← stock-found reserved p w rows (some old) found)
        (s.nonneg reserved p w)
  shift_nonneg h damaged =
      rw (shift.same_damaged, ← stock-found damaged p w rows (some old) found)
        (s.nonneg damaged p w)

  pub flow-Sound : pos 0 ≤ℤ new.qty_on_hand → Sound (put new rows) (m ∷ ms) hs
  flow-Sound h =
      post-Sound new m (cc (flows.of_product, shift.same_product, (find-key p w rows found).0))
        (cc (flows.of_warehouse, shift.same_warehouse, (find-key p w rows found).1)) shift-moved
        (shift_nonneg h) (booked-flow m.movement_type m.quantity flows.flow).1 s

-- A locked row: what `get_or_create_locked` gives back stands in the table.
pub record Locked (p w : ℕ) (inv : Inventory) (db : Db) : Type 0 where
  pub sound : IsSound db
  pub found : find p w db.inventory ≡ some inv

pub find-insert :
    (p w : ℕ) (rows : List Inventory) → find p w (put (empty_row p w) rows) ≡ some (empty_row p w)
find-insert p w rows = rw find-put (ground arith)

pub get_or_create_locked-Locked : (p w : ℕ) → Triple IsSound (get_or_create_locked p w) (Locked p w)
unfolding get_or_create_locked
get_or_create_locked-Locked p w = record { at = λ db s. locked db s (find p w db.inventory) refl }
  where
    locked :
        (db : Db)
        → IsSound db
        → (o : Option Inventory) → find p w db.inventory ≡ o
        → Ensures (Locked p w) (or_create p w o db)
    locked db s none e = record {
      sound = insert-Sound p w e s;
      found = find-insert p w db.inventory;
    }
    locked db s (some inv) e = record { sound = s; found = e }

pub add_on_hand-Shifts : (q : ℤ) (inv : Inventory) → Shifts inv (add_on_hand q inv) q
add_on_hand-Shifts q inv = record {
  same_product = refl;
  same_warehouse = refl;
  shifted = refl;
  same_reserved = refl;
  same_damaged = refl;
}

pub take_on_hand-Shifts : (q : ℤ) (inv : Inventory) → Shifts inv (take_on_hand q inv) (pos 0 -ℤ q)
take_on_hand-Shifts q inv = record {
  same_product = refl;
  same_warehouse = refl;
  shifted = omega int_laws;
  same_reserved = refl;
  same_damaged = refl;
}

-- No quantity of a row that is found in a sound table is negative.
pub found_nonneg :
    {rows : List Inventory} {ms : List StockMovement} {hs : List InventoryReservation} (b : Bucket)
    (p w : ℕ) {r : Inventory}
    → find p w rows ≡ some r
    → Sound rows ms hs
    → pos 0 ≤ℤ qty b r
found_nonneg {rows} b p w {r} h s = rw (← stock-found b p w rows (some r) h) (s.nonneg b p w)
