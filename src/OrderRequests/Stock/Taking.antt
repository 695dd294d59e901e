-- ===== src/OrderRequests/Stock/Taking.antt =====
-- Holding and taking units for a line keeps the stock sound.
use inventory_management_sys.Base.{
  ℕ, ◌≡◌, refl, ◌∙◌, inl, inr, Bool-cases, Option, none, some, arith,
}
use inventory_management_sys.Base.Int.{ℤ, pos, ◌+ℤ◌, ◌-ℤ◌, ◌≤ℤ◌, leb_ℤ, ltb_ℤ, int_laws}
use inventory_management_sys.Base.Result.{pure, ◌>>◌, Ensures, Ensures-both, Ensures-bind, Triple}
use inventory_management_sys.Stock.Tables.{Inventory, StockMovement, InventoryReservation, Db}
use inventory_management_sys.Stock.Repository.{find, save, add_movement, find-key}
use inventory_management_sys.Stock.Reservations.{ref_type, find_hold, reserve, consume}
use inventory_management_sys.Stock.Invariant.{IsSound}
use inventory_management_sys.Stock.Posting.{Flows, Locked, flow-Sound, take_on_hand-Shifts}
use inventory_management_sys.Stock.Context.{available, take_on_hand}
use inventory_management_sys.Stock.Service.Held.{consume_own}
use inventory_management_sys.Stock.Soundness.Holds.{consume-Unheld}
use inventory_management_sys.Stock.Reserving.{reserve_lem}
use inventory_management_sys.OrderRequests.Tables.{RequestLine}
use inventory_management_sys.OrderRequests.Repository.{
  updated, hold_units, reserve_line, take_units, take_from, issue_line, transfer_line,
  issue_movement, transfer_movement,
}
use inventory_management_sys.Stock.Places.{
  Place, Stands, find_hold-at, reserve-Stands, consume-Stands,
}

-- The stock tables are sound, and the holds of lines stand where their line's stock is.
pub record Kept (place : Place) (db : Db) : Type 0 where
  pub sound : IsSound db
  pub stands : Stands ref_type place db

module _ (place : Place) (line : RequestLine) (w : ℕ) (ep : (place line.id).0 ≡ line.product_id)
    (ew : (place line.id).1 ≡ w) where
  hold_units-Kept :
      (qty : ℤ) (user : ℕ) (o : Option Inventory) (db : Db)
      → pos 0 ≤ℤ qty
      → find line.product_id w db.inventory ≡ o
      → Kept place db
      → Ensures (λ _. Kept place) (hold_units line qty user o db)
  hold_units-Kept qty user none db h e k = k
  hold_units-Kept qty user (some inv) db h e k = elim (Bool-cases (ltb_ℤ (available inv) qty)) [
    | inl short ↦ rw short k
    | inr covered ↦ rw covered (
        Ensures-bind (reserve inv qty line.id (some user) ref_type db) _
          (Ensures-both (reserve inv qty line.id (some user) ref_type db)
            (λ r db' sound stands. record { sound = sound; stands = stands })
            (reserve_lem inv qty line.id (some user) ref_type db h
              (record { sound = k.sound; found = e }))
            ((reserve-Stands ref_type place inv qty line.id (some user)
                (cc (ep, (find-key line.product_id w db.inventory e).0))
                (cc (ew, (find-key line.product_id w db.inventory e).1))).at
              db k.stands))
          λ r. record { at = λ db' k'. k' })
  ]

  module _ (mv : StockMovement) (user : ℕ) (qty : ℤ)
      (flows : Flows line.product_id w (pos 0 -ℤ qty) mv) (h : pos 0 ≤ℤ qty) where
    -- The row after the own hold has been consumed.
    record Ready (inv inv' : Inventory) (db : Db) : Type 0 where
      locked : Locked line.product_id w inv' db
      same_on_hand : inv'.qty_on_hand ≡ inv.qty_on_hand
      stands : Stands ref_type place db

    own-Ready :
        (inv : Inventory) (o : Option InventoryReservation) (db : Db)
        → find line.product_id w db.inventory ≡ some inv
        → find_hold line.id ref_type db.reservations ≡ o
        → Kept place db
        → Ensures (Ready inv) (consume_own qty user inv o db)
    own-Ready inv none db e eh k = record {
      locked = record { sound = k.sound; found = e };
      same_on_hand = refl;
      stands = k.stands;
    }
    own-Ready inv (some r) db e eh k =
        let own = find_hold-at ref_type place line.id db.reservations r eh k.stands in
        Ensures-both (consume inv r qty (some user) db)
          (λ inv' db' u s. record { locked = u.locked; same_on_hand = u.same_on_hand; stands = s })
          ((consume-Unheld inv r qty (some user) h).at db (record {
            locked = record { sound = k.sound; found = e };
            hold = eh;
            of_product = own.1 ∙ ep;
            of_warehouse = own.2 ∙ ew;
          }))
          ((consume-Stands ref_type place inv r qty (some user) own.0).at db k.stands)

    taken :
        (inv inv' : Inventory)
        → qty ≤ℤ inv.qty_on_hand
        → Triple
            (Ready inv inv')
            (do
              save (take_on_hand qty inv')
              add_movement mv
              pure (updated (record line { issued_qty = line.issued_qty +ℤ qty })))
            (λ _. Kept place)
    taken inv inv' enough = record {
      at = λ db r. record {
        sound =
            flow-Sound line.product_id w inv' (take_on_hand qty inv') (pos 0 -ℤ qty) mv
              r.locked.found r.locked.sound (take_on_hand-Shifts qty inv') flows
              (rw r.same_on_hand (omega (int_laws, enough)));
        stands = r.stands;
      };
    }

    take_units-Kept :
        (inv : Inventory) (db : Db)
        → qty ≤ℤ inv.qty_on_hand
        → find line.product_id w db.inventory ≡ some inv
        → Kept place db
        → Ensures (λ _. Kept place) (take_units mv user line qty inv db)
    unfolding take_units
    take_units-Kept inv db enough e k =
        Ensures-bind (consume_own qty user inv (find_hold line.id ref_type db.reservations) db) _
          (own-Ready inv (find_hold line.id ref_type db.reservations) db e refl k)
          λ inv'. taken inv inv' enough

    take_from-Kept :
        (o : Option Inventory) (db : Db)
        → find line.product_id w db.inventory ≡ o
        → Kept place db
        → Ensures (λ _. Kept place) (take_from mv user line qty o db)
    take_from-Kept none db e k = k
    take_from-Kept (some inv) db e k = elim (Bool-cases (ltb_ℤ inv.qty_on_hand qty)) [
      | inl short ↦ rw short k
      | inr enough ↦ rw enough (take_units-Kept inv db (ground arith) e k)
    ]

  pub reserve_line-Kept :
      (qty : ℤ) (user : ℕ) → Triple (Kept place) (reserve_line line w qty user) (λ _. Kept place)
  unfolding reserve_line
  reserve_line-Kept qty user = record {
    at = λ db k. elim (Bool-cases (leb_ℤ qty (pos 0))) [
      | inl nothing ↦ rw nothing k
      | inr positive ↦
          rw positive (
            hold_units-Kept qty user (find line.product_id w db.inventory) db (ground arith) refl k)
    ];
  }

  pub issue_line-Kept :
      (request_id user : ℕ) (qty : ℤ)
      → Triple (Kept place) (issue_line request_id user line w qty) (λ _. Kept place)
  unfolding issue_line
  issue_line-Kept request_id user qty = record {
    at = λ db k. elim (Bool-cases (leb_ℤ qty (pos 0))) [
      | inl nothing ↦ rw nothing k
      | inr positive ↦ rw positive (
          take_from-Kept (issue_movement request_id user line w qty) user qty
            (record { of_product = refl; of_warehouse = refl; of_quantity = refl; flow = refl })
            (ground arith) (find line.product_id w db.inventory) db refl k)
    ];
  }

  pub transfer_line-Kept :
      (request_id user dest : ℕ) (qty : ℤ)
      → Triple (Kept place) (transfer_line request_id user line w dest qty) (λ _. Kept place)
  unfolding transfer_line
  transfer_line-Kept request_id user dest qty = record {
    at = λ db k. elim (Bool-cases (leb_ℤ qty (pos 0))) [
      | inl nothing ↦ rw nothing k
      | inr positive ↦ rw positive (
          take_from-Kept (transfer_movement request_id user line w dest qty) user qty
            (record { of_product = refl; of_warehouse = refl; of_quantity = refl; flow = refl })
            (ground arith) (find line.product_id w db.inventory) db refl k)
    ];
  }
