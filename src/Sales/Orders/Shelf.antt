-- ===== src/Sales/Orders/Shelf.antt =====
-- What confirming, cancelling and delivering lines do to the stock.
use inventory_management_sys.Base.{
  ℕ, ◌≡◌, refl, ◌∙◌, ap, Bool, true, false, ◌||◌, inl, inr, Bool-cases, Option, none, some, arith,
  if◌then◌else◌,
}
use inventory_management_sys.Base.Int.{ℤ, pos, ◌+ℤ◌, ◌≤ℤ◌, leb_ℤ, ltb_ℤ}
use inventory_management_sys.Base.Result.{
  ◌>>=◌, Ensures, Ensures-both, Ensures-bind, Triple, Triple-bind,
}
use inventory_management_sys.Stock.Tables.{Inventory, InventoryReservation, Db}
use inventory_management_sys.Stock.Repository.{find, find-key}
use inventory_management_sys.Stock.Reservations.{find_hold, reserve, release}
use inventory_management_sys.Stock.Invariant.{IsSound}
use inventory_management_sys.Stock.Context.{Wiring, available}
use inventory_management_sys.Stock.Places.{
  Place, Stands, stands_at, find_hold-at, reserve-Stands, consume-Stands, release-Stands,
}
use inventory_management_sys.Stock.Service.Held.{
  hold_of, own_hold, issue_held_from, issue_held_row, issue_against_reservation,
}
use inventory_management_sys.Stock.Soundness.Reads.{raise_if-Triple}
use inventory_management_sys.Stock.Soundness.Release.{release-Released}
use inventory_management_sys.Stock.Soundness.Reserved.{OwnHold, issue_against_reservation-IsSound}
use inventory_management_sys.Stock.Reserving.{reserve_lem}
use inventory_management_sys.Sales.Tables.{SalesOrderLine}
use inventory_management_sys.Sales.Orders.{
  so_line_ref, hold_for, reserve_so_line, release_on, release_one, release_reservation,
}
use inventory_management_sys.Sales.Orders.Delivering.{sale_call, sale_issue}

-- The stock is sound, and the holds of order lines stand where their line's stock is.
pub record Shelved (place : Place) (db : Db) : Type 0 where
  pub sound : IsSound db
  pub stands : Stands so_line_ref place db

module _ (place : Place) (line : SalesOrderLine) (w : ℕ) (ep : (place line.id).0 ≡ line.product_id)
    (ew : (place line.id).1 ≡ w) where
  hold_for-Shelved :
      (user : ℕ) (o : Option Inventory) (db : Db)
      → pos 0 ≤ℤ line.qty
      → find line.product_id w db.inventory ≡ o
      → Shelved place db
      → Ensures (λ _. Shelved place) (hold_for line user o db)
  hold_for-Shelved user none db h e k = k
  hold_for-Shelved user (some inv) db h e k = elim (Bool-cases (ltb_ℤ (available inv) line.qty)) [
    | inl short ↦ rw short k
    | inr covered ↦ rw covered (
        Ensures-bind (reserve inv line.qty line.id (some user) so_line_ref db) _
          (Ensures-both (reserve inv line.qty line.id (some user) so_line_ref db)
            (λ r db' sound stands. record { sound = sound; stands = stands })
            (reserve_lem inv line.qty line.id (some user) so_line_ref db h
              (record { sound = k.sound; found = e }))
            ((reserve-Stands so_line_ref place inv line.qty line.id (some user)
                (cc (ep, (find-key line.product_id w db.inventory e).0))
                (cc (ew, (find-key line.product_id w db.inventory e).1))).at
              db k.stands))
          λ r. record { at = λ db' k'. k' })
  ]

  pub reserve_so_line-Shelved :
      (user : ℕ) → Triple (Shelved place) (reserve_so_line line w user) (λ _. Shelved place)
  unfolding reserve_so_line
  reserve_so_line-Shelved user = record {
    at = λ db k. elim (Bool-cases (leb_ℤ line.qty (pos 0))) [
      | inl nothing ↦ rw nothing k
      | inr positive ↦
          rw positive
            (hold_for-Shelved user (find line.product_id w db.inventory) db (ground arith) refl k)
    ];
  }

  module _ (wiring : Wiring) (user note_id : ℕ) (q : ℤ) where
    own : (db : Db) → Shelved place db → OwnHold (sale_issue note_id line w q) db
    own db k = record {
      matches = λ id r ref found.
          let same : id ≡ line.id = ground arith in
          let there = find_hold-at so_line_ref place id db.reservations r found k.stands in
          (there.1 ∙ ap (λ i. (place i).0) same ∙ ep, there.2 ∙ ap (λ i. (place i).1) same ∙ ew);
    }

    -- The hold that was looked up, if any, stands where the line's stock is.
    abbrev Known : Option InventoryReservation → Type 0
    Known none = Unit
    Known (some r) = stands_at so_line_ref place r ≡ true

    known :
        (db : Db) (hold : Option InventoryReservation)
        → find_hold line.id so_line_ref db.reservations ≡ hold
        → Stands so_line_ref place db
        → Known hold
    known db none e s = tt
    known db (some r) e s = (find_hold-at so_line_ref place line.id db.reservations r e s).0

    issue_held_from-Stands :
        (inv : Inventory) (hold : Option InventoryReservation)
        → Known hold
        → Triple
            (Stands so_line_ref place)
            (issue_held_from (sale_call user) (sale_issue note_id line w q) inv hold)
            (λ _. Stands so_line_ref place)
    unfolding issue_held_from
    issue_held_from-Stands inv none kn = record { at = λ db s. s }
    issue_held_from-Stands inv (some r) kn =
        Triple-bind (consume-Stands so_line_ref place inv r q (some user) kn)
          λ inv'. record { at = λ db s. s }

    issue_held_row-Stands :
        (hold : Option InventoryReservation) (o : Option Inventory) (db : Db)
        → Known hold
        → Stands so_line_ref place db
        → Ensures
            (λ _. Stands so_line_ref place)
            (issue_held_row (sale_call user) (sale_issue note_id line w q) hold o db)
    issue_held_row-Stands hold none db kn s = tt
    issue_held_row-Stands hold (some inv) db kn s =
        (raise_if-Triple (ltb_ℤ inv.qty_on_hand q || ltb_ℤ (available inv +ℤ own_hold hold) q) _ _
            λ enough. issue_held_from-Stands inv hold kn).at
          db s

    reserved_or_not :
        (b : Bool) (db : Db) (o : Option Inventory)
        → Stands so_line_ref place db
        → Ensures
            (λ _. Stands so_line_ref place)
            ((hold_of (if b then some line.id else none) so_line_ref >>= λ hold.
                issue_held_row (sale_call user) (sale_issue note_id line w q) hold o)
              db)
    reserved_or_not true db o s =
        let hold = find_hold line.id so_line_ref db.reservations in
        issue_held_row-Stands hold o db (known db hold refl s) s
    reserved_or_not false db o s = issue_held_row-Stands none o db tt s

    issue_against-Stands :
        Triple
          (Stands so_line_ref place)
          (issue_against_reservation wiring (sale_call user) (sale_issue note_id line w q))
          (λ _. Stands so_line_ref place)
    unfolding issue_against_reservation
    issue_against-Stands = raise_if-Triple (leb_ℤ q (pos 0)) _ _ λ positive. record {
      at = λ db s.
          reserved_or_not wiring.has_reservations db (find line.product_id w db.inventory) s;
    }

    pub issue_against-Shelved :
        Triple
          (Shelved place)
          (issue_against_reservation wiring (sale_call user) (sale_issue note_id line w q))
          (λ _. Shelved place)
    issue_against-Shelved = record {
      at = λ db k.
          Ensures-both
            (issue_against_reservation wiring (sale_call user) (sale_issue note_id line w q) db)
            (λ u db' sound stands. record { sound = sound; stands = stands })
            ((issue_against_reservation-IsSound wiring (sale_call user)
                (sale_issue note_id line w q)).at
              db (k.sound, own db k))
            (issue_against-Stands.at db k.stands);
    }

module _ (place : Place) where
  release_on-Shelved :
      (id user : ℕ) (r : InventoryReservation) (db : Db) (o : Option Inventory)
      → find_hold id so_line_ref db.reservations ≡ some r
      → find r.product_id r.warehouse_id db.inventory ≡ o
      → Shelved place db
      → Ensures (λ _. Shelved place) (release_on user r o db)
  release_on-Shelved id user r db none e row k = k
  release_on-Shelved id user r db (some inv) e row k =
      Ensures-bind (release inv r (some user) db) _
        (Ensures-both (release inv r (some user) db)
          (λ inv' db' u s. record { sound = u.locked.sound; stands = s })
          ((release-Released inv r (some user)).at db (record {
            locked = record { sound = k.sound; found = row };
            hold = e;
            of_product = refl;
            of_warehouse = refl;
          }))
          ((release-Stands so_line_ref place inv r (some user)
              (find_hold-at so_line_ref place id db.reservations r e k.stands).0).at
            db k.stands))
        λ inv'. record { at = λ db' k'. k' }

  release_one-Shelved :
      (id user : ℕ) (o : Option InventoryReservation) (db : Db)
      → find_hold id so_line_ref db.reservations ≡ o
      → Shelved place db
      → Ensures (λ _. Shelved place) (release_one user o db)
  release_one-Shelved id user none db e k = k
  release_one-Shelved id user (some r) db e k =
      release_on-Shelved id user r db (find r.product_id r.warehouse_id db.inventory) e refl k

  pub release_reservation-Shelved :
      (line_id user : ℕ)
      → Triple (Shelved place) (release_reservation line_id user) (λ _. Shelved place)
  unfolding release_reservation
  release_reservation-Shelved line_id user = record {
    at = λ db k.
        release_one-Shelved line_id user (find_hold line_id so_line_ref db.reservations) db refl k;
  }
