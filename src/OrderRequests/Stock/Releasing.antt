-- ===== src/OrderRequests/Stock/Releasing.antt =====
-- Giving the holds of lines back keeps the stock sound.
use inventory_management_sys.Base.{ℕ, ◌≡◌, refl, Option, none, some, List, [], ◌∷◌, arith}
use inventory_management_sys.Base.Int.{pos, int_laws}
use inventory_management_sys.Base.Result.{Ensures, Ensures-both, Ensures-bind, Triple}
use inventory_management_sys.Stock.Tables.{Inventory, InventoryReservation, released, Db}
use inventory_management_sys.Stock.Repository.{find}
use inventory_management_sys.Stock.Reservations.{ref_type, find_hold, put_hold, release}
use inventory_management_sys.Stock.Ledger.{reserved, hold_qty, held-put_hold}
use inventory_management_sys.Stock.Invariant.{stock-found}
use inventory_management_sys.Stock.Holding.{
  find_hold-FoundHold, find_hold-own, hold-le-held, All-put_hold,
}
use inventory_management_sys.Stock.Soundness.Release.{release-Released}
use inventory_management_sys.OrderRequests.Tables.{RequestLine}
use inventory_management_sys.OrderRequests.Repository.{
  release_held, release_found, release_reservations,
}
use inventory_management_sys.Stock.Places.{Place, find_hold-at, put_hold-at, release-Stands}
use inventory_management_sys.OrderRequests.Stock.Taking.{Kept}

module _ (place : Place) (id user : ℕ) (r : InventoryReservation) (db : Db)
    (e : find_hold id ref_type db.reservations ≡ some r) (k : Kept place db) where
  abbrev closed : InventoryReservation
  closed = record r { status = released; released_at = some db.now }

  -- Where there is no row, nothing is reserved, so that the hold is of nothing.
  of_nothing : find r.product_id r.warehouse_id db.inventory ≡ none → r.qty ≡ pos 0
  unfolding hold_qty
  of_nothing gone =
      let le =
        hold-le-held id ref_type r.product_id r.warehouse_id db.reservations r e
          k.sound.hold_nonneg in
      grind (
        int_laws,
        le,
        (find_hold-FoundHold id ref_type db.reservations r e).is_held,
        k.sound.holds r.product_id r.warehouse_id,
        stock-found reserved r.product_id r.warehouse_id db.inventory none gone,
      )

  close-Kept :
      find r.product_id r.warehouse_id db.inventory ≡ none
      → Kept place (record db {
        reservations = put_hold r.reference_id r.reference_type closed db.reservations;
      })
  unfolding hold_qty
  close-Kept gone = record {
    sound = record {
      books = k.sound.books;
      holds = λ p' w'. grind (
        int_laws,
        k.sound.holds p' w',
        of_nothing gone,
        held-put_hold p' w' r.reference_id r.reference_type db.reservations r closed
            (find_hold-own id ref_type db.reservations r e),
      );
      nonneg = k.sound.nonneg;
      hold_nonneg =
          All-put_hold r.reference_id r.reference_type closed db.reservations
            (rw (of_nothing gone) (omega arith)) k.sound.hold_nonneg;
    };
    stands =
        put_hold-at ref_type place r.reference_id r.reference_type closed db.reservations
          (find_hold-at ref_type place id db.reservations r e k.stands).0 k.stands;
  }

  release_held-Kept :
      (o : Option Inventory)
      → find r.product_id r.warehouse_id db.inventory ≡ o
      → Ensures (λ _. Kept place) (release_held user r o db)
  release_held-Kept none gone = close-Kept gone
  release_held-Kept (some inv) row =
      Ensures-bind (release inv r (some user) db) _
        (Ensures-both (release inv r (some user) db)
          (λ inv' db' u s. record { sound = u.locked.sound; stands = s })
          ((release-Released inv r (some user)).at db (record {
            locked = record { sound = k.sound; found = row };
            hold = e;
            of_product = refl;
            of_warehouse = refl;
          }))
          ((release-Stands ref_type place inv r (some user)
              (find_hold-at ref_type place id db.reservations r e k.stands).0).at
            db k.stands))
        λ inv'. record { at = λ db' k'. k' }

module _ (place : Place) where
  release_found-Kept :
      (id user : ℕ) (o : Option InventoryReservation) (db : Db)
      → find_hold id ref_type db.reservations ≡ o
      → Kept place db
      → Ensures (λ _. Kept place) (release_found user o db)
  release_found-Kept id user none db e k = k
  release_found-Kept id user (some r) db e k =
      release_held-Kept place id user r db e k (find r.product_id r.warehouse_id db.inventory) refl

  pub release_reservations-Kept :
      (lines : List RequestLine) (user : ℕ)
      → Triple (Kept place) (release_reservations lines user) (λ _. Kept place)
  unfolding release_reservations
  release_reservations-Kept [] user = record { at = λ db k. k }
  release_reservations-Kept (line ∷ lines) user = record {
    at = λ db k.
        Ensures-bind (release_found user (find_hold line.id ref_type db.reservations) db) _
          (release_found-Kept line.id user (find_hold line.id ref_type db.reservations) db refl k)
          λ u. release_reservations-Kept lines user;
  }
