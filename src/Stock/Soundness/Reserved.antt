-- ===== src/Stock/Soundness/Reserved.antt =====
-- `issue_against_reservation` keeps the invariant, where the hold that it draws on is a hold on
-- the product and the warehouse that it issues from.
use inventory_management_sys.Base.{
  ℕ, String, ◌≡◌, refl, ◌||◌, Option, none, some, arith, if◌then◌else◌,
}
use inventory_management_sys.Base.Int.{pos, ◌+ℤ◌, ◌-ℤ◌, ◌≤ℤ◌, leb_ℤ, ltb_ℤ, int_laws}
use inventory_management_sys.Base.Result.{
  ◌>>=◌, Ensures, Ensures-any, Ensures-bind, Triple, Triple-bind,
}
use inventory_management_sys.Stock.Tables.{Inventory, InventoryReservation, Db}
use inventory_management_sys.Stock.Repository.{find}
use inventory_management_sys.Stock.Reservations.{find_hold}
use inventory_management_sys.Stock.Invariant.{IsSound}
use inventory_management_sys.Stock.Posting.{Locked, flow-Sound, take_on_hand-Shifts}
use inventory_management_sys.Stock.Context.{Call, Wiring, available, take_on_hand}
use inventory_management_sys.Stock.Service.Held.{
  HeldIssue, kind_of, hold_of, own_hold, consume_own, feed_demand, issue_held_from, issue_held_row,
  issue_against_reservation,
}
use inventory_management_sys.Stock.Soundness.Reads.{raise_if-Triple}
use inventory_management_sys.Stock.Soundness.Holds.{HeldOn, Unheld, consume-Unheld}

-- The hold that the request names is on the stock that it issues.
pub record OwnHold (req : HeldIssue) (db : Db) : Type 0 where
  pub matches :
      (id : ℕ) (r : InventoryReservation)
      → req.reservation_ref ≡ some id
      → find_hold id (kind_of req.reservation_ref_type) db.reservations ≡ some r
      → (r.product_id ≡ req.product_id) × (r.warehouse_id ≡ req.warehouse_id)

-- What the lookup of the own hold has found.
pub record Ready (req : HeldIssue) (inv : Inventory) (hold : Option InventoryReservation) (db : Db)
    : Type 0 where
  pub locked : Locked req.product_id req.warehouse_id inv db
  pub own :
      (r : InventoryReservation)
      → hold ≡ some r
      → (id : ℕ) × HeldOn req.product_id req.warehouse_id id
          (kind_of req.reservation_ref_type)
          inv
          r
          db

feed_demand-IsSound :
    (req : HeldIssue) (o : Option String) (db : Db)
    → IsSound db
    → Ensures (λ _. IsSound) (feed_demand req o db)
feed_demand-IsSound req none db s = s
feed_demand-IsSound req (some source) db s = s

module _ (c : Call) (req : HeldIssue) (positive : pos 0 ≤ℤ req.quantity) (inv : Inventory)
    (enough : req.quantity ≤ℤ inv.qty_on_hand) where
  pub consume_own-Unheld :
      (hold : Option InventoryReservation) (db : Db)
      → Ready req inv hold db
      → Ensures
          (Unheld req.product_id req.warehouse_id inv req.quantity hold)
          (consume_own req.quantity c.user_id inv hold db)
  consume_own-Unheld none db r = record {
    locked = r.locked;
    same_on_hand = refl;
    same_damaged = refl;
    less_reserved = omega int_laws;
  }
  consume_own-Unheld (some h) db r =
      (consume-Unheld inv h req.quantity (some c.user_id) positive).at db (r.own h refl).1

  pub issue_held_from-IsSound :
      (hold : Option InventoryReservation)
      → Triple (Ready req inv hold) (issue_held_from c req inv hold) (λ _. IsSound)
  unfolding issue_held_from
  issue_held_from-IsSound hold =
      Triple-bind {Q = Unheld req.product_id req.warehouse_id inv req.quantity hold}
        (record { at = consume_own-Unheld hold })
        λ inv'. record {
          at = λ db u. feed_demand-IsSound req req.demand_source _ (
              flow-Sound req.product_id req.warehouse_id inv' (take_on_hand req.quantity inv')
                (pos 0 -ℤ req.quantity) _ u.locked.found u.locked.sound
                (take_on_hand-Shifts req.quantity inv')
                (record { of_product = refl; of_warehouse = refl; of_quantity = refl; flow = refl })
                (rw u.same_on_hand (omega (int_laws, enough))));
        }

-- The hold that the request names, if the service has the reservations.
abbrev pub reference : Wiring → HeldIssue → Option ℕ
reference wiring req = if wiring.has_reservations then req.reservation_ref else none

module _ (wiring : Wiring) (c : Call) (req : HeldIssue) where
  pub reference-own : (id : ℕ) → reference wiring req ≡ some id → req.reservation_ref ≡ some id
  reference-own id h = ground arith

  module _ (db : Db) (s : IsSound db) (own : OwnHold req db) where
    pub hold_of-Ready :
        (inv : Inventory) (ref : Option ℕ)
        → find req.product_id req.warehouse_id db.inventory ≡ some inv
        → ((id : ℕ) → ref ≡ some id → req.reservation_ref ≡ some id)
        → Ensures (Ready req inv) (hold_of ref (kind_of req.reservation_ref_type) db)
    hold_of-Ready inv none e named = record {
      locked = record { sound = s; found = e };
      own = λ r h. cc;
    }
    hold_of-Ready inv (some id) e named = record {
      locked = record { sound = s; found = e };
      own = λ r h. (
        id,
        record {
          locked = record { sound = s; found = e };
          hold = h;
          of_product = (own.matches id r (named id refl) h).0;
          of_warehouse = (own.matches id r (named id refl) h).1;
        },
      );
    }

    issue_held_row-IsSound :
        (o : Option Inventory)
        → pos 0 ≤ℤ req.quantity
        → find req.product_id req.warehouse_id db.inventory ≡ o
        → Ensures
            (λ _. IsSound)
            ((hold_of (reference wiring req) (kind_of req.reservation_ref_type) >>= λ hold.
                issue_held_row c req hold o)
              db)
    issue_held_row-IsSound none positive e =
        Ensures-bind {Q = λ _ _. Unit}
          (hold_of (reference wiring req) (kind_of req.reservation_ref_type) db) _
          (Ensures-any (hold_of (reference wiring req) (kind_of req.reservation_ref_type) db))
          (λ hold. record { at = λ db' h. tt })
    issue_held_row-IsSound (some inv) positive e =
        Ensures-bind {Q = Ready req inv}
          (hold_of (reference wiring req) (kind_of req.reservation_ref_type) db) _
          (hold_of-Ready inv (reference wiring req) e reference-own)
          (λ hold.
            raise_if-Triple
              (ltb_ℤ inv.qty_on_hand req.quantity
                || ltb_ℤ (available inv +ℤ own_hold hold) req.quantity)
              _ _ λ enough. issue_held_from-IsSound c req positive inv (ground arith) hold)

  pub issue_against_reservation-IsSound :
      Triple
        (λ db. IsSound db × OwnHold req db)
        (issue_against_reservation wiring c req)
        (λ _. IsSound)
  unfolding issue_against_reservation
  issue_against_reservation-IsSound = raise_if-Triple (leb_ℤ req.quantity (pos 0)) _ _ λ positive.
      record {
        at = λ db (s, own).
            issue_held_row-IsSound db s own (find req.product_id req.warehouse_id db.inventory)
              (ground arith) refl;
      }
