-- ===== src/Stock/Refinement/Drawing.antt =====
-- `issue_against_reservation` shifts the goods that the tables show: giving up a hold moves none.
use inventory_management_sys.Base.{
  ℕ, ◌≡◌, refl, ◌||◌, inl, inr, Bool-cases, String, Option, none, some, arith,
}
use inventory_management_sys.Base.Int.{ℤ, pos, ◌+ℤ◌, ◌-ℤ◌, ◌≤ℤ◌, ltb_ℤ, leb_ℤ, min_ℤ}
use inventory_management_sys.Base.Result.{
  ◌>>=◌, Ensures, Ensures-both, Ensures-any, Ensures-bind, Triple, Triple-bind,
}
use inventory_management_sys.Stock.Tables.{Inventory, InventoryReservation, Db}
use inventory_management_sys.Stock.Repository.{find}
use inventory_management_sys.Stock.Reservations.{consume}
use inventory_management_sys.Stock.Posting.{take_on_hand-Shifts}
use inventory_management_sys.Stock.Context.{Call, Wiring, available, take_on_hand}
use inventory_management_sys.Stock.Service.Held.{
  HeldIssue, kind_of, hold_of, own_hold, consume_own, feed_demand, issue_held_from, issue_held_row,
  issue_against_reservation,
}
use inventory_management_sys.Stock.Soundness.Reads.{raise_if-Triple}
use inventory_management_sys.Stock.Soundness.Holds.{Unheld, unheld}
use inventory_management_sys.Stock.Soundness.Reserved.{
  OwnHold, Ready, reference, reference-own, hold_of-Ready, consume_own-Unheld,
  issue_against_reservation-IsSound,
}
use inventory_management_sys.Stock.Requests.{Goods, shift}
use inventory_management_sys.Stock.Refinement.Shows.{
  Shows, ShowsRows, flow-ShowsRows, same-ShowsRows,
}

consume-ShowsRows :
    (g : Goods) (p w : ℕ) (inv : Inventory) (r : InventoryReservation) (q : ℤ) (user : Option ℕ)
    (db : Db)
    → find p w db.inventory ≡ some inv
    → ShowsRows g db.inventory
    → Ensures (λ _ db'. ShowsRows g db'.inventory) (consume inv r q user db)
unfolding consume
consume-ShowsRows g p w inv r q user db found s =
    elim (Bool-cases (leb_ℤ (min_ℤ q r.qty) (pos 0))) [
      | inl nothing ↦ rw nothing s
      | inr something ↦ rw something (
          same-ShowsRows g p w inv (unheld inv (min_ℤ q r.qty)) db.inventory found refl refl refl s)
    ]

feed_demand-ShowsRows :
    (g : Goods) (req : HeldIssue) (o : Option String) (db : Db)
    → ShowsRows g db.inventory
    → Ensures (λ _ db'. ShowsRows g db'.inventory) (feed_demand req o db)
feed_demand-ShowsRows g req none db s = s
feed_demand-ShowsRows g req (some source) db s = s

module _ (c : Call) (req : HeldIssue) (positive : pos 0 ≤ℤ req.quantity) (g : Goods) where
  record Used (inv : Inventory) (hold : Option InventoryReservation) (inv' : Inventory) (db : Db)
      : Type 0 where
    unheld : Unheld req.product_id req.warehouse_id inv req.quantity hold inv' db
    goods : ShowsRows g db.inventory

  consume_own-ShowsRows :
      (inv : Inventory) (hold : Option InventoryReservation) (db : Db)
      → find req.product_id req.warehouse_id db.inventory ≡ some inv
      → ShowsRows g db.inventory
      → Ensures
          (λ _ db'. ShowsRows g db'.inventory)
          (consume_own req.quantity c.user_id inv hold db)
  consume_own-ShowsRows inv none db found s = s
  consume_own-ShowsRows inv (some h) db found s =
      consume-ShowsRows g req.product_id req.warehouse_id inv h req.quantity (some c.user_id) db
        found s

  issue_held_from-ShowsRows :
      (inv : Inventory) (hold : Option InventoryReservation)
      → req.quantity ≤ℤ inv.qty_on_hand
      → Triple
          (λ db. Ready req inv hold db × ShowsRows g db.inventory)
          (issue_held_from c req inv hold)
          (λ _ db.
            ShowsRows
              (shift req.product_id req.warehouse_id (pos 0 -ℤ req.quantity) g)
              db.inventory)
  unfolding issue_held_from
  issue_held_from-ShowsRows inv hold enough =
      Triple-bind {Q = Used inv hold}
        (record {
          at = λ db h.
              Ensures-both (consume_own req.quantity c.user_id inv hold db)
                (λ inv' db' u s. record { unheld = u; goods = s })
                (consume_own-Unheld c req positive inv enough hold db h.0)
                (consume_own-ShowsRows inv hold db h.0.locked.found h.1);
        })
        λ inv'. record {
          at = λ db u. feed_demand-ShowsRows _ req req.demand_source _ (
              flow-ShowsRows g req.product_id req.warehouse_id inv' (take_on_hand req.quantity inv')
                (pos 0 -ℤ req.quantity) db.inventory u.unheld.locked.found
                (take_on_hand-Shifts req.quantity inv') u.goods);
        }

hold_of-ShowsRows :
    (g : Goods) (ref : Option ℕ) (kind : String) (db : Db)
    → ShowsRows g db.inventory
    → Ensures (λ _ db'. ShowsRows g db'.inventory) (hold_of ref kind db)
hold_of-ShowsRows g none kind db s = s
hold_of-ShowsRows g (some id) kind db s = s

module _ (wiring : Wiring) (c : Call) (req : HeldIssue) (g : Goods) where
  issue_held_row-ShowsRows :
      (db : Db) (o : Option Inventory)
      → Shows g db
      → OwnHold req db
      → pos 0 ≤ℤ req.quantity
      → find req.product_id req.warehouse_id db.inventory ≡ o
      → Ensures
          (λ _ db'.
            ShowsRows
              (shift req.product_id req.warehouse_id (pos 0 -ℤ req.quantity) g)
              db'.inventory)
          ((hold_of (reference wiring req) (kind_of req.reservation_ref_type) >>= λ hold.
              issue_held_row c req hold o)
            db)
  issue_held_row-ShowsRows db none s own positive e =
      Ensures-bind {Q = λ _ _. Unit}
        (hold_of (reference wiring req) (kind_of req.reservation_ref_type) db) _
        (Ensures-any (hold_of (reference wiring req) (kind_of req.reservation_ref_type) db))
        (λ hold. record { at = λ db' h. tt })
  issue_held_row-ShowsRows db (some inv) s own positive e =
      Ensures-bind {Q = λ hold db'. Ready req inv hold db' × ShowsRows g db'.inventory}
        (hold_of (reference wiring req) (kind_of req.reservation_ref_type) db) _
        (Ensures-both (hold_of (reference wiring req) (kind_of req.reservation_ref_type) db)
          (λ hold db' r t. (r, t))
          (hold_of-Ready wiring c req db s.sound own inv (reference wiring req) e
            (reference-own wiring c req))
          (hold_of-ShowsRows g (reference wiring req) (kind_of req.reservation_ref_type) db
            s.goods))
        (λ hold.
          raise_if-Triple
            (ltb_ℤ inv.qty_on_hand req.quantity
              || ltb_ℤ (available inv +ℤ own_hold hold) req.quantity)
            _ _ λ enough. issue_held_from-ShowsRows c req positive g inv hold (ground arith))

  pub issue_against_reservation-Shows :
      Triple
        (λ db. Shows g db × OwnHold req db)
        (issue_against_reservation wiring c req)
        (λ _. Shows (shift req.product_id req.warehouse_id (pos 0 -ℤ req.quantity) g))
  unfolding issue_against_reservation
  issue_against_reservation-Shows = record {
    at = λ db (s, own).
        Ensures-both (issue_against_reservation wiring c req db)
          (λ _ db' sound goods. record { sound = sound; goods = goods })
          ((issue_against_reservation-IsSound wiring c req).at db (s.sound, own))
          ((raise_if-Triple {P = λ db. Shows g db × OwnHold req db} (leb_ℤ req.quantity (pos 0)) _ _
              λ positive. record {
                at = λ db' h.
                    issue_held_row-ShowsRows db'
                      (find req.product_id req.warehouse_id db'.inventory) h.0 h.1 (ground arith)
                      refl;
              }).at
            db (s, own));
  }
