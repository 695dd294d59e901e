-- ===== src/Stock/Soundness/Holds.antt =====
-- `reserve`, `consume` and `release` keep the invariant: the reserved quantity of a row stays the
-- total of its active holds, and the clamp `max(0, ...)` of the code never bites.
use inventory_management_sys.Base.{
  ℕ, ◌+◌, String, ◌≡◌, refl, true, false, ◌⊎◌, inl, inr, Bool-cases, none, some, Option, List, ◌∷◌,
  arith, if◌then◌else◌,
}
use inventory_management_sys.Base.Int.{ℤ, pos, ◌+ℤ◌, ◌-ℤ◌, ◌≤ℤ◌, leb_ℤ, min_ℤ, max_ℤ, int_laws}
use inventory_management_sys.Base.Result.{Ensures, Triple}
use inventory_management_sys.Stock.Tables.{
  MovementType, Inventory, StockMovement, InventoryReservation, Db,
}
use inventory_management_sys.Stock.Repository.{find, put, find-put, find-key, at_key}
use inventory_management_sys.Stock.Reservations.{find_hold, put_hold, consumed_hold, consume}
use inventory_management_sys.Stock.Ledger.{
  Bucket, on_hand, reserved, damaged, qty, hold_qty, stock, booked, held-put_hold,
}
use inventory_management_sys.Stock.Invariant.{Sound, stock-found, hold-Sound}
use inventory_management_sys.Stock.Holding.{
  find_hold-FoundHold, find_hold-own, hold-le-held, All-put_hold,
}
use inventory_management_sys.Stock.Posting.{Locked, found_nonneg, stock-own}

-- The row after `take` units of a hold on it are given up.
abbrev pub unheld : Inventory → ℤ → Inventory
unheld inv take = record inv {
  qty_reserved = max_ℤ (pos 0) (inv.qty_reserved -ℤ take);
  version = inv.version + 1;
}

-- The hold `r` on the row `inv` of (p, w).
pub record HeldOn (p w id : ℕ) (kind : String) (inv : Inventory) (r : InventoryReservation)
    (db : Db) : Type 0 where
  pub locked : Locked p w inv db
  pub hold : find_hold id kind db.reservations ≡ some r
  pub of_product : r.product_id ≡ p
  pub of_warehouse : r.warehouse_id ≡ w

module _ {p w id : ℕ} {kind : String} {inv : Inventory} {r : InventoryReservation} {db : Db}
    (on : HeldOn p w id kind inv r db) where
  -- The hold is covered by the reserved quantity of the row.
  pub hold-le-reserved : (pos 0 ≤ℤ r.qty) × (r.qty ≤ℤ inv.qty_reserved)
  unfolding hold_qty
  hold-le-reserved =
      let le = hold-le-held id kind p w db.reservations r on.hold on.locked.sound.hold_nonneg in
      let f = find_hold-FoundHold id kind db.reservations r on.hold in
      grind (
        int_laws,
        le,
        f.is_held,
        on.of_product,
        on.of_warehouse,
        on.locked.sound.holds p w,
        stock-found reserved p w db.inventory (some inv) on.locked.found,
      )

  module _ (take : ℤ) (positive : pos 0 ≤ℤ take) (covered : take ≤ℤ r.qty)
      (h : InventoryReservation)
      (left : (p w : ℕ)
        → hold_qty p w r ≡ hold_qty p w h +ℤ (if at_key p w inv then take else pos 0))
      (left_nonneg : pos 0 ≤ℤ h.qty) (m : StockMovement)
      (unreserves : m.movement_type ≡ MovementType.unreserve) (mp : m.product_id ≡ inv.product_id)
      (mw : m.warehouse_id ≡ inv.warehouse_id) (mq : m.quantity ≡ take) where
    unheld-moved :
        (b : Bucket)
        → qty b (unheld inv take)
          ≡ stock b inv.product_id inv.warehouse_id db.inventory
            +ℤ booked b m.movement_type m.quantity
    unheld-moved b = rw (stock-own b p w db.inventory inv on.locked.found, unreserves, mq) (each b)
      where
        each :
            (b : Bucket)
            → qty b (unheld inv take) ≡ qty b inv +ℤ booked b MovementType.unreserve take
        each on_hand = omega int_laws
        each reserved = grind (int_laws, hold-le-reserved)
        each damaged = omega int_laws

    unheld_nonneg : (b : Bucket) → pos 0 ≤ℤ qty b (unheld inv take)
    unheld_nonneg on_hand = found_nonneg on_hand p w on.locked.found on.locked.sound
    unheld_nonneg reserved = ground arith
    unheld_nonneg damaged = found_nonneg damaged p w on.locked.found on.locked.sound

    pub unheld-Sound :
        Sound
          (put (unheld inv take) db.inventory)
          (m ∷ db.movements)
          (put_hold r.reference_id r.reference_type h db.reservations)
    unheld-Sound =
        hold-Sound (unheld inv take) m (put_hold r.reference_id r.reference_type h db.reservations)
          mp mw unheld-moved unheld_nonneg
          (λ p' w'.
            rw (unreserves, mq)
              (grind (
                int_laws,
                left p' w',
                held-put_hold p' w' r.reference_id r.reference_type db.reservations r h
                    (find_hold-own id kind db.reservations r on.hold),
              )))
          (All-put_hold r.reference_id r.reference_type h db.reservations left_nonneg
            on.locked.sound.hold_nonneg)
          on.locked.sound

-- What a hold counts for before, in terms of what it counts for after `take` of it are used up.
consumed-left :
    {p w id : ℕ} {kind : String} {inv : Inventory} {r : InventoryReservation} {db : Db}
    (on : HeldOn p w id kind inv r db) (take : ℤ)
    → take ≤ℤ r.qty
    → (p' w' : ℕ)
    → hold_qty p' w' r
      ≡ hold_qty p' w' (consumed_hold db.now r take) +ℤ (if at_key p' w' inv then take else pos 0)
unfolding hold_qty
consumed-left {p} {w} {id} {kind} {inv} {r} {db} on take le p' w' = grind (
  int_laws,
  (find_hold-FoundHold id kind db.reservations r on.hold).is_held,
  on.of_product,
  on.of_warehouse,
  find-key p w db.inventory on.locked.found,
)

pub released-left :
    {p w id : ℕ} {kind : String} {inv : Inventory} {r : InventoryReservation} {db : Db}
    (on : HeldOn p w id kind inv r db) (h : InventoryReservation)
    → h.qty ≡ pos 0
    → (p' w' : ℕ)
    → hold_qty p' w' r ≡ hold_qty p' w' h +ℤ (if at_key p' w' inv then r.qty else pos 0)
unfolding hold_qty
released-left {p} {w} {id} {kind} {inv} {r} {db} on h e p' w' = grind (
  int_laws,
  (find_hold-FoundHold id kind db.reservations r on.hold).is_held,
  on.of_product,
  on.of_warehouse,
  find-key p w db.inventory on.locked.found,
)

pub find-put_own :
    (p w : ℕ) (rows : List Inventory) (old new : Inventory)
    → find p w rows ≡ some old
    → new.product_id ≡ old.product_id
    → new.warehouse_id ≡ old.warehouse_id
    → find p w (put new rows) ≡ some new
find-put_own p w rows old new h ep ew = ground (arith, find-put p w new rows, find-key p w rows h)

-- What an issue of `q` takes out of a hold.
abbrev pub drawn : ℤ → Option InventoryReservation → ℤ
drawn q none = pos 0
drawn q (some r) = min_ℤ q r.qty

-- The row after a consumption: the taken units are no longer reserved, and all are still there.
pub record Unheld (p w : ℕ) (inv : Inventory) (q : ℤ) (hold : Option InventoryReservation)
    (inv' : Inventory) (db : Db) : Type 0 where
  pub locked : Locked p w inv' db
  pub same_on_hand : inv'.qty_on_hand ≡ inv.qty_on_hand
  pub same_damaged : inv'.qty_damaged ≡ inv.qty_damaged
  pub less_reserved : inv'.qty_reserved ≡ inv.qty_reserved -ℤ drawn q hold

pub consume-Unheld :
    {p w id : ℕ} {kind : String} (inv : Inventory) (r : InventoryReservation) (q : ℤ)
    (user : Option ℕ)
    → pos 0 ≤ℤ q
    → Triple (HeldOn p w id kind inv r) (consume inv r q user) (Unheld p w inv q (some r))
unfolding consume
consume-Unheld {p} {w} {id} {kind} inv r q user pq = record {
  at = λ db on. consumed db on (Bool-cases (leb_ℤ (min_ℤ q r.qty) (pos 0)));
}
  where
    consumed :
        (db : Db) (on : HeldOn p w id kind inv r db)
        → (leb_ℤ (min_ℤ q r.qty) (pos 0) ≡ true) ⊎ (leb_ℤ (min_ℤ q r.qty) (pos 0) ≡ false)
        → Ensures (Unheld p w inv q (some r)) (consume inv r q user db)
    consumed db on (inl nothing) = rw nothing (record {
      locked = on.locked;
      same_on_hand = refl;
      same_damaged = refl;
      less_reserved = grind (int_laws, hold-le-reserved on);
    })
    consumed db on (inr something) = rw something (record {
      locked = record {
        sound =
            unheld-Sound on (min_ℤ q r.qty) (ground arith) (ground arith)
              (consumed_hold db.now r (min_ℤ q r.qty))
              (consumed-left on (min_ℤ q r.qty) (ground arith)) (grind int_laws) _ refl refl refl
              refl;
        found =
            find-put_own p w db.inventory inv (unheld inv (min_ℤ q r.qty)) on.locked.found refl
              refl;
      };
      same_on_hand = refl;
      same_damaged = refl;
      less_reserved = grind (int_laws, hold-le-reserved on);
    })
