-- ===== src/Stock/Soundness/Release.antt =====
-- `release` and `reserve` keep the invariant.
use inventory_management_sys.Base.{
  ℕ, ◌+◌, String, ◌≡◌, refl, ◌⊎◌, true, false, inl, inr, Bool-cases, Option, some, ◌∷◌, arith,
}
use inventory_management_sys.Base.Int.{ℤ, pos, ◌+ℤ◌, ◌-ℤ◌, ◌≤ℤ◌, leb_ℤ, int_laws}
use inventory_management_sys.Base.Result.{Ensures, Triple}
use inventory_management_sys.Stock.Tables.{
  MovementType, Inventory, StockMovement, InventoryReservation, released, Db,
}
use inventory_management_sys.Stock.Reservations.{
  put_hold, reserve, release, new_hold, hold_movement,
}
use inventory_management_sys.Stock.Ledger.{
  Bucket, on_hand, reserved, damaged, qty, hold_qty, held, held-put_hold, booked,
}
use inventory_management_sys.Stock.Invariant.{Sound, IsSound, hold-Sound}
use inventory_management_sys.Stock.Holding.{find_hold-own, All-put_hold}
use inventory_management_sys.Stock.Posting.{Locked, found_nonneg, stock-own}
use inventory_management_sys.Stock.Soundness.Holds.{
  HeldOn, hold-le-reserved, released-left, unheld, unheld-Sound, find-put_own,
}

-- A released hold of nothing leaves every total alone.
close-Sound :
    {p w id : ℕ} {kind : String} {inv : Inventory} {r : InventoryReservation} {db : Db}
    (on : HeldOn p w id kind inv r db)
    → leb_ℤ r.qty (pos 0) ≡ true
    → Sound db.inventory db.movements (
        put_hold r.reference_id r.reference_type
          (record r { status = released; released_at = some db.now })
          db.reservations)
unfolding hold_qty
close-Sound {p} {w} {id} {kind} {inv} {r} {db} on nothing = record {
  books = on.locked.sound.books;
  holds = λ p' w'. grind (
    int_laws,
    on.locked.sound.holds p' w',
    hold-le-reserved on,
    held-put_hold p' w' r.reference_id r.reference_type db.reservations r
        (record r { status = released; released_at = some db.now })
        (find_hold-own id kind db.reservations r on.hold),
  );
  nonneg = on.locked.sound.nonneg;
  hold_nonneg =
      All-put_hold r.reference_id r.reference_type
        (record r { status = released; released_at = some db.now }) db.reservations
        (hold-le-reserved on).0 on.locked.sound.hold_nonneg;
}

-- The row after a release: the whole hold is available again.
pub record Released (p w : ℕ) (inv : Inventory) (r : InventoryReservation) (inv' : Inventory)
    (db : Db) : Type 0 where
  pub locked : Locked p w inv' db
  pub same_on_hand : inv'.qty_on_hand ≡ inv.qty_on_hand
  pub same_damaged : inv'.qty_damaged ≡ inv.qty_damaged
  pub less_reserved : inv'.qty_reserved ≡ inv.qty_reserved -ℤ r.qty

pub release-Released :
    {p w id : ℕ} {kind : String} (inv : Inventory) (r : InventoryReservation) (user : Option ℕ)
    → Triple (HeldOn p w id kind inv r) (release inv r user) (Released p w inv r)
unfolding release
release-Released {p} {w} {id} {kind} inv r user = record {
  at = λ db on. released_from db on (Bool-cases (leb_ℤ r.qty (pos 0)));
}
  where
    released_from :
        (db : Db) (on : HeldOn p w id kind inv r db)
        → (leb_ℤ r.qty (pos 0) ≡ true) ⊎ (leb_ℤ r.qty (pos 0) ≡ false)
        → Ensures (Released p w inv r) (release inv r user db)
    released_from db on (inl nothing) = rw nothing (record {
      locked = record { sound = close-Sound on nothing; found = on.locked.found };
      same_on_hand = refl;
      same_damaged = refl;
      less_reserved = grind (int_laws, hold-le-reserved on);
    })
    released_from db on (inr something) =
        let h = record r { qty = pos 0; status = released; released_at = some db.now } in
        rw something (record {
          locked = record {
            sound =
                unheld-Sound on r.qty (hold-le-reserved on).0 (omega arith) h
                  (released-left on h refl) (omega arith) _ refl refl refl refl;
            found = find-put_own p w db.inventory inv (unheld inv r.qty) on.locked.found refl refl;
          };
          same_on_hand = refl;
          same_damaged = refl;
          less_reserved = grind (int_laws, hold-le-reserved on);
        })

module _ (p w : ℕ) (inv : Inventory) (q : ℤ) (id : ℕ) (user : Option ℕ) (kind : String) where
  abbrev reserving : Inventory
  reserving = record inv { qty_reserved = inv.qty_reserved +ℤ q; version = inv.version + 1 }

  abbrev reserve_entry : StockMovement
  reserve_entry = hold_movement MovementType.reserve inv (pos 0 -ℤ q) kind id "Stock reserved" user

  reserving-moved :
      (b : Bucket) → qty b reserving ≡ qty b inv +ℤ booked b MovementType.reserve (pos 0 -ℤ q)
  reserving-moved on_hand = omega int_laws
  reserving-moved reserved = omega int_laws
  reserving-moved damaged = omega int_laws

  reserving_nonneg :
      (db : Db) → pos 0 ≤ℤ q → Locked p w inv db → (b : Bucket) → pos 0 ≤ℤ qty b reserving
  reserving_nonneg db h l on_hand = found_nonneg on_hand p w l.found l.sound
  reserving_nonneg db h l reserved = omega (int_laws, found_nonneg reserved p w l.found l.sound)
  reserving_nonneg db h l damaged = found_nonneg damaged p w l.found l.sound

  -- A new hold of `q` on a locked row adds `q` to its reserved quantity, and nothing else moves.
  pub reserve-IsSound :
      pos 0 ≤ℤ q → Triple (Locked p w inv) (reserve inv q id user kind) (λ _. IsSound)
  unfolding reserve held hold_qty
  reserve-IsSound h = record {
    at = λ db l.
        hold-Sound reserving reserve_entry (new_hold inv q id user kind ∷ db.reservations) refl refl
          (λ b. rw (stock-own b p w db.inventory inv l.found) (reserving-moved b))
          (reserving_nonneg db h l) (λ p' w'. grind int_laws) (h, l.sound.hold_nonneg) l.sound;
  }
