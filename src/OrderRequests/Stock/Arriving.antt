-- ===== src/OrderRequests/Stock/Arriving.antt =====
-- Crediting a destination with good and damaged units keeps the stock sound.
use inventory_management_sys.Base.{
  ℕ, ◌≡◌, refl, ◌∷◌, ◌&&◌, ◌||◌, inl, inr, Bool-cases, Option, none, some, arith, ◌+◌,
}
use inventory_management_sys.Base.Int.{ℤ, pos, ◌+ℤ◌, ◌≤ℤ◌, eqb_ℤ, ltb_ℤ, int_laws}
use inventory_management_sys.Base.Result.{◌>>=◌, ◌>>◌, Ensures, Ensures-both, Triple, Triple-bind}
use inventory_management_sys.Stock.Tables.{transfer_in, damage, Inventory, StockMovement, Db}
use inventory_management_sys.Stock.Repository.{save, find, put, find-key}
use inventory_management_sys.Stock.Ledger.{Bucket, on_hand, reserved, damaged, qty, booked, stock}
use inventory_management_sys.Stock.Invariant.{IsSound, stock-put, post-Sound}
use inventory_management_sys.Stock.Posting.{
  Locked, stock-own, found_nonneg, get_or_create_locked-Locked,
}
use inventory_management_sys.Stock.Context.{get_or_create_locked, or_create}
use inventory_management_sys.Stock.Soundness.Holds.{find-put_own}
use inventory_management_sys.Stock.Soundness.Reads.{raise_if-Triple}
use inventory_management_sys.OrderRequests.Tables.{RequestLine}
use inventory_management_sys.OrderRequests.Repository.{
  check_row, credit_good, credit_damaged, receive_line,
}
use inventory_management_sys.Stock.Reservations.{ref_type}
use inventory_management_sys.Stock.Places.{Place, Stands}
use inventory_management_sys.OrderRequests.Stock.Taking.{Kept}

-- The destination's row while it is credited.
record Holding (place : Place) (p w : ℕ) (inv : Inventory) (db : Db) : Type 0 where
  locked : Locked p w inv db
  stands : Stands ref_type place db

module _ (place : Place) (p w : ℕ) where
  created-Stands :
      (o : Option Inventory) (db : Db)
      → Stands ref_type place db
      → Ensures (λ _. Stands ref_type place) (or_create p w o db)
  created-Stands none db s = s
  created-Stands (some inv) db s = s

  get-Holding : Triple (Kept place) (get_or_create_locked p w) (Holding place p w)
  unfolding get_or_create_locked
  get-Holding = record {
    at = λ db k.
        Ensures-both (get_or_create_locked p w db)
          (λ inv db' l s. record { locked = l; stands = s })
          ((get_or_create_locked-Locked p w).at db k.sound)
          (created-Stands (find p w db.inventory) db k.stands);
  }

  module _ (inv inv' : Inventory) (ep : inv'.product_id ≡ inv.product_id)
      (ew : inv'.warehouse_id ≡ inv.warehouse_id) (db : Db) (l : Locked p w inv db) where
    own-stock : (b : Bucket) → stock b inv'.product_id inv'.warehouse_id db.inventory ≡ qty b inv
    own-stock b = cc (stock-own b p w db.inventory inv l.found, ep, ew)

    -- Writing the locked row back with one movement that books nothing on what is held.
    post-Locked :
        (m : StockMovement)
        → m.product_id ≡ p
        → m.warehouse_id ≡ w
        → ((b : Bucket) → qty b inv' ≡ qty b inv +ℤ booked b m.movement_type m.quantity)
        → ((b : Bucket) → pos 0 ≤ℤ qty b inv')
        → booked reserved m.movement_type m.quantity ≡ pos 0
        → Locked p w inv'
            (record db { inventory = put inv' db.inventory; movements = m ∷ db.movements })
    post-Locked m mp mw moved fits free = record {
      sound =
          post-Sound inv' m (cc (mp, ep, (find-key p w db.inventory l.found).0))
            (cc (mw, ew, (find-key p w db.inventory l.found).1)) (λ b. rw (own-stock b) (moved b))
            fits free l.sound;
      found = find-put_own p w db.inventory inv inv' l.found ep ew;
    }

    -- Writing the locked row back with the quantities it has.
    same-stock :
        ((b : Bucket) → qty b inv' ≡ qty b inv)
        → (b : Bucket) (p' w' : ℕ)
        → stock b p' w' (put inv' db.inventory) ≡ stock b p' w' db.inventory
    same-stock same b p' w' =
        ground (arith, stock-put b p' w' inv' db.inventory, own-stock b, same b)

    resave-Sound :
        ((b : Bucket) → qty b inv' ≡ qty b inv)
        → IsSound (record db { inventory = put inv' db.inventory })
    resave-Sound same = record {
      books = λ b p' w'. rw (same-stock same b p' w') (l.sound.books b p' w');
      holds = λ p' w'. rw (same-stock same reserved p' w') (l.sound.holds p' w');
      nonneg = λ b p' w'. rw (same-stock same b p' w') (l.sound.nonneg b p' w');
      hold_nonneg = l.sound.hold_nonneg;
    }

-- Crediting: the row stays there, and no quantity becomes negative.
module _ (place : Place) (request_id user : ℕ) (line : RequestLine) (dest : ℕ) where
  credit_good-Holding :
      (received : ℤ) (inv : Inventory)
      → pos 0 ≤ℤ inv.qty_on_hand +ℤ received
      → Triple
          (Holding place line.product_id dest inv)
          (credit_good request_id user line dest received inv)
          (λ inv' db.
            Holding place line.product_id dest inv' db × (inv'.qty_damaged ≡ inv.qty_damaged))
  unfolding credit_good
  credit_good-Holding received inv fits = record {
    at = λ db h. elim (Bool-cases (eqb_ℤ received (pos 0))) [
      | inl nothing ↦ rw nothing (h, refl)
      | inr some_good ↦ rw some_good (
        record {
          locked =
              post-Locked place line.product_id dest inv
                (record inv { qty_on_hand = inv.qty_on_hand +ℤ received }) refl refl db h.locked _
                refl refl moved (nonneg db h) refl;
          stands = h.stands;
        },
        refl,
      )
    ];
  }
    where
      moved :
          (b : Bucket)
          → qty b (record inv { qty_on_hand = inv.qty_on_hand +ℤ received })
            ≡ qty b inv +ℤ booked b transfer_in received
      moved on_hand = refl
      moved reserved = omega int_laws
      moved damaged = omega int_laws

      nonneg :
          (db : Db)
          → Holding place line.product_id dest inv db
          → (b : Bucket) → pos 0 ≤ℤ qty b (record inv { qty_on_hand = inv.qty_on_hand +ℤ received })
      nonneg db h on_hand = fits
      nonneg db h reserved =
          found_nonneg reserved line.product_id dest h.locked.found h.locked.sound
      nonneg db h damaged = found_nonneg damaged line.product_id dest h.locked.found h.locked.sound

  credit_damaged-Holding :
      (units : ℤ) (inv : Inventory)
      → pos 0 ≤ℤ inv.qty_damaged +ℤ units
      → Triple
          (Holding place line.product_id dest inv)
          (credit_damaged request_id user line dest units inv)
          (Holding place line.product_id dest)
  unfolding credit_damaged
  credit_damaged-Holding units inv fits = record {
    at = λ db h. elim (Bool-cases (eqb_ℤ units (pos 0))) [
      | inl nothing ↦ rw nothing h
      | inr some_damage ↦ rw some_damage (record {
        locked =
            post-Locked place line.product_id dest inv
              (record inv { qty_damaged = inv.qty_damaged +ℤ units }) refl refl db h.locked _ refl
              refl moved (nonneg db h) refl;
        stands = h.stands;
      })
    ];
  }
    where
      moved :
          (b : Bucket)
          → qty b (record inv { qty_damaged = inv.qty_damaged +ℤ units })
            ≡ qty b inv +ℤ booked b damage units
      moved on_hand = omega int_laws
      moved reserved = omega int_laws
      moved damaged = refl

      nonneg :
          (db : Db)
          → Holding place line.product_id dest inv db
          → (b : Bucket) → pos 0 ≤ℤ qty b (record inv { qty_damaged = inv.qty_damaged +ℤ units })
      nonneg db h on_hand = found_nonneg on_hand line.product_id dest h.locked.found h.locked.sound
      nonneg db h reserved =
          found_nonneg reserved line.product_id dest h.locked.found h.locked.sound
      nonneg db h damaged = fits

  pub receive_line-Kept :
      (received units : ℤ)
      → Triple
          (Kept place)
          (receive_line request_id user line dest received units)
          (λ _. Kept place)
  unfolding receive_line
  receive_line-Kept received units = record {
    at = λ db k. elim (Bool-cases (eqb_ℤ received (pos 0) && eqb_ℤ units (pos 0))) [
      | inl nothing ↦ rw nothing k
      | inr credited ↦ rw credited (credit.at db k)
    ];
  }
    where
      bumped :
          (inv : Inventory)
          → Triple
              (Holding place line.product_id dest inv)
              (save (record inv { version = inv.version + 1 }))
              (λ _. Kept place)
      bumped inv = record {
        at = λ db h. record {
          sound =
              resave-Sound place line.product_id dest inv (record inv { version = inv.version + 1 })
                refl refl db h.locked (same inv);
          stands = h.stands;
        };
      }
        where
          same :
              (inv : Inventory) (b : Bucket)
              → qty b (record inv { version = inv.version + 1 }) ≡ qty b inv
          same inv on_hand = refl
          same inv reserved = refl
          same inv damaged = refl

      credit :
          Triple
            (Kept place)
            (do
              inv ← get_or_create_locked line.product_id dest
              check_row inv received units
              good ← credit_good request_id user line dest received inv
              both ← credit_damaged request_id user line dest units good
              save (record both { version = both.version + 1 }))
            (λ _. Kept place)
      credit = Triple-bind (get-Holding place line.product_id dest) λ inv.
          raise_if-Triple
            (ltb_ℤ (inv.qty_on_hand +ℤ received) (pos 0)
              || ltb_ℤ (inv.qty_damaged +ℤ units) (pos 0))
            _ _
            λ fits. Triple-bind (credit_good-Holding received inv (ground (arith, fits))) λ good.
              record {
                at = λ db (h, same).
                    (Triple-bind
                        (credit_damaged-Holding units good (rw same (ground (arith, fits))))
                        bumped).at
                      db h;
              }
