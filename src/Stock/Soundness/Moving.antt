-- ===== src/Stock/Soundness/Moving.antt =====
-- `transfer` keeps the invariant.
use inventory_management_sys.Base.{
  ℕ, ◌≡◌, ◌≢◌, refl, leb, ◌==◌, inl, inr, Bool-cases, Option, none, some, ◌∷◌, arith,
}
use inventory_management_sys.Base.Int.{pos, ◌-ℤ◌, ◌≤ℤ◌, ltb_ℤ, int_laws}
use inventory_management_sys.Base.Result.{Ensures, Triple, Triple-bind}
use inventory_management_sys.Stock.Tables.{Inventory, StockMovement, Db}
use inventory_management_sys.Stock.Repository.{find, put, find-put, find-key, empty_row}
use inventory_management_sys.Stock.Ledger.{on_hand, reserved, damaged}
use inventory_management_sys.Stock.Invariant.{Sound, IsSound, insert-Sound}
use inventory_management_sys.Stock.Posting.{
  Flows, find-insert, Locked, flow-Sound, get_or_create_locked-Locked, add_on_hand-Shifts,
  take_on_hand-Shifts, found_nonneg,
}
use inventory_management_sys.Stock.Context.{
  Call, available, or_create, get_or_create_locked, add_on_hand, take_on_hand,
}
use inventory_management_sys.Stock.Service.Relocate.{
  TransferStockRequest, lock_both, move, move_available, transfer,
}
use inventory_management_sys.Stock.Soundness.Reads.{
  require_product-keeps, require_warehouse-keeps, raise_if-Triple,
}

-- Both rows stand in the table.
pub record BothLocked (p from to : ℕ) (both : Inventory × Inventory) (db : Db) : Type 0 where
  pub sound : IsSound db
  pub source : find p from db.inventory ≡ some both.0
  pub target : find p to db.inventory ≡ some both.1

-- Locking another row leaves a locked row where it was.
pub get_or_create_locked-keeps :
    (p w p' w' : ℕ) (inv : Inventory)
    → Triple
        (Locked p w inv)
        (get_or_create_locked p' w')
        (λ inv' db. Locked p' w' inv' db × (find p w db.inventory ≡ some inv))
unfolding get_or_create_locked
get_or_create_locked-keeps p w p' w' inv = record {
  at = λ db l. kept db l (find p' w' db.inventory) refl;
}
  where
    kept :
        (db : Db)
        → Locked p w inv db
        → (o : Option Inventory) → find p' w' db.inventory ≡ o
        → Ensures
            (λ inv' db. Locked p' w' inv' db × (find p w db.inventory ≡ some inv))
            (or_create p' w' o db)
    kept db l none e = (
      record { sound = insert-Sound p' w' e l.sound; found = find-insert p' w' db.inventory },
      ground (arith, find-put p w (empty_row p' w') db.inventory, l.found, e),
    )
    kept db l (some inv') e = (record { sound = l.sound; found = e }, l.found)

pub lock_both-BothLocked :
    (p from to : ℕ) → Triple IsSound (lock_both p from to) (BothLocked p from to)
unfolding lock_both
lock_both-BothLocked p from to = elim (Bool-cases (leb from to)) [
  | inl e ↦ rw e (
      Triple-bind (get_or_create_locked-Locked p from) λ src.
        Triple-bind (get_or_create_locked-keeps p from p to src) λ dst. record {
          at = λ db h. record { sound = h.0.sound; source = h.1; target = h.0.found };
        })
  | inr e ↦ rw e (
      Triple-bind (get_or_create_locked-Locked p to) λ dst.
        Triple-bind (get_or_create_locked-keeps p to p from dst) λ src. record {
          at = λ db h. record { sound = h.0.sound; source = h.0.found; target = h.1 };
        })
]

module _ (c : Call) (req : TransferStockRequest)
    (apart : req.from_warehouse_id ≢ req.to_warehouse_id) (positive : pos 0 ≤ℤ req.quantity) where
  module _ (both : Inventory × Inventory) (enough : req.quantity ≤ℤ available both.0) (db : Db)
      (l : BothLocked req.product_id req.from_warehouse_id req.to_warehouse_id both db) where
    -- The write to the source row does not touch the target row.
    pub target_kept :
        find req.product_id req.to_warehouse_id
          (put (take_on_hand req.quantity both.0) db.inventory)
        ≡ some both.1
    target_kept = ground (
      arith,
      find-put req.product_id req.to_warehouse_id (take_on_hand req.quantity both.0) db.inventory,
      find-key req.product_id req.from_warehouse_id db.inventory l.source,
      l.target,
    )

    source-Sound :
        (m : StockMovement)
        → Flows req.product_id req.from_warehouse_id (pos 0 -ℤ req.quantity) m
        → Sound
            (put (take_on_hand req.quantity both.0) db.inventory)
            (m ∷ db.movements)
            db.reservations
    source-Sound m flows =
        flow-Sound req.product_id req.from_warehouse_id both.0 (take_on_hand req.quantity both.0)
          (pos 0 -ℤ req.quantity) m l.source l.sound (take_on_hand-Shifts req.quantity both.0) flows
          (omega (
            int_laws,
            found_nonneg reserved req.product_id req.from_warehouse_id l.source l.sound,
            found_nonneg damaged req.product_id req.from_warehouse_id l.source l.sound,
          ))

  move-IsSound :
      (both : Inventory × Inventory)
      → req.quantity ≤ℤ available both.0
      → Triple
          (BothLocked req.product_id req.from_warehouse_id req.to_warehouse_id both)
          (move c req both.0 both.1)
          (λ _. IsSound)
  unfolding move
  move-IsSound both enough = record {
    at = λ db l.
        flow-Sound req.product_id req.to_warehouse_id both.1 (add_on_hand req.quantity both.1)
          req.quantity _ (target_kept both enough db l)
          (source-Sound both enough db l _
            (record { of_product = refl; of_warehouse = refl; of_quantity = refl; flow = refl }))
          (add_on_hand-Shifts req.quantity both.1)
          (record { of_product = refl; of_warehouse = refl; of_quantity = refl; flow = refl })
          (omega
            (int_laws, found_nonneg on_hand req.product_id req.to_warehouse_id l.target l.sound));
  }

  move_available-IsSound :
      (both : Inventory × Inventory)
      → Triple
          (BothLocked req.product_id req.from_warehouse_id req.to_warehouse_id both)
          (move_available c req both)
          (λ _. IsSound)
  move_available-IsSound (src, dst) =
      raise_if-Triple (ltb_ℤ (available src) req.quantity) _ _
        λ enough. move-IsSound (src, dst) (ground arith)

pub transfer-IsSound :
    (c : Call) (req : TransferStockRequest)
    → pos 0 ≤ℤ req.quantity
    → Triple IsSound (transfer c req) (λ _. IsSound)
unfolding transfer
transfer-IsSound c req positive =
    raise_if-Triple (req.from_warehouse_id == req.to_warehouse_id) _ _ λ apart.
      Triple-bind (require_product-keeps req.product_id) λ _.
        Triple-bind (require_warehouse-keeps req.from_warehouse_id) λ _.
          Triple-bind (require_warehouse-keeps req.to_warehouse_id) λ _.
            Triple-bind
              (lock_both-BothLocked req.product_id req.from_warehouse_id req.to_warehouse_id)
              λ both. move_available-IsSound c req (ground arith) positive both
