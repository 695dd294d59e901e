-- ===== src/Stock/Refinement/Relocating.antt =====
-- `transfer` and `issue_against_reservation` shift the goods that the tables show.
use inventory_management_sys.Base.{ℕ, ◌≢◌, leb, ◌==◌, inl, inr, Bool-cases, arith}
use inventory_management_sys.Base.Int.{pos, ◌-ℤ◌, ◌≤ℤ◌, ltb_ℤ}
use inventory_management_sys.Base.Result.{Ensures-both, Ensures-map, Triple, Triple-bind}
use inventory_management_sys.Stock.Tables.{Inventory, Db}
use inventory_management_sys.Stock.Repository.{put}
use inventory_management_sys.Stock.Posting.{add_on_hand-Shifts, take_on_hand-Shifts}
use inventory_management_sys.Stock.Context.{
  Call, available, get_or_create_locked, add_on_hand, take_on_hand,
}
use inventory_management_sys.Stock.Service.Relocate.{
  TransferStockRequest, lock_both, move, move_available, transfer,
}
use inventory_management_sys.Stock.Soundness.Reads.{
  require_product-keeps, require_warehouse-keeps, raise_if-Triple,
}
use inventory_management_sys.Stock.Soundness.Moving.{
  BothLocked, lock_both-BothLocked, target_kept, transfer-IsSound,
}
use inventory_management_sys.Stock.Requests.{Goods, shift}
use inventory_management_sys.Stock.Refinement.Shows.{
  Shows, ShowsRows, get_or_create_locked-Shows, flow-ShowsRows,
}
use inventory_management_sys.Stock.Refinement.Calls.{shows}

-- Locking a row that shows the goods gives back tables that show them.
get_or_create_locked-again :
    (g : Goods) (p w : ℕ) → Triple (Shows g) (get_or_create_locked p w) (λ _. Shows g)
get_or_create_locked-again g p w = record {
  at = λ db s.
      Ensures-map (get_or_create_locked p w db)
        (λ inv db' l. record { sound = l.locked.sound; goods = l.goods })
        ((get_or_create_locked-Shows g p w).at db s);
}

record BothShow (g : Goods) (p from to : ℕ) (both : Inventory × Inventory) (db : Db) : Type 0 where
  locked : BothLocked p from to both db
  goods : ShowsRows g db.inventory

lock_both-Shows :
    (g : Goods) (p from to : ℕ) → Triple (Shows g) (lock_both p from to) (λ _. Shows g)
unfolding lock_both
lock_both-Shows g p from to = elim (Bool-cases (leb from to)) [
  | inl e ↦ rw e (
      Triple-bind (get_or_create_locked-again g p from)
        λ src. Triple-bind (get_or_create_locked-again g p to) λ dst. record { at = λ db s. s })
  | inr e ↦ rw e (
      Triple-bind (get_or_create_locked-again g p to)
        λ dst. Triple-bind (get_or_create_locked-again g p from) λ src. record { at = λ db s. s })
]

lock_both-BothShow :
    (g : Goods) (p from to : ℕ) → Triple (Shows g) (lock_both p from to) (BothShow g p from to)
lock_both-BothShow g p from to = record {
  at = λ db s.
      Ensures-both (lock_both p from to db) (λ both db' l t. record { locked = l; goods = t.goods })
        ((lock_both-BothLocked p from to).at db s.sound) ((lock_both-Shows g p from to).at db s);
}

module _ (c : Call) (req : TransferStockRequest)
    (apart : req.from_warehouse_id ≢ req.to_warehouse_id) (positive : pos 0 ≤ℤ req.quantity)
    (g : Goods) where
  abbrev transferred : Goods
  transferred =
      shift req.product_id req.to_warehouse_id req.quantity
        (shift req.product_id req.from_warehouse_id (pos 0 -ℤ req.quantity) g)

  move_available-ShowsRows :
      (both : Inventory × Inventory)
      → Triple
          (BothShow g req.product_id req.from_warehouse_id req.to_warehouse_id both)
          (move_available c req both)
          (λ _ db. ShowsRows transferred db.inventory)
  unfolding move
  move_available-ShowsRows (src, dst) =
      raise_if-Triple (ltb_ℤ (available src) req.quantity) _ _ λ enough. record {
        at = λ db l.
            flow-ShowsRows _ req.product_id req.to_warehouse_id dst (add_on_hand req.quantity dst)
              req.quantity (put (take_on_hand req.quantity src) db.inventory)
              (target_kept c req apart positive (src, dst) (ground arith) db l.locked)
              (add_on_hand-Shifts req.quantity dst)
              (flow-ShowsRows g req.product_id req.from_warehouse_id src
                (take_on_hand req.quantity src) (pos 0 -ℤ req.quantity) db.inventory l.locked.source
                (take_on_hand-Shifts req.quantity src) l.goods);
      }

pub transfer-Shows :
    (c : Call) (req : TransferStockRequest) (g : Goods)
    → pos 0 ≤ℤ req.quantity
    → Triple (Shows g) (transfer c req) (λ _. Shows (
        shift req.product_id req.to_warehouse_id req.quantity
          (shift req.product_id req.from_warehouse_id (pos 0 -ℤ req.quantity) g)))
unfolding transfer
transfer-Shows c req g positive = shows _ (transfer-IsSound c req positive) (
    raise_if-Triple (req.from_warehouse_id == req.to_warehouse_id) _ _ λ apart.
      Triple-bind (require_product-keeps req.product_id) λ _.
        Triple-bind (require_warehouse-keeps req.from_warehouse_id) λ _.
          Triple-bind (require_warehouse-keeps req.to_warehouse_id) λ _.
            Triple-bind
              (lock_both-BothShow g req.product_id req.from_warehouse_id req.to_warehouse_id)
              λ both. move_available-ShowsRows c req (ground arith) positive g both)
