-- ===== src/Stock/Refinement/Shows.antt =====
-- What the tables show of the goods, under the primitive writes.
use inventory_management_sys.Base.{ℕ, ◌≡◌, refl, ◌∙◌, Option, none, some, List, arith}
use inventory_management_sys.Base.Int.{ℤ, int_laws}
use inventory_management_sys.Base.Result.{Ensures, Ensures-both, Triple}
use inventory_management_sys.Stock.Tables.{Inventory, Db}
use inventory_management_sys.Stock.Repository.{find, put, find-key}
use inventory_management_sys.Stock.Ledger.{on_hand, stock}
use inventory_management_sys.Stock.Invariant.{IsSound, stock-insert, stock-put, stock-found}
use inventory_management_sys.Stock.Posting.{Shifts, Locked, get_or_create_locked-Locked}
use inventory_management_sys.Stock.Context.{get_or_create_locked, or_create}
use inventory_management_sys.Stock.Requests.{Goods, shift}

-- The on-hand quantities of the tables are the goods `g`.
abbrev pub ShowsRows : Goods → List Inventory → Type 0
ShowsRows g rows = (p w : ℕ) → stock on_hand p w rows ≡ g p w

-- Sound tables that show the goods `g`.
pub record Shows (g : Goods) (db : Db) : Type 0 where
  pub sound : IsSound db
  pub goods : ShowsRows g db.inventory

pub record LockedShows (g : Goods) (p w : ℕ) (inv : Inventory) (db : Db) : Type 0 where
  pub locked : Locked p w inv db
  pub goods : ShowsRows g db.inventory

insert-ShowsRows :
    (g : Goods) (p w : ℕ) (db : Db) (o : Option Inventory)
    → find p w db.inventory ≡ o
    → ShowsRows g db.inventory
    → Ensures (λ _ db. ShowsRows g db.inventory) (or_create p w o db)
insert-ShowsRows g p w db none e h =
    λ p' w'. stock-insert on_hand p w p' w' db.inventory e ∙ h p' w'
insert-ShowsRows g p w db (some inv) e h = h

pub get_or_create_locked-Shows :
    (g : Goods) (p w : ℕ) → Triple (Shows g) (get_or_create_locked p w) (LockedShows g p w)
unfolding get_or_create_locked
get_or_create_locked-Shows g p w = record {
  at = λ db h.
      Ensures-both (get_or_create_locked p w db) (λ inv db' l s. record { locked = l; goods = s })
        ((get_or_create_locked-Locked p w).at db h.sound)
        (insert-ShowsRows g p w db (find p w db.inventory) refl h.goods);
}

-- Booking a flow of goods shifts what the rows show.
pub flow-ShowsRows :
    (g : Goods) (p w : ℕ) (old new : Inventory) (q : ℤ) (rows : List Inventory)
    → find p w rows ≡ some old
    → Shifts old new q
    → ShowsRows g rows
    → ShowsRows (shift p w q g) (put new rows)
flow-ShowsRows g p w old new q rows found s h p' w' = grind (
  int_laws,
  stock-put on_hand p' w' new rows,
  stock-found on_hand p w rows (some old) found,
  (find-key p w rows found).0,
  (find-key p w rows found).1,
  s,
  h p' w',
)

-- A row written back with its on-hand quantity as it was shows the same goods.
pub same-ShowsRows :
    (g : Goods) (p w : ℕ) (old new : Inventory) (rows : List Inventory)
    → find p w rows ≡ some old
    → new.product_id ≡ old.product_id
    → new.warehouse_id ≡ old.warehouse_id
    → new.qty_on_hand ≡ old.qty_on_hand
    → ShowsRows g rows
    → ShowsRows g (put new rows)
same-ShowsRows g p w old new rows found ep ew e h p' w' = ground (
  arith,
  stock-put on_hand p' w' new rows,
  stock-found on_hand p w rows (some old) found,
  (find-key p w rows found).0,
  (find-key p w rows found).1,
  h p' w',
)
