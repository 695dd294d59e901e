-- ===== src/Stock/Repository.antt =====
-- repositories/inventory_repo.py: locked reads, row creation and ledger writes. A row that the
-- code holds and mutates is read by `find` and written back by `put`.
use text.Mathlib.Text.{◌==◌ as str_eq}
use inventory_management_sys.Base.{
  ℕ, String, ◌≡◌, refl, Bool, ◌&&◌, Option, none, some, List, [], ◌∷◌, arith, ◌==◌, if◌then◌else◌,
}
use inventory_management_sys.Base.Int.{ℤ, pos, ◌+ℤ◌}
use inventory_management_sys.Base.Result.{Tx, pure, modify, ◌>>◌}
use inventory_management_sys.Stock.Tables.{Inventory, StockMovement, SalesDaily, Db}

-- The unique key of a row of `inventory`.
abbrev pub at_key : ℕ → ℕ → Inventory → Bool
at_key p w r = r.product_id == p && r.warehouse_id == w

unfoldable pub find : ℕ → ℕ → List Inventory → Option Inventory
find p w [] = none
find p w (r ∷ rs) = if at_key p w r then some r else find p w rs

-- Write a row back, or insert it.
unfoldable pub put : Inventory → List Inventory → List Inventory
put r [] = r ∷ []
put r (x ∷ xs) = if at_key r.product_id r.warehouse_id x then r ∷ xs else x ∷ put r xs

pub find-put :
    (p w : ℕ) (r : Inventory) (rs : List Inventory)
    → find p w (put r rs) ≡ (if at_key p w r then some r else find p w rs)
unfolding find put
find-put p w r [] = refl
find-put p w r (x ∷ xs) = ground (arith, find-put p w r xs)

-- A row that is found has the key that it was looked up by.
pub find-key :
    (p w : ℕ) (rs : List Inventory) {r : Inventory}
    → find p w rs ≡ some r
    → (r.product_id ≡ p) × (r.warehouse_id ≡ w)
unfolding find
find-key p w [] h = ground arith
find-key p w (x ∷ xs) {r} h = ground (arith, find-key p w xs {r = r})

abbrev pub get_for_update : ℕ → ℕ → Tx Db (Option Inventory)
get_for_update p w db = pure (find p w db.inventory) db

abbrev pub save : Inventory → Tx Db (Unit {0})
save r = modify (λ (db : Db). record db { inventory = put r db.inventory })

-- The row that `create` inserts.
abbrev pub empty_row : ℕ → ℕ → Inventory
empty_row p w = record {
  product_id = p;
  warehouse_id = w;
  qty_on_hand = pos 0;
  qty_reserved = pos 0;
  qty_damaged = pos 0;
  version = 0;
}

abbrev pub create : ℕ → ℕ → Tx Db Inventory
create p w = do save (empty_row p w); pure (empty_row p w)

abbrev pub add_movement : StockMovement → Tx Db StockMovement
add_movement m = do modify (λ (db : Db). record db { movements = m ∷ db.movements }); pure m

-- The conflict key of the upsert into `sales_daily`.
abbrev pub same_day : SalesDaily → SalesDaily → Bool
same_day a b =
    a.product_id == b.product_id
    && (a.warehouse_id == b.warehouse_id
        && (a.sale_date == b.sale_date && str_eq a.source b.source))

unfoldable pub upsert_demand : SalesDaily → List SalesDaily → List SalesDaily
upsert_demand d [] = d ∷ []
upsert_demand d (x ∷ xs) =
    if same_day x d
    then record x { qty_sold = x.qty_sold +ℤ d.qty_sold } ∷ xs
    else x ∷ upsert_demand d xs

abbrev pub record_demand : ℕ → ℕ → ℤ → String → Tx Db (Unit {0})
record_demand p w qty source = modify λ (db : Db). record db {
  sales_daily =
      upsert_demand
        (record {
          product_id = p;
          warehouse_id = w;
          sale_date = db.today;
          qty_sold = qty;
          source = source;
        })
        db.sales_daily;
}
