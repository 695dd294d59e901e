-- ===== src/Stock/Invariant.antt =====
-- The invariant of the stock tables, and the three ways to write them that keep it: insert an
-- empty row, book a movement on a row, and change a hold together with its row.
use inventory_management_sys.Base.{
  ℕ, ◌≡◌, refl, Bool, true, false, if◌then◌else◌, Option, none, some, List, ◌∷◌, arith, All,
}
use inventory_management_sys.Base.Int.{pos, ◌+ℤ◌, ◌≤ℤ◌, int_laws}
use inventory_management_sys.Stock.Tables.{Inventory, StockMovement, InventoryReservation, Db}
use inventory_management_sys.Stock.Repository.{find, put, find-put, at_key, empty_row}
use inventory_management_sys.Stock.Ledger.{
  Bucket, on_hand, reserved, damaged, qty, booked, row_qty, stock, entry, ledger, held,
}

-- Each column of each row is the sum of the movements booked on it, the reserved quantity is the
-- sum of the active holds too, and no quantity is negative.
pub record Sound (rows : List Inventory) (ms : List StockMovement) (hs : List InventoryReservation)
    : Type 0 where
  pub books : (b : Bucket) (p w : ℕ) → stock b p w rows ≡ ledger b p w ms
  pub holds : (p w : ℕ) → stock reserved p w rows ≡ held p w hs
  pub nonneg : (b : Bucket) (p w : ℕ) → pos 0 ≤ℤ stock b p w rows
  pub hold_nonneg : All (λ h. pos 0 ≤ℤ h.qty) hs

abbrev pub IsSound : Db → Type 0
IsSound db = Sound db.inventory db.movements db.reservations

pub stock-found :
    (b : Bucket) (p w : ℕ) (rows : List Inventory) (o : Option Inventory)
    → find p w rows ≡ o
    → stock b p w rows ≡ row_qty b o
unfolding stock
stock-found b p w rows o h = rw h

pub stock-put :
    (b : Bucket) (p w : ℕ) (r : Inventory) (rows : List Inventory)
    → stock b p w (put r rows) ≡ (if at_key p w r then qty b r else stock b p w rows)
unfolding stock
stock-put b p w r rows = rw find-put (row_qty-if b (at_key p w r) r (find p w rows))
  where
    row_qty-if :
        (b : Bucket) (t : Bool) (r : Inventory) (o : Option Inventory)
        → row_qty b (if t then some r else o) ≡ (if t then qty b r else row_qty b o)
    row_qty-if b true r o = refl
    row_qty-if b false r o = refl

pub qty-empty_row : (b : Bucket) (p w : ℕ) → qty b (empty_row p w) ≡ pos 0
qty-empty_row on_hand p w = refl
qty-empty_row reserved p w = refl
qty-empty_row damaged p w = refl

-- Inserting an empty row changes no quantity.
pub stock-insert :
    (b : Bucket) (p w p' w' : ℕ) (rows : List Inventory)
    → find p w rows ≡ none
    → stock b p' w' (put (empty_row p w) rows) ≡ stock b p' w' rows
stock-insert b p w p' w' rows h = ground (
  arith,
  stock-put b p' w' (empty_row p w) rows,
  stock-found b p w rows none h,
  qty-empty_row b p w,
)

module _ {rows : List Inventory} {ms : List StockMovement} {hs : List InventoryReservation} where
  pub insert-Sound :
      (p w : ℕ) → find p w rows ≡ none → Sound rows ms hs → Sound (put (empty_row p w) rows) ms hs
  insert-Sound p w h s = record {
    books = λ b p' w'. rw (stock-insert b p w p' w' rows h) (s.books b p' w');
    holds = λ p' w'. rw (stock-insert reserved p w p' w' rows h) (s.holds p' w');
    nonneg = λ b p' w'. rw (stock-insert b p w p' w' rows h) (s.nonneg b p' w');
    hold_nonneg = s.hold_nonneg;
  }

  -- A row is written with one movement, and the holds move with the row: each column moves by
  -- what is booked on it.
  pub hold-Sound :
      (r : Inventory) (m : StockMovement) (hs' : List InventoryReservation)
      → m.product_id ≡ r.product_id
      → m.warehouse_id ≡ r.warehouse_id
      → ((b : Bucket)
          → qty b r
            ≡ stock b r.product_id r.warehouse_id rows +ℤ booked b m.movement_type m.quantity)
      → ((b : Bucket) → pos 0 ≤ℤ qty b r)
      → ((p w : ℕ)
          → held p w hs'
            ≡ held p w hs
              +ℤ (if at_key p w r then booked reserved m.movement_type m.quantity else pos 0))
      → All (λ h. pos 0 ≤ℤ h.qty) hs'
      → Sound rows ms hs
      → Sound (put r rows) (m ∷ ms) hs'
  unfolding ledger entry
  hold-Sound r m hs' ep ew moved fits keeps all s = record {
    books = λ b p w. grind (int_laws, stock-put b p w r rows, moved b, s.books b p w);
    holds = λ p w.
        grind (int_laws, stock-put reserved p w r rows, moved reserved, keeps p w, s.holds p w);
    nonneg = λ b p w. ground (arith, stock-put b p w r rows, fits b, s.nonneg b p w);
    hold_nonneg = all;
  }

  -- A movement that books nothing on the reserved quantity leaves the holds alone.
  pub post-Sound :
      (r : Inventory) (m : StockMovement)
      → m.product_id ≡ r.product_id
      → m.warehouse_id ≡ r.warehouse_id
      → ((b : Bucket)
          → qty b r
            ≡ stock b r.product_id r.warehouse_id rows +ℤ booked b m.movement_type m.quantity)
      → ((b : Bucket) → pos 0 ≤ℤ qty b r)
      → booked reserved m.movement_type m.quantity ≡ pos 0
      → Sound rows ms hs
      → Sound (put r rows) (m ∷ ms) hs
  post-Sound r m ep ew moved fits free s =
      hold-Sound r m hs ep ew moved fits (λ p w. grind (int_laws, free)) s.hold_nonneg s
