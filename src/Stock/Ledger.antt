-- ===== src/Stock/Ledger.antt =====
-- What the tables say of the stock of a product in a warehouse: the running balance on the
-- inventory row, the balance that the movement ledger adds up to, and the holds.
use inventory_management_sys.Base.{
  ℕ, String, ◌≡◌, ◌&&◌, ◌==◌, Option, none, some, List, [], ◌∷◌, arith, if◌then◌else◌,
}
use inventory_management_sys.Base.Int.{ℤ, pos, ◌+ℤ◌, ◌-ℤ◌, int_laws}
use inventory_management_sys.Stock.Tables.{
  MovementType, receipt, issue, adjustment, transfer_in, transfer_out, damage, reserve, unreserve,
  opening_balance, Inventory, StockMovement, InventoryReservation,
}
use inventory_management_sys.Stock.Repository.{find}
use inventory_management_sys.Stock.Reservations.{is_active, find_hold, put_hold}

-- The column of an inventory row that a movement is booked on.
pub data Bucket : Type 0 where
  on_hand reserved damaged : Bucket

abbrev pub qty : Bucket → Inventory → ℤ
qty on_hand r = r.qty_on_hand
qty reserved r = r.qty_reserved
qty damaged r = r.qty_damaged

-- What a movement adds to a column. A hold takes from the available stock, so `reserve` and
-- `unreserve` carry the sign of that, and the reserved quantity moves the other way.
abbrev pub booked : Bucket → MovementType → ℤ → ℤ
booked on_hand receipt q = q
booked on_hand issue q = q
booked on_hand adjustment q = q
booked on_hand transfer_in q = q
booked on_hand transfer_out q = q
booked on_hand opening_balance q = q
booked reserved reserve q = pos 0 -ℤ q
booked reserved unreserve q = pos 0 -ℤ q
booked damaged damage q = q
booked _ _ q = pos 0

-- The quantity that the inventory row of (p, w) carries, zero where there is no row.
abbrev pub row_qty : Bucket → Option Inventory → ℤ
row_qty b none = pos 0
row_qty b (some r) = qty b r

unfoldable pub stock : Bucket → ℕ → ℕ → List Inventory → ℤ
stock b p w rows = row_qty b (find p w rows)

unfoldable pub entry : Bucket → ℕ → ℕ → StockMovement → ℤ
entry b p w m =
    if m.product_id == p && m.warehouse_id == w then booked b m.movement_type m.quantity else pos 0

unfoldable pub ledger : Bucket → ℕ → ℕ → List StockMovement → ℤ
ledger b p w [] = pos 0
ledger b p w (m ∷ ms) = ledger b p w ms +ℤ entry b p w m

unfoldable pub hold_qty : ℕ → ℕ → InventoryReservation → ℤ
hold_qty p w r =
    if is_active r.status && (r.product_id == p && r.warehouse_id == w) then r.qty else pos 0

-- The total of the active holds.
unfoldable pub held : ℕ → ℕ → List InventoryReservation → ℤ
held p w [] = pos 0
held p w (r ∷ rs) = held p w rs +ℤ hold_qty p w r

-- Writing the found hold back moves the total by the change of that hold.
pub held-put_hold :
    (p w id : ℕ) (kind : String) (rs : List InventoryReservation) (r h : InventoryReservation)
    → find_hold id kind rs ≡ some r
    → held p w (put_hold id kind h rs) +ℤ hold_qty p w r ≡ held p w rs +ℤ hold_qty p w h
unfolding held find_hold put_hold
held-put_hold p w id kind [] r h e = ground arith
held-put_hold p w id kind (x ∷ xs) r h e = grind (int_laws, held-put_hold p w id kind xs r h)
