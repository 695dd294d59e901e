-- ===== src/Sales/Invoices/Restocked.antt =====
-- `receive` of goods that come back leaves the stock sound and the holds of order lines where they
-- are.
use inventory_management_sys.Base.{ℕ, Option, none, some, List, [], ◌∷◌, All}
use inventory_management_sys.Base.Int.{pos, ◌≤ℤ◌}
use inventory_management_sys.Base.Result.{Ensures, Ensures-both, Triple, Triple-bind}
use inventory_management_sys.Stock.Tables.{Inventory, Db}
use inventory_management_sys.Stock.Repository.{find}
use inventory_management_sys.Stock.Context.{Call, get_or_create_locked, or_create}
use inventory_management_sys.Stock.Places.{Place, Stands}
use inventory_management_sys.Stock.Service.Inbound.{
  ReceiptLine, ReceiveStockRequest, receive_line, receive_lines, receive,
}
use inventory_management_sys.Stock.Soundness.Reads.{require_product-keeps, require_warehouse-keeps}
use inventory_management_sys.Stock.Soundness.Inbound.{receive-IsSound}
use inventory_management_sys.Sales.Orders.{so_line_ref}
use inventory_management_sys.Sales.Orders.Shelf.{Shelved}

module _ (place : Place) where
  created-Stands :
      (p w : ℕ) (o : Option Inventory) (db : Db)
      → Stands so_line_ref place db
      → Ensures (λ _. Stands so_line_ref place) (or_create p w o db)
  created-Stands p w none db s = s
  created-Stands p w (some inv) db s = s

  get-Stands :
      (p w : ℕ)
      → Triple (Stands so_line_ref place) (get_or_create_locked p w) (λ _. Stands so_line_ref place)
  unfolding get_or_create_locked
  get-Stands p w = record { at = λ db s. created-Stands p w (find p w db.inventory) db s }

  module _ (c : Call) (req : ReceiveStockRequest) where
    receive_lines-Stands :
        (lines : List ReceiptLine)
        → Triple
            (Stands so_line_ref place)
            (receive_lines c req lines)
            (λ _. Stands so_line_ref place)
    unfolding receive_lines receive_line
    receive_lines-Stands [] = record { at = λ db s. s }
    receive_lines-Stands (line ∷ lines) =
        Triple-bind
          (Triple-bind (require_product-keeps line.product_id) λ u.
            Triple-bind (get-Stands line.product_id req.warehouse_id)
              λ inv. record { at = λ db s. s })
          λ u. receive_lines-Stands lines

    receive-Stands :
        Triple (Stands so_line_ref place) (receive c req) (λ _. Stands so_line_ref place)
    unfolding receive
    receive-Stands =
        Triple-bind (require_warehouse-keeps req.warehouse_id) λ u. receive_lines-Stands req.lines

    pub receive-Shelved :
        All (λ l. pos 0 ≤ℤ l.quantity) req.lines
        → Triple (Shelved place) (receive c req) (λ _. Shelved place)
    receive-Shelved h = record {
      at = λ db k.
          Ensures-both (receive c req db)
            (λ u db' sound stands. record { sound = sound; stands = stands })
            ((receive-IsSound c req h).at db k.sound) (receive-Stands.at db k.stands);
    }
