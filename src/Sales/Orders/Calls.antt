-- ===== src/Sales/Orders/Calls.antt =====
-- The calls on sales orders, each in its own transaction.
use inventory_management_sys.Base.{ℕ, String, Option, List, [], ◌∷◌}
use inventory_management_sys.Base.Int.{ℤ}
use inventory_management_sys.Base.Result.{Tx, Result, ok, err}
use inventory_management_sys.Stock.Context.{Wiring}
use inventory_management_sys.Sales.Tables.{Shop}
use inventory_management_sys.Sales.Orders.{confirm_sales_order, cancel_sales_order}
use inventory_management_sys.Sales.Orders.Delivering.{create_delivery}

pub data SalesCall : Type 0 where
  confirming : ℕ → ℕ → SalesCall
  cancelling : ℕ → ℕ → Option String → SalesCall
  delivering : Wiring → ℕ → ℕ → ℕ → List (ℕ × ℤ) → SalesCall

unfoldable pub sell : SalesCall → Tx Shop (Unit {0})
sell (confirming user so_id) = confirm_sales_order user so_id
sell (cancelling user so_id reason) = cancel_sales_order user so_id reason
sell (delivering wiring user note_id so_id wanted) =
    create_delivery wiring user note_id so_id wanted

abbrev pub shop_after : Shop → Result (Unit {0} × Shop) → Shop
shop_after shop (ok (_, after)) = after
shop_after shop (err _) = shop

unfoldable pub sell_all : List SalesCall → Shop → Shop
sell_all [] shop = shop
sell_all (call ∷ calls) shop = sell_all calls (shop_after shop (sell call shop))
