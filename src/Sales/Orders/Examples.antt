-- ===== src/Sales/Orders/Examples.antt =====
-- An order of six units, of which four are delivered first and then the rest.
use inventory_management_sys.Base.{refl, none, some, List, [], ◌∷◌, true, arith}
use inventory_management_sys.Base.Int.{pos}
use inventory_management_sys.Stock.Tables.{Product, Warehouse, Db}
use inventory_management_sys.Stock.Repository.{find}
use inventory_management_sys.Stock.Ledger.{stock, ledger, held}
use inventory_management_sys.Stock.Invariant.{IsSound}
use inventory_management_sys.Stock.Context.{Wiring, get_or_create_locked}
use inventory_management_sys.Stock.Service.Inbound.{OpeningBalance, opening_balance}
use inventory_management_sys.Stock.Requests.{opening, perform, accepts}
use inventory_management_sys.Stock.Serving.{serve, serve_one, serve-IsSound}
use inventory_management_sys.Stock.Places.{Place, Stands}
use inventory_management_sys.Sales.{so_draft}
use inventory_management_sys.Sales.Tables.{SalesOrderLine, SalesOrder, Shop}
use inventory_management_sys.Sales.Orders.{so_line_ref}
use inventory_management_sys.Sales.Orders.Calls.{
  SalesCall, confirming, cancelling, delivering, sell_all,
}
use inventory_management_sys.Sales.Orders.Keeping.{ShopFine, most, least}
use inventory_management_sys.Sales.Orders.Fulfilled.{sell_all-Fine}

abbrev part : Product
part = record { reorder_point = none }

abbrev branch_store : Warehouse
branch_store = record { branch_id = some 1 }

abbrev unstocked : Db
unstocked = record {
  products = λ p. some part;
  warehouses = λ w. some branch_store;
  inventory = [];
  movements = [];
  reservations = [];
  audit_logs = [];
  sales_daily = [];
  notifications = [];
  now = 7;
  today = 1;
}

unstocked-IsSound : IsSound unstocked
unfolding stock ledger held find
unstocked-IsSound = record {
  books = λ b p w. refl;
  holds = λ p w. refl;
  nonneg = λ b p w. ground arith;
  hold_nonneg = tt;
}

abbrev ten_counted : OpeningBalance
ten_counted = record {
  product_id = 1;
  warehouse_id = 1;
  quantity = pos 100000;
  as_of = 3;
  reference_id = none;
  unit_cost = none;
}

abbrev six_units : SalesOrderLine
six_units = record {
  id = 21;
  product_id = 1;
  qty = pos 60000;
  reserved_qty = pos 0;
  delivered_qty = pos 0;
}

abbrev new_order : SalesOrder
new_order = record {
  id = 2;
  location_id = some 1;
  status = so_draft;
  notes = none;
  confirmed_at = none;
  lines = six_units ∷ [];
}

abbrev shop : Shop
shop = record {
  stock = serve (opening 5 ten_counted ∷ []) unstocked;
  orders = new_order ∷ [];
  deliveries = [];
  sales_audit = [];
}

abbrev wired : Wiring
wired = record { has_reservations = true; has_notifications = true }

abbrev two_deliveries : List SalesCall
two_deliveries =
    confirming 5 2
    ∷ delivering wired 5 31 2 ((21, pos 40000) ∷ [])
    ∷ cancelling 5 2 none
    ∷ delivering wired 5 32 2 []
    ∷ []

abbrev place : Place
place id = (1, 1)

counted-Stands : Stands so_line_ref place shop.stock
unfolding serve serve_one perform accepts opening_balance get_or_create_locked find
counted-Stands = tt

sell_all-Fine_example : ShopFine place (sell_all two_deliveries shop)
unfolding most least
sell_all-Fine_example = sell_all-Fine place two_deliveries shop (record {
  shelved = record {
    sound = serve-IsSound (opening 5 ten_counted ∷ []) unstocked (tt, tt) unstocked-IsSound;
    stands = counted-Stands;
  };
  orders = (
    (
      record {
        at_product = refl;
        at_location = refl;
        ordered_nonneg = omega arith;
        delivered_least = omega arith;
        delivered_most = omega arith;
      },
      tt,
    ),
    tt,
  );
})
