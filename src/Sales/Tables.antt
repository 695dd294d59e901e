-- ===== src/Sales/Tables.antt =====
-- The rows of models/sales.py that the order side of sales/service.py reads and writes. Quantities
-- are ten-thousandths; prices and texts of the documents are left out.
use inventory_management_sys.Base.{ℕ, String, Option, List, ◌∷◌}
use inventory_management_sys.Base.Int.{ℤ}
use inventory_management_sys.Base.Result.{Tx, ok, err, modify}
use inventory_management_sys.Base.Table.{set_row}
use inventory_management_sys.Stock.Tables.{Db}
use inventory_management_sys.Sales.{SalesOrderStatus}

pub record SalesOrderLine : Type 0 where
  pub id : ℕ
  pub product_id : ℕ
  pub qty : ℤ
  pub reserved_qty : ℤ
  pub delivered_qty : ℤ

pub record SalesOrder : Type 0 where
  pub id : ℕ
  pub location_id : Option ℕ
  pub status : SalesOrderStatus
  pub notes : Option String
  pub confirmed_at : Option ℕ
  pub lines : List SalesOrderLine

pub record DeliveryNoteLine : Type 0 where
  pub sales_order_line_id : ℕ
  pub product_id : ℕ
  pub qty : ℤ

pub record DeliveryNote : Type 0 where
  pub id : ℕ
  pub sales_order_id : ℕ
  pub location_id : Option ℕ
  pub created_by : ℕ
  pub delivered_at : Option ℕ
  pub lines : List DeliveryNoteLine

-- A row of `audit_logs`; the statuses in its free-form changes are left out.
pub record SalesAudit : Type 0 where
  pub entity_type : String
  pub entity_id : ℕ
  pub user_id : ℕ
  pub action : String

-- The tables, within one database transaction.
pub record Shop : Type 0 where
  pub stock : Db
  pub orders : List SalesOrder
  pub deliveries : List DeliveryNote
  pub sales_audit : List SalesAudit

abbrev pub so_key : SalesOrder → ℕ
so_key so = so.id

abbrev pub on_shelf : {A : Type 0} → Tx Db A → Tx Shop A
on_shelf m shop = elim (m shop.stock) [
  | ok (a, db) ↦ ok (a, record shop { stock = db })
  | err e ↦ err e
]

abbrev pub save_so : SalesOrder → Tx Shop (Unit {0})
save_so so = modify λ (shop : Shop). record shop { orders = set_row so_key so shop.orders }

abbrev pub add_delivery : DeliveryNote → Tx Shop (Unit {0})
add_delivery note = modify λ (shop : Shop). record shop { deliveries = note ∷ shop.deliveries }
