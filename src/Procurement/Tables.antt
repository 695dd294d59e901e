-- ===== src/Procurement/Tables.antt =====
-- The rows of purchase orders in models/procurement.py, beside the stock tables. Ids are numbers,
-- and amounts and quantities are ten-thousandths.
use inventory_management_sys.Base.{ℕ, String, Option, List}
use inventory_management_sys.Base.Int.{ℤ}
use inventory_management_sys.Base.Result.{Tx, ok, err, modify}
use inventory_management_sys.Base.Table.{set_row}
use inventory_management_sys.Stock.Tables.{Db}
use inventory_management_sys.Procurement.States.{PoStatus}

pub record PurchaseOrder : Type 0 where
  pub id : ℕ
  pub po_number : ℕ
  pub supplier_id : ℕ
  pub warehouse_id : ℕ
  pub status : PoStatus
  pub notes : Option String
  pub subtotal : ℤ
  pub tax : ℤ
  pub total : ℤ
  pub created_by : Option ℕ
  pub approved_by : Option ℕ
  pub approved_at : Option ℕ
  pub version : ℕ

pub record PurchaseOrderLine : Type 0 where
  pub id : ℕ
  pub po_id : ℕ
  pub product_id : ℕ
  pub ordered_qty : ℤ
  pub ordered_cartons : Option ℕ
  pub unit_cost : ℤ
  pub line_total : ℤ
  pub received_qty : ℤ

pub record PurchaseOrderEvent : Type 0 where
  pub po_id : ℕ
  pub action : String
  pub from_status : Option PoStatus
  pub to_status : Option PoStatus
  pub comment : Option String
  pub actor_id : ℕ

-- A row of `audit_logs` whose entity is a purchase order.
pub record PoAudit : Type 0 where
  pub user_id : ℕ
  pub action : String
  pub entity_id : ℕ

-- The tables that the procurement service reads and writes. `awaiting` is the log of the
-- notifications that an order awaits approval.
pub record Office : Type 0 where
  pub stock : Db
  pub orders : List PurchaseOrder
  pub lines : List PurchaseOrderLine
  pub events : List PurchaseOrderEvent
  pub audits : List PoAudit
  pub awaiting : List ℕ

abbrev pub order_key : PurchaseOrder → ℕ
order_key po = po.id

abbrev pub line_key : PurchaseOrderLine → ℕ
line_key line = line.id

-- A transaction on the stock tables, within the same database transaction.
abbrev pub on_stock : {A : Type 0} → Tx Db A → Tx Office A
on_stock m office = elim (m office.stock) [
  | ok (a, db) ↦ ok (a, record office { stock = db })
  | err e ↦ err e
]

abbrev pub save_order : PurchaseOrder → Tx Office (Unit {0})
save_order po =
    modify λ (office : Office). record office { orders = set_row order_key po office.orders }

abbrev pub save_line : PurchaseOrderLine → Tx Office (Unit {0})
save_line line =
    modify λ (office : Office). record office { lines = set_row line_key line office.lines }
