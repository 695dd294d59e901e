-- ===== src/Stock/Tables.antt =====
-- The rows of backend/app/models/inventory.py that the stock services read and write, for one
-- tenant (row-level security hides every other tenant's rows). Ids and instants are numbers that
-- are only compared, and quantities are ten-thousandths.
use inventory_management_sys.Base.{ℕ, String, Bool, Option, List}
use inventory_management_sys.Base.Int.{ℤ}

-- The movement types, less `initial_import`, which only the spreadsheet import writes.
pub data MovementType : Type 0 where
  receipt issue adjustment transfer_in transfer_out : MovementType
  damage reserve unreserve opening_balance : MovementType

pub record Inventory : Type 0 where
  pub product_id : ℕ
  pub warehouse_id : ℕ
  pub qty_on_hand : ℤ
  pub qty_reserved : ℤ
  pub qty_damaged : ℤ
  pub version : ℕ

pub record StockMovement : Type 0 where
  pub movement_type : MovementType
  pub product_id : ℕ
  pub warehouse_id : ℕ
  pub quantity : ℤ
  pub reference_type : Option String
  pub reference_id : Option ℕ
  pub from_warehouse_id : Option ℕ
  pub to_warehouse_id : Option ℕ
  pub unit_cost : Option ℤ
  pub reason : Option String
  pub user_id : Option ℕ
  pub occurred_at : Option ℕ
  pub imported_historical : Bool

pub data ReservationStatus : Type 0 where
  active consumed released : ReservationStatus

pub record InventoryReservation : Type 0 where
  pub product_id : ℕ
  pub warehouse_id : ℕ
  pub qty : ℤ
  pub status : ReservationStatus
  pub reference_type : String
  pub reference_id : ℕ
  pub created_by : Option ℕ
  pub released_at : Option ℕ

-- A row of `audit_logs` whose entity is an inventory row.
pub record StockAudit : Type 0 where
  pub user_id : ℕ
  pub action : String
  pub product_id : ℕ
  pub warehouse_id : ℕ
  pub movement_type : MovementType
  pub quantity : ℤ
  pub on_hand_before : ℤ
  pub on_hand_after : ℤ

-- A row of `sales_daily`: the demand of one day from one source.
pub record SalesDaily : Type 0 where
  pub product_id : ℕ
  pub warehouse_id : ℕ
  pub sale_date : ℕ
  pub qty_sold : ℤ
  pub source : String

-- A low-stock alert, as handed to the notification service.
pub record LowStockAlert : Type 0 where
  pub product_id : ℕ
  pub branch_id : Option ℕ
  pub left : ℤ
  pub reorder_point : ℤ
  pub actor_user_id : ℕ

pub record Product : Type 0 where
  pub reorder_point : Option ℤ

pub record Warehouse : Type 0 where
  pub branch_id : Option ℕ

-- The tables, and the clock of the request. The logs hold the newest row first.
pub record Db : Type 0 where
  pub products : ℕ → Option Product
  pub warehouses : ℕ → Option Warehouse
  pub inventory : List Inventory
  pub movements : List StockMovement
  pub reservations : List InventoryReservation
  pub audit_logs : List StockAudit
  pub sales_daily : List SalesDaily
  pub notifications : List LowStockAlert
  pub now : ℕ
  pub today : ℕ
