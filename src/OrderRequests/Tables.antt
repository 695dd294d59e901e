-- ===== src/OrderRequests/Tables.antt =====
-- The rows of models/order_request.py, beside the stock tables. Ids and instants are numbers, and
-- quantities are ten-thousandths.
use inventory_management_sys.Base.{ℕ, String, Option, List}
use inventory_management_sys.Base.Int.{ℤ}
use inventory_management_sys.Base.Result.{Tx, ok, err, modify}
use inventory_management_sys.Base.Table.{set_row}
use inventory_management_sys.Stock.Tables.{Db}
use inventory_management_sys.OrderRequests.{RequestStatus}

-- `PURPOSES`
pub data Purpose : Type 0 where
  for_sale shelf_replenishment internal_transfer branch_transfer : Purpose
  workshop_use damaged_replacement office_use stock_adjustment other : Purpose

pub record RequestLine : Type 0 where
  pub id : ℕ
  pub product_id : ℕ
  pub requested_qty : ℤ
  pub approved_qty : ℤ
  pub issued_qty : ℤ
  pub received_qty : Option ℤ
  pub missing_qty : Option ℤ
  pub damaged_qty : Option ℤ
  pub extra_qty : Option ℤ

-- `branch_id` and `destination_branch_id` hold ids of locations.
pub record RequestHeader : Type 0 where
  pub id : ℕ
  pub branch_id : ℕ
  pub destination_branch_id : Option ℕ
  pub requested_by : ℕ
  pub purpose : Purpose
  pub status : RequestStatus
  pub comments : Option String
  pub approved_by : Option ℕ
  pub approved_date : Option ℕ
  pub issued_by : Option ℕ
  pub issued_date : Option ℕ
  pub received_by : Option ℕ
  pub received_date : Option ℕ
  pub completed_by : Option ℕ
  pub completed_date : Option ℕ
  pub completion_remarks : Option String
  pub lines : List RequestLine

pub record RequestAudit : Type 0 where
  pub request_id : ℕ
  pub user_id : ℕ
  pub action : String
  pub old_status : Option RequestStatus
  pub new_status : RequestStatus

pub data TransferEvent : Type 0 where
  reserved consumed issued_event received_event released : TransferEvent

-- A snapshot of a line, less the columns that repeat those of the header.
pub record StockTransferLedger : Type 0 where
  pub request_id : ℕ
  pub line : RequestLine
  pub event : TransferEvent
  pub source_location_id : ℕ
  pub dest_location_id : Option ℕ
  pub created_by : ℕ

-- The tables that the order-request service reads and writes. `awaiting` is the log of the
-- notifications that a request awaits approval.
pub record Depot : Type 0 where
  pub stock : Db
  pub headers : List RequestHeader
  pub request_audit : List RequestAudit
  pub transfer_ledger : List StockTransferLedger
  pub awaiting : List ℕ

abbrev pub header_key : RequestHeader → ℕ
header_key h = h.id

-- A transaction on the stock tables, within the same database transaction.
abbrev pub in_stock : {A : Type 0} → Tx Db A → Tx Depot A
in_stock m depot = elim (m depot.stock) [
  | ok (a, db) ↦ ok (a, record depot { stock = db })
  | err e ↦ err e
]

abbrev pub save_header : RequestHeader → Tx Depot (Unit {0})
save_header h =
    modify λ (depot : Depot). record depot { headers = set_row header_key h depot.headers }
