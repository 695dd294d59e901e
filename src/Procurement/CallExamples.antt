-- ===== src/Procurement/CallExamples.antt =====
-- A draft order taken through approval and a receipt, on concrete tables.
use inventory_management_sys.Base.{none, some, List, [], ◌∷◌, true, refl, arith}
use inventory_management_sys.Base.Int.{pos}
use inventory_management_sys.Base.Result.{Ensures}
use inventory_management_sys.Stock.Tables.{Db}
use inventory_management_sys.Stock.Repository.{find}
use inventory_management_sys.Stock.Ledger.{stock, ledger, held}
use inventory_management_sys.Stock.Invariant.{IsSound}
use inventory_management_sys.Procurement.States.{draft, submit, approve, send}
use inventory_management_sys.Procurement.Tables.{PurchaseOrder, PurchaseOrderLine, Office}
use inventory_management_sys.Procurement.Service.Receipt.{ReceiveRequest}
use inventory_management_sys.Procurement.Service.Calls.{PoCall, acting, taking_in, run, run_all}
use inventory_management_sys.Procurement.Service.Calls.Status.{status_of, Follows}
use inventory_management_sys.Procurement.Service.Calls.Workflow.{
  run-Follows, Routed, run_all-Routed,
}
use inventory_management_sys.Procurement.Service.Calls.Keeping.{run_all-Kept}
use inventory_management_sys.Procurement.Service.Calls.Goods.{Kept}
use inventory_management_sys.Procurement.Service.Calls.Approval.{AllSigned, run_all-AllSigned}

abbrev bare : Db
bare = record {
  products = λ p. none;
  warehouses = λ w. none;
  inventory = [];
  movements = [];
  reservations = [];
  audit_logs = [];
  sales_daily = [];
  notifications = [];
  now = 7;
  today = 1;
}

abbrev order : PurchaseOrder
order = record {
  id = 1;
  po_number = 1;
  supplier_id = 1;
  warehouse_id = 1;
  status = draft;
  notes = none;
  subtotal = pos 500000;
  tax = pos 0;
  total = pos 500000;
  created_by = some 4;
  approved_by = none;
  approved_at = none;
  version = 0;
}

abbrev order_line : PurchaseOrderLine
order_line = record {
  id = 2;
  po_id = 1;
  product_id = 1;
  ordered_qty = pos 100000;
  ordered_cartons = none;
  unit_cost = pos 50000;
  line_total = pos 500000;
  received_qty = pos 0;
}

abbrev desk : Office
desk = record {
  stock = bare;
  orders = order ∷ [];
  lines = order_line ∷ [];
  events = [];
  audits = [];
  awaiting = [];
}

abbrev first_goods : ReceiveRequest
first_goods = record { lines = record { line_id = 2; quantity = pos 40000 } ∷ []; note = none }

abbrev whole_life : List PoCall
whole_life =
    acting true 1 submit none 4
    ∷ acting true 1 approve none 5
    ∷ acting true 1 send none 4
    ∷ taking_in 6 1 first_goods
    ∷ []

bare-IsSound : IsSound bare
unfolding stock ledger held find
bare-IsSound = record {
  books = λ b p w. refl;
  holds = λ p w. refl;
  nonneg = λ b p w. ground arith;
  hold_nonneg = tt;
}

run-Follows_example :
    Ensures
      (λ _ after. Follows (status_of 1 desk) (status_of 1 after))
      (run (acting true 1 submit none 4) desk)
run-Follows_example = run-Follows (acting true 1 submit none 4) desk 1

run_all-Routed_example : Routed (status_of 1 desk) (status_of 1 (run_all whole_life desk))
run_all-Routed_example = run_all-Routed whole_life desk 1

run_all-Kept_example : Kept (run_all whole_life desk)
run_all-Kept_example =
    run_all-Kept whole_life desk (record { sound = bare-IsSound; within = (ground arith, tt) })

run_all-AllSigned_example : AllSigned (run_all whole_life desk)
run_all-AllSigned_example = run_all-AllSigned whole_life desk (refl, tt)
