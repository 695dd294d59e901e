-- ===== src/OrderRequests/CallExamples.antt =====
-- A transfer of four units from location 1 to location 2, from the request to its completion.
use inventory_management_sys.Base.{◌≡◌, refl, none, some, List, [], ◌∷◌, true, arith}
use inventory_management_sys.Base.Int.{pos}
use inventory_management_sys.Base.Result.{Ensures}
use inventory_management_sys.Base.Table.{find_row}
use inventory_management_sys.Stock.Tables.{Product, Warehouse, Db}
use inventory_management_sys.Stock.Repository.{find}
use inventory_management_sys.Stock.Ledger.{stock, ledger, held}
use inventory_management_sys.Stock.Invariant.{IsSound}
use inventory_management_sys.Stock.Service.Inbound.{OpeningBalance, opening_balance}
use inventory_management_sys.Stock.Context.{get_or_create_locked}
use inventory_management_sys.Stock.Requests.{opening, perform, accepts}
use inventory_management_sys.Stock.Serving.{serve, serve_one, serve-IsSound}
use inventory_management_sys.OrderRequests.{RequestStatus, in_transit}
use inventory_management_sys.OrderRequests.Outcomes.{has_left}
use inventory_management_sys.OrderRequests.Tables.{branch_transfer, RequestHeader, Depot}
use inventory_management_sys.OrderRequests.Service.{OrderRequestCreate}
use inventory_management_sys.OrderRequests.Service.Receiving.{LineReceipt, receive, complete}
use inventory_management_sys.OrderRequests.Service.Calls.{
  RequestCall, creating, approving, issuing, receiving, completing, run, depot_after, run_all,
}
use inventory_management_sys.Stock.Reservations.{ref_type}
use inventory_management_sys.Stock.Places.{Place, Stands}
use inventory_management_sys.OrderRequests.Service.Keeping.{DepotFine}
use inventory_management_sys.OrderRequests.Service.Keeping.Calls.{run_all-Fine}
use inventory_management_sys.OrderRequests.Service.Statuses.{status_of, Follows}
use inventory_management_sys.OrderRequests.Service.Statuses.Histories.{
  run-Follows_requests, Leads, at_start, then_call, Leads-left,
}
use inventory_management_sys.OrderRequests.Service.Leftover.{holds_left}

abbrev bolt : Product
bolt = record { reorder_point = none }

abbrev site : Warehouse
site = record { branch_id = some 1 }

abbrev bare : Db
bare = record {
  products = λ p. some bolt;
  warehouses = λ w. some site;
  inventory = [];
  movements = [];
  reservations = [];
  audit_logs = [];
  sales_daily = [];
  notifications = [];
  now = 7;
  today = 1;
}

bare-IsSound : IsSound bare
unfolding stock ledger held find
bare-IsSound = record {
  books = λ b p w. refl;
  holds = λ p w. refl;
  nonneg = λ b p w. ground arith;
  hold_nonneg = tt;
}

abbrev first_count : OpeningBalance
first_count = record {
  product_id = 1;
  warehouse_id = 1;
  quantity = pos 100000;
  as_of = 3;
  reference_id = none;
  unit_cost = none;
}

abbrev depot : Depot
depot = record {
  stock = serve (opening 5 first_count ∷ []) bare;
  headers = [];
  request_audit = [];
  transfer_ledger = [];
  awaiting = [];
}

abbrev four_over : OrderRequestCreate
four_over = record {
  branch_id = 1;
  destination_branch_id = some 2;
  purpose = branch_transfer;
  comments = some "shelf is empty";
  submit = true;
  lines = record { product_id = 1; requested_qty = pos 40000 } ∷ [];
  may_transfer = true;
  user_branch_ids = [];
}

abbrev all_came : LineReceipt
all_came = record {
  received_qty = some (pos 30000);
  missing_qty = some (pos 0);
  damaged_qty = some (pos 10000);
  extra_qty = none;
}

abbrev life : List RequestCall
life =
    creating true 1 (11 ∷ []) 4 four_over
    ∷ approving 5 1 ((11, pos 40000) ∷ []) none
    ∷ issuing 6 1 []
    ∷ receiving 7 1 ((11, all_came) ∷ []) none
    ∷ completing 7 1 [] "done"
    ∷ []

abbrev place : Place
place id = (1, 1)

counted-Stands : Stands ref_type place depot.stock
unfolding serve serve_one perform accepts opening_balance get_or_create_locked find
counted-Stands = tt

run_all-Fine_example : DepotFine place (run_all life depot)
run_all-Fine_example =
    run_all-Fine place life depot ((refl, refl, ground arith, tt), (tt, (tt, (tt, (tt, tt)))))
      (record {
        kept = record {
          sound = serve-IsSound (opening 5 first_count ∷ []) bare (tt, tt) bare-IsSound;
          stands = counted-Stands;
        };
        headers = tt;
      })

run-Follows_requests_example :
    Ensures
      (λ _ after. Follows (status_of 1 depot) (status_of 1 after))
      (run (creating true 1 (11 ∷ []) 4 four_over) depot)
unfolding find_row
run-Follows_requests_example =
    run-Follows_requests depot 1 (creating true 1 (11 ∷ []) 4 four_over) refl

-- A request in transit.
abbrev moving : RequestHeader
moving = record {
  id = 1;
  branch_id = 1;
  destination_branch_id = some 2;
  requested_by = 4;
  purpose = branch_transfer;
  status = in_transit;
  comments = none;
  approved_by = some 5;
  approved_date = some 7;
  issued_by = some 6;
  issued_date = some 7;
  received_by = none;
  received_date = none;
  completed_by = none;
  completed_date = none;
  completion_remarks = none;
  lines =
      record {
        id = 11;
        product_id = 1;
        requested_qty = pos 40000;
        approved_qty = pos 40000;
        issued_qty = pos 40000;
        received_qty = none;
        missing_qty = none;
        damaged_qty = none;
        extra_qty = none;
      }
      ∷ [];
}

abbrev on_its_way : Depot
on_its_way = record {
  stock = bare;
  headers = moving ∷ [];
  request_audit = [];
  transfer_ledger = [];
  awaiting = [];
}

abbrev arrival_call : RequestCall
arrival_call = receiving 7 1 ((11, all_came) ∷ []) none

abbrev came_in : Leads on_its_way (depot_after on_its_way (run arrival_call on_its_way))
came_in = then_call at_start arrival_call tt

Leads-left_example :
    (t : RequestStatus) × (status_of 1 (depot_after on_its_way (run arrival_call on_its_way))
      ≡ some t)
    × (has_left t ≡ true)
unfolding find_row has_left
Leads-left_example = Leads-left 1 in_transit came_in refl refl

-- Two of the four units are issued, and the line holds the other two.
abbrev half_issued : Depot
half_issued =
    run_all
      (creating true 1 (11 ∷ []) 4 four_over
        ∷ approving 5 1 ((11, pos 40000) ∷ []) none
        ∷ issuing 6 1 ((11, pos 20000) ∷ [])
        ∷ [])
      depot

abbrev two_came : LineReceipt
two_came = record {
  received_qty = some (pos 20000);
  missing_qty = some (pos 0);
  damaged_qty = some (pos 0);
  extra_qty = none;
}

holds_left_example :
    Ensures
      (λ _ after. after.stock.reservations ≡ half_issued.stock.reservations)
      (receive 7 1 ((11, two_came) ∷ []) none half_issued)
    × Ensures
        (λ _ after. after.stock.reservations ≡ half_issued.stock.reservations)
        (complete 7 1 ((11, two_came) ∷ []) "done" half_issued)
holds_left_example = holds_left half_issued 7 1 ((11, two_came) ∷ []) none "done"
