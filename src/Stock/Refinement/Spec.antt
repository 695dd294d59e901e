-- ===== src/Stock/Refinement/Spec.antt =====
-- The refinement: what a served call does to the tables is what the abstract stock does.
use inventory_management_sys.Base.{◌≡◌, true, arith}
use inventory_management_sys.Base.Result.{Ensures}
use inventory_management_sys.Stock.Tables.{Db}
use inventory_management_sys.Stock.Requests.{
  StockRequest, receiving, opening, issuing, issuing_held, adjusting, transferring, perform,
  accepts, Goods, effect,
}
use inventory_management_sys.Stock.Serving.{Allowed, all-positive}
use inventory_management_sys.Stock.Refinement.Shows.{Shows}
use inventory_management_sys.Stock.Refinement.Calls.{
  receive-Shows, opening_balance-Shows, adjust-Shows,
}
use inventory_management_sys.Stock.Refinement.Leaving.{issue-Shows}
use inventory_management_sys.Stock.Refinement.Relocating.{transfer-Shows}
use inventory_management_sys.Stock.Refinement.Drawing.{issue_against_reservation-Shows}

-- An accepted and allowed call on sound tables that show the goods `g` raises, or leaves sound
-- tables that show exactly the goods that the abstract call makes of `g`: at every product and
-- warehouse, those the call does not name included.
pub perform-refines :
    (r : StockRequest) (g : Goods) (db : Db)
    → accepts r ≡ true
    → Allowed r db
    → Shows g db
    → Ensures (λ _. Shows (effect r g)) (perform r db)
unfolding perform accepts
perform-refines (receiving c req) g db h a s =
    (receive-Shows c req g (all-positive req.lines (ground arith))).at db s
perform-refines (opening user req) g db h a s = (opening_balance-Shows user req g).at db s
perform-refines (issuing wiring c req) g db h a s = (issue-Shows wiring c req g).at db s
perform-refines (issuing_held wiring c req) g db h a s =
    (issue_against_reservation-Shows wiring c req g).at db (s, a)
perform-refines (adjusting c req) g db h a s = (adjust-Shows c req g).at db s
perform-refines (transferring c req) g db h a s = (transfer-Shows c req g (ground arith)).at db s
