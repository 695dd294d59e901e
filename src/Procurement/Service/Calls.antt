-- ===== src/Procurement/Service/Calls.antt =====
-- The calls of the procurement service on existing orders, each in its own transaction.
pub mod Status
pub mod TakingIn
pub mod Workflow
pub mod Bounds
pub mod Goods
pub mod Keeping
pub mod Approval
use inventory_management_sys.Base.{ℕ, String, Bool, Option, List, [], ◌∷◌}
use inventory_management_sys.Base.Result.{Tx, Result, ok, err}
use inventory_management_sys.Procurement.States.{PoAction}
use inventory_management_sys.Procurement.Tables.{Office}
use inventory_management_sys.Procurement.Service.{apply_action}
use inventory_management_sys.Procurement.Service.Receipt.{ReceiveRequest, receive}

-- `submit`, `approve`, `reject`, `cancel` and `send` on an order by an actor with a comment, and
-- `receive`.
pub data PoCall : Type 0 where
  acting : Bool → ℕ → PoAction → Option String → ℕ → PoCall
  taking_in : ℕ → ℕ → ReceiveRequest → PoCall

unfoldable pub run : PoCall → Tx Office (Unit {0})
run (acting notify po_id a comment actor) = apply_action notify po_id a comment actor
run (taking_in user po_id req) = receive user po_id req

abbrev pub office_after : Office → Result (Unit {0} × Office) → Office
office_after office (ok (_, office')) = office'
office_after office (err _) = office

unfoldable pub run_all : List PoCall → Office → Office
run_all [] office = office
run_all (call ∷ calls) office = run_all calls (office_after office (run call office))
