-- ===== src/OrderRequests/Service/Calls.antt =====
-- The calls of the order-request service, each in its own transaction.
use inventory_management_sys.Base.{ℕ, String, Bool, Option, List, [], ◌∷◌}
use inventory_management_sys.Base.Int.{ℤ}
use inventory_management_sys.Base.Result.{Tx, Result, ok, err}
use inventory_management_sys.OrderRequests.Tables.{Depot}
use inventory_management_sys.OrderRequests.Service.{OrderRequestCreate, create, submit, reject}
use inventory_management_sys.OrderRequests.Service.Approving.{approve, cancel}
use inventory_management_sys.OrderRequests.Service.Issuing.{issue}
use inventory_management_sys.OrderRequests.Service.Receiving.{LineReceipt, receive, complete}

-- The methods of the service, with their arguments; the first of `creating` are the drawn ids.
pub data RequestCall : Type 0 where
  creating : Bool → ℕ → List ℕ → ℕ → OrderRequestCreate → RequestCall
  submitting : Bool → ℕ → ℕ → Bool → RequestCall
  approving : ℕ → ℕ → List (ℕ × ℤ) → Option String → RequestCall
  rejecting : ℕ → ℕ → String → RequestCall
  issuing : ℕ → ℕ → List (ℕ × ℤ) → RequestCall
  receiving : ℕ → ℕ → List (ℕ × LineReceipt) → Option String → RequestCall
  cancelling : ℕ → ℕ → Bool → Option String → RequestCall
  completing : ℕ → ℕ → List (ℕ × LineReceipt) → String → RequestCall

unfoldable pub run : RequestCall → Tx Depot (Unit {0})
run (creating notify id line_ids user req) = create notify id line_ids user req
run (submitting notify actor id is_admin) = submit notify actor id is_admin
run (approving actor id approvals comments) = approve actor id approvals comments
run (rejecting actor id reason) = reject actor id reason
run (issuing actor id wanted) = issue actor id wanted
run (receiving actor id receipts remarks) = receive actor id receipts remarks
run (cancelling actor id is_admin reason) = cancel actor id is_admin reason
run (completing actor id receipts remarks) = complete actor id receipts remarks

abbrev pub depot_after : Depot → Result (Unit {0} × Depot) → Depot
depot_after depot (ok (_, after)) = after
depot_after depot (err _) = depot

unfoldable pub run_all : List RequestCall → Depot → Depot
run_all [] depot = depot
run_all (call ∷ calls) depot = run_all calls (depot_after depot (run call depot))
