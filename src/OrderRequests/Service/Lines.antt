-- ===== src/OrderRequests/Service/Lines.antt =====
-- order_requests/service.py: small helpers of the operations on lines.
use inventory_management_sys.Base.{Option, none, some}
use inventory_management_sys.Base.Int.{ℤ, pos}
use inventory_management_sys.Base.Result.{business_rule, Tx, pure, raise}
use inventory_management_sys.OrderRequests.Tables.{RequestLine, Depot}
use inventory_management_sys.OrderRequests.Repository.{LineResult, refused, updated}

-- `if err: raise BusinessRuleError(err)`
abbrev pub or_refuse : LineResult → Tx Depot RequestLine
or_refuse (refused message) = raise (business_rule message)
or_refuse (updated line) = pure line

abbrev pub or_zero : Option ℤ → ℤ
or_zero none = pos 0
or_zero (some q) = q

abbrev pub or_other : {A : Type 0} → Option A → A → A
or_other none d = d
or_other (some a) d = a
