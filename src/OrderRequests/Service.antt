-- ===== src/OrderRequests/Service.antt =====
-- order_requests/service.py: what its operations share, and the operations that move no stock.
pub mod Lines
pub mod Approving
pub mod Issuing
pub mod Receiving
pub mod Calls
pub mod Keeping
pub mod Statuses
pub mod Leftover
use inventory_management_sys.Base.{
  ℕ, String, Bool, true, false, ◌&&◌, ◌||◌, not, ◌==◌, Option, none, some, List, [], ◌∷◌,
  if◌then◌else◌,
}
use inventory_management_sys.Base.Int.{ℤ, pos}
use inventory_management_sys.Base.Table.{find_row}
use inventory_management_sys.Base.Result.{
  not_found, business_rule, permission_denied, Tx, pure, raise, raise_if, gets, modify, or_raise,
  ◌>>=◌, ◌>>◌,
}
use inventory_management_sys.Stock.Tables.{Warehouse}
use inventory_management_sys.OrderRequests.{RequestStatus, draft, pending, rejected, can_transition}
use inventory_management_sys.OrderRequests.Tables.{
  Purpose, internal_transfer, branch_transfer, RequestLine, RequestHeader, TransferEvent, Depot,
  header_key, save_header,
}

-- `_require`
abbrev pub require : ℕ → Tx Depot RequestHeader
require request_id = do
  found ← gets (λ (depot : Depot). find_row header_key request_id depot.headers)
  or_raise found (not_found "Order request not found")

-- `_audit`; the general audit log, which repeats the row, is not kept.
abbrev pub audit :
    RequestHeader → ℕ → String → Option RequestStatus → RequestStatus → Tx Depot (Unit {0})
audit h user action old new = modify λ (depot : Depot). record depot {
  request_audit =
      record {
        request_id = h.id;
        user_id = user;
        action = action;
        old_status = old;
        new_status = new;
      }
      ∷ depot.request_audit;
}

-- `_ledger`
abbrev pub ledger_entry : RequestHeader → RequestLine → TransferEvent → ℕ → Tx Depot (Unit {0})
ledger_entry h line event user = modify λ (depot : Depot). record depot {
  transfer_ledger =
      record {
        request_id = h.id;
        line = line;
        event = event;
        source_location_id = h.branch_id;
        dest_location_id = h.destination_branch_id;
        created_by = user;
      }
      ∷ depot.transfer_ledger;
}

-- `_notify_pending`
abbrev pub notify_pending : Bool → RequestHeader → Tx Depot (Unit {0})
notify_pending has_notifications h =
    if has_notifications
    then modify (λ (depot : Depot). record depot { awaiting = h.id ∷ depot.awaiting })
    else pure tt

-- `purpose in TRANSFER_TYPES`
abbrev pub is_transfer_type : Purpose → Bool
is_transfer_type internal_transfer = true
is_transfer_type branch_transfer = true
is_transfer_type _ = false

abbrev pub is_in : ℕ → List ℕ → Bool
is_in k [] = false
is_in k (x ∷ xs) = x == k || is_in k xs

pub record LineCreate : Type 0 where
  pub product_id : ℕ
  pub requested_qty : ℤ

-- The payload, with the permission and the branches of the user.
pub record OrderRequestCreate : Type 0 where
  pub branch_id : ℕ
  pub destination_branch_id : Option ℕ
  pub purpose : Purpose
  pub comments : Option String
  pub submit : Bool
  pub lines : List LineCreate
  pub may_transfer : Bool
  pub user_branch_ids : List ℕ

-- A new line, with the id that the database has drawn for it.
abbrev pub new_line : ℕ × LineCreate → RequestLine
new_line (id, l) = record {
  id = id;
  product_id = l.product_id;
  requested_qty = l.requested_qty;
  approved_qty = pos 0;
  issued_qty = pos 0;
  received_qty = none;
  missing_qty = none;
  damaged_qty = none;
  extra_qty = none;
}

abbrev pub new_lines : List ℕ → List LineCreate → List RequestLine
new_lines (id ∷ ids) (l ∷ ls) = new_line (id, l) ∷ new_lines ids ls
new_lines _ _ = []

abbrev pub new_header : ℕ → List ℕ → ℕ → OrderRequestCreate → RequestHeader
new_header id line_ids user req = record {
  id = id;
  branch_id = req.branch_id;
  destination_branch_id = req.destination_branch_id;
  requested_by = user;
  purpose = req.purpose;
  status = if req.submit then pending else draft;
  comments = req.comments;
  approved_by = none;
  approved_date = none;
  issued_by = none;
  issued_date = none;
  received_by = none;
  received_date = none;
  completed_by = none;
  completed_date = none;
  completion_remarks = none;
  lines = new_lines line_ids req.lines;
}

abbrev pub branch_of : Option Warehouse → Option ℕ
branch_of none = none
branch_of (some w) = w.branch_id

-- The request sends stock to a branch that the user is not scoped to.
abbrev pub sends_outside : List ℕ → Option ℕ → Bool
sends_outside [] branch = false
sends_outside (b ∷ bs) none = false
sends_outside (b ∷ bs) (some branch) = not (is_in branch (b ∷ bs))

-- The destination is looked up, if there is one, and its branch is returned.
abbrev pub require_destination : Option ℕ → Tx Depot (Option ℕ)
require_destination none = pure none
require_destination (some d) = do
  found ← gets (λ (depot : Depot). depot.stock.warehouses d)
  w ← or_raise found (not_found "Destination location not found")
  pure w.branch_id

abbrev pub is_none : Option ℕ → Bool
is_none none = true
is_none (some _) = false

-- `repo.create`, and what `create` does after it.
unfoldable pub add_request : Bool → ℕ → List ℕ → ℕ → OrderRequestCreate → Tx Depot (Unit {0})
add_request has_notifications id line_ids user req = do
  let h = new_header id line_ids user req
  modify (λ (depot : Depot). record depot { headers = h ∷ depot.headers })
  audit h user "created" none h.status
  if req.submit then notify_pending has_notifications h else pure tt

-- `create`. The ids that the database draws are arguments.
unfoldable pub create : Bool → ℕ → List ℕ → ℕ → OrderRequestCreate → Tx Depot (Unit {0})
create has_notifications id line_ids user req = do
  raise_if (is_transfer_type req.purpose && is_none req.destination_branch_id)
      (business_rule "A transfer needs a destination location.")
  source ← gets (λ (depot : Depot). depot.stock.warehouses req.branch_id)
  or_raise source (not_found "Source location not found")
  branch ← require_destination req.destination_branch_id
  raise_if
      ((is_transfer_type req.purpose || sends_outside req.user_branch_ids branch)
        && not req.may_transfer)
      (permission_denied
        "You need the stock-transfer permission to raise an inter-location transfer")
  add_request has_notifications id line_ids user req

-- The guard of a requester who is no admin.
abbrev pub own_or_admin : Bool → ℕ → RequestHeader → Tx Depot (Unit {0})
own_or_admin is_admin actor h =
    raise_if (not is_admin && not (h.requested_by == actor)) (not_found "Order request not found")

unfoldable pub submit : Bool → ℕ → ℕ → Bool → Tx Depot (Unit {0})
submit has_notifications actor request_id is_admin = do
  h ← require request_id
  own_or_admin is_admin actor h
  raise_if (not (can_transition h.status pending)) (business_rule "Only a draft can be submitted")
  let h' = record h { status = pending }
  save_header h'
  audit h' actor "submitted" (some draft) pending
  notify_pending has_notifications h'

unfoldable pub reject : ℕ → ℕ → String → Tx Depot (Unit {0})
reject actor request_id reason = do
  h ← require request_id
  raise_if (not (can_transition h.status rejected))
      (business_rule "Cannot reject a request in this status")
  now ← gets (λ (depot : Depot). depot.stock.now)
  let h' = record h {
    status = rejected;
    comments = some reason;
    approved_by = some actor;
    approved_date = some now;
  }
  save_header h'
  audit h' actor "rejected" (some pending) rejected
