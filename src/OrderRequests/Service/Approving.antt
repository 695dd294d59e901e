-- ===== src/OrderRequests/Service/Approving.antt =====
-- order_requests/service.py: `approve`, which holds stock, and `cancel`, which gives it back.
use inventory_management_sys.Base.{
  ℕ, String, Bool, true, false, not, Option, none, some, List, [], ◌∷◌, map, if◌then◌else◌,
}
use inventory_management_sys.Base.Int.{ℤ, pos, leb_ℤ}
use inventory_management_sys.Base.Dict.{Dict, get, dict_of}
use inventory_management_sys.Base.Result.{business_rule, Tx, pure, raise_if, gets, ◌>>=◌, ◌>>◌}
use inventory_management_sys.OrderRequests.{
  RequestStatus, pending, approved, partially_approved, rejected, cancelled, can_transition,
  clamp_approved, approval_outcome,
}
use inventory_management_sys.OrderRequests.Tables.{
  RequestLine, RequestHeader, reserved, released, Depot, in_stock, save_header,
}
use inventory_management_sys.OrderRequests.Repository.{reserve_line, release_reservations}
use inventory_management_sys.OrderRequests.Service.{require, audit, ledger_entry, own_or_admin}
use inventory_management_sys.OrderRequests.Service.Lines.{or_refuse, or_zero, or_other}

-- Approval: the clamped quantities, and a hold for each that is positive.
abbrev pub approve_line : Dict ℤ → RequestLine → RequestLine
approve_line approvals line = record line {
  approved_qty = clamp_approved (or_zero (get line.id approvals)) line.requested_qty;
}

abbrev pub approved_pair : RequestLine → ℤ × ℤ
approved_pair line = (line.approved_qty, line.requested_qty)

unfoldable pub hold_line : RequestHeader → ℕ → RequestLine → Tx Depot (Unit {0})
hold_line h actor line = if leb_ℤ line.approved_qty (pos 0) then pure tt else do
  result ← in_stock (reserve_line line h.branch_id line.approved_qty actor)
  or_refuse result
  ledger_entry h line reserved actor

unfoldable pub hold_lines : RequestHeader → ℕ → List RequestLine → Tx Depot (Unit {0})
hold_lines h actor [] = pure tt
hold_lines h actor (line ∷ lines) = hold_line h actor line >> hold_lines h actor lines

abbrev pub is_pending : RequestStatus → Bool
is_pending pending = true
is_pending _ = false

abbrev pub is_rejected : RequestStatus → Bool
is_rejected rejected = true
is_rejected _ = false

unfoldable pub approve : ℕ → ℕ → List (ℕ × ℤ) → Option String → Tx Depot (Unit {0})
approve actor request_id approvals comments = do
  h ← require request_id
  raise_if (not (is_pending h.status)) (business_rule "Only pending requests can be approved")
  let lines = map (approve_line (dict_of approvals)) h.lines
  let outcome = approval_outcome (map approved_pair lines)
  raise_if (is_rejected outcome) (business_rule "Nothing approved - use reject instead.")
  hold_lines (record h { lines = lines }) actor lines
  now ← gets (λ (depot : Depot). depot.stock.now)
  let h' = record h {
    lines = lines;
    status = outcome;
    approved_by = some actor;
    approved_date = some now;
    comments = or_other (elim comments [ none ↦ none | some c ↦ some (some c) ]) h.comments;
  }
  save_header h'
  audit h' actor "approved" (some pending) outcome

-- Cancellation before any issue, which gives the holds back.
abbrev pub is_approved : RequestStatus → Bool
is_approved approved = true
is_approved partially_approved = true
is_approved _ = false

abbrev pub ledger_each : RequestHeader → ℕ → List RequestLine → Tx Depot (Unit {0})
ledger_each h actor [] = pure tt
ledger_each h actor (line ∷ lines) = ledger_entry h line released actor >> ledger_each h actor lines

abbrev pub release_all : RequestHeader → ℕ → Tx Depot (Unit {0})
release_all h actor = do in_stock (release_reservations h.lines actor); ledger_each h actor h.lines

unfoldable pub cancel : ℕ → ℕ → Bool → Option String → Tx Depot (Unit {0})
cancel actor request_id is_admin reason = do
  h ← require request_id
  own_or_admin is_admin actor h
  raise_if (not (can_transition h.status cancelled))
      (business_rule "Cannot cancel a request in this status (only before it is issued).")
  if is_approved h.status then release_all h actor else pure tt
  let h' = record h {
    status = cancelled;
    comments = or_other (elim reason [ none ↦ none | some c ↦ some (some c) ]) h.comments;
  }
  save_header h'
  audit h' actor "cancelled" (some h.status) cancelled
