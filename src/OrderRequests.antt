-- ===== src/OrderRequests.antt =====
-- order_requests/domain/status.py: the statuses of an order request or stock transfer, and the
-- arithmetic of its lines. The floats of the code are on the grid of ten-thousandths, so that a
-- comparison with the tolerance 1e-9 is the exact one.
pub mod Outcomes
pub mod Tables
pub mod Repository
pub mod Service
pub mod Stock
mod Examples
mod CallExamples
use inventory_management_sys.Base.{Bool, true, false, ◌&&◌, not, List, [], ◌∷◌, all, if◌then◌else◌}
use inventory_management_sys.Base.Int.{ℤ, pos, ◌+ℤ◌, ◌-ℤ◌, leb_ℤ, eqb_ℤ, min_ℤ, max_ℤ}

pub data RequestStatus : Type 0 where
  draft pending approved partially_approved rejected partially_issued : RequestStatus
  issued in_transit partially_received received cancelled completed : RequestStatus

-- `new in _ALLOWED.get(old, set())`
unfoldable pub can_transition : RequestStatus → RequestStatus → Bool
can_transition draft pending = true
can_transition draft cancelled = true
can_transition pending approved = true
can_transition pending partially_approved = true
can_transition pending rejected = true
can_transition pending cancelled = true
can_transition approved partially_issued = true
can_transition approved issued = true
can_transition approved in_transit = true
can_transition approved cancelled = true
can_transition partially_approved partially_issued = true
can_transition partially_approved issued = true
can_transition partially_approved in_transit = true
can_transition partially_approved cancelled = true
can_transition partially_issued partially_issued = true
can_transition partially_issued issued = true
can_transition partially_issued in_transit = true
can_transition partially_issued partially_received = true
can_transition partially_issued received = true
can_transition issued in_transit = true
can_transition issued partially_received = true
can_transition issued received = true
can_transition issued completed = true
can_transition in_transit partially_received = true
can_transition in_transit received = true
can_transition in_transit completed = true
can_transition partially_received partially_received = true
can_transition partially_received received = true
can_transition partially_received completed = true
can_transition received completed = true
can_transition _ _ = false

-- `status in CANCELLABLE`
unfoldable pub is_cancellable : RequestStatus → Bool
is_cancellable draft = true
is_cancellable pending = true
is_cancellable approved = true
is_cancellable partially_approved = true
is_cancellable _ = false

unfoldable pub clamp_approved : ℤ → ℤ → ℤ
clamp_approved approved_qty requested_qty = max_ℤ (pos 0) (min_ℤ approved_qty requested_qty)

abbrev pub total_of : List (ℤ × ℤ) → ℤ
total_of [] = pos 0
total_of ((a, _) ∷ rest) = a +ℤ total_of rest

-- Of each pair, the first is at least the second.
abbrev pub all_covered : List (ℤ × ℤ) → Bool
all_covered pairs = all (λ (pair : ℤ × ℤ). leb_ℤ pair.1 pair.0) pairs

unfoldable pub approval_outcome : List (ℤ × ℤ) → RequestStatus
approval_outcome pairs =
    if leb_ℤ (total_of pairs) (pos 0)
    then rejected
    else (if all_covered pairs then approved else partially_approved)

unfoldable pub issue_outcome : List (ℤ × ℤ) → Bool → RequestStatus
issue_outcome pairs is_transfer =
    if all_covered pairs then (if is_transfer then in_transit else issued) else partially_issued

unfoldable pub receive_outcome : List (ℤ × ℤ) → RequestStatus
receive_outcome pairs = if all_covered pairs then received else partially_received

unfoldable pub outstanding : ℤ → ℤ → ℤ
outstanding requested_qty issued_qty = max_ℤ (pos 0) (requested_qty -ℤ issued_qty)

unfoldable pub reconcile_variance : ℤ → ℤ → ℤ → ℤ → ℤ → ℤ
reconcile_variance out extra came missing damaged = out +ℤ extra -ℤ (came +ℤ missing +ℤ damaged)

unfoldable pub is_balanced : ℤ → ℤ → ℤ → ℤ → ℤ → Bool
is_balanced out extra came missing damaged =
    eqb_ℤ (reconcile_variance out extra came missing damaged) (pos 0)
