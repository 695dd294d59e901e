-- ===== src/BikeIssues.antt =====
-- bike_issues/domain/status.py: the workflow of a fault on a motorcycle.
pub mod Workflow
mod Examples
use inventory_management_sys.Base.{Bool, true, false}

pub data IssueStatus : Type 0 where
  opened in_repair resolved : IssueStatus

-- `new in _ALLOWED.get(old, set())`
unfoldable pub can_transition : IssueStatus → IssueStatus → Bool
can_transition opened in_repair = true
can_transition opened resolved = true
can_transition in_repair resolved = true
can_transition _ _ = false

-- `status in ACTIVE` and `status in RESOLVABLE_FROM`.
unfoldable pub is_active : IssueStatus → Bool
is_active opened = true
is_active in_repair = true
is_active _ = false

unfoldable pub is_resolvable : IssueStatus → Bool
is_resolvable opened = true
is_resolvable in_repair = true
is_resolvable _ = false
