-- ===== src/BikeIssues/Workflow.antt =====
-- The sets and the table agree, and a fault takes at most two steps.
use inventory_management_sys.Base.{ℕ, suc, ◌≡◌, true, arith}
use inventory_management_sys.BikeIssues.{
  IssueStatus, opened, in_repair, resolved, can_transition, is_active, is_resolvable,
}

-- A history of a fault, each step allowed.
pub data History (s : IssueStatus) : IssueStatus → Type 0 where
  now_in : History s s
  then_to :
      {t : IssueStatus} → History s t → (u : IssueStatus) → can_transition t u ≡ true → History s u

abbrev pub steps : {s t : IssueStatus} → History s t → ℕ
steps now_in = 0
steps (then_to h u e) = suc (steps h)

-- The steps that a status is away from the start at least.
abbrev pub rank : IssueStatus → ℕ
rank opened = 0
rank in_repair = 1
rank resolved = 2

-- A fault may be resolved exactly while it is active, and from exactly the statuses that the
-- service checks.
pub is_active_lem :
    (s : IssueStatus)
    → (is_active s ≡ can_transition s resolved) × (is_resolvable s ≡ can_transition s resolved)
unfolding is_active is_resolvable can_transition
is_active_lem s = (ground arith, ground arith)
