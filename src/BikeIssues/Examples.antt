-- ===== src/BikeIssues/Examples.antt =====
-- A fault that is repaired.
use inventory_management_sys.Base.{refl}
use inventory_management_sys.BikeIssues.{opened, in_repair, resolved, can_transition}
use inventory_management_sys.BikeIssues.Workflow.{History, now_in, then_to}

abbrev repaired : History opened resolved
unfolding can_transition
repaired = then_to (then_to now_in in_repair refl) resolved refl
