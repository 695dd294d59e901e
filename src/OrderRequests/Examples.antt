-- ===== src/OrderRequests/Examples.antt =====
-- A request for ten units of which four are approved and issued.
use inventory_management_sys.Base.{◌≡◌, true, List, [], ◌∷◌}
use inventory_management_sys.Base.Int.{ℤ, pos}
use inventory_management_sys.OrderRequests.{
  pending, approved, partially_approved, partially_issued, issued, in_transit, partially_received,
  can_transition, approval_outcome, issue_outcome, receive_outcome,
}
use inventory_management_sys.OrderRequests.Outcomes.{outcomes_allowed}

abbrev four_of_ten : List (ℤ × ℤ)
four_of_ten = (pos 40000, pos 100000) ∷ []

outcomes_allowed_example :
    (can_transition pending (approval_outcome four_of_ten) ≡ true)
    × (can_transition approved (issue_outcome four_of_ten true) ≡ true)
    × (can_transition partially_approved (issue_outcome four_of_ten true) ≡ true)
    × (can_transition partially_issued (issue_outcome four_of_ten true) ≡ true)
    × (can_transition issued (receive_outcome four_of_ten) ≡ true)
    × (can_transition in_transit (receive_outcome four_of_ten) ≡ true)
    × (can_transition partially_received (receive_outcome four_of_ten) ≡ true)
outcomes_allowed_example = outcomes_allowed four_of_ten true
