-- ===== src/CustomerDelivery/Examples.antt =====
-- A consignment that has come back.
use inventory_management_sys.Base.{◌≡◌, ◌≢◌, ◌↔◌, false, List, [], ◌∷◌, All, all}
use inventory_management_sys.Base.Int.{pos, ◌+ℤ◌, ◌≤ℤ◌}
use inventory_management_sys.CustomerDelivery.{
  DeliveryLine, partially_settled, returned, is_accounted, reconcile_outcome,
}
use inventory_management_sys.CustomerDelivery.Settled.{reconcile_outcome_iff}

abbrev all_back : List DeliveryLine
all_back = record { qty = pos 50000; settled_qty = pos 0; returned_qty = pos 50000 } ∷ []

reconcile_outcome_iff_example :
    ((reconcile_outcome all_back ≡ partially_settled) ↔ (all is_accounted all_back ≡ false))
    × ((reconcile_outcome all_back ≡ returned) ↔ (
        (all_back ≢ [])
        × All (λ l. l.settled_qty ≤ℤ pos 0) all_back
        × All (λ l. l.qty ≤ℤ l.settled_qty +ℤ l.returned_qty) all_back))
reconcile_outcome_iff_example = reconcile_outcome_iff all_back
