-- ===== src/Dispatch/Examples.antt =====
-- A note of which one unit arrived damaged.
use inventory_management_sys.Base.{◌≡◌, ◌↔◌, refl, true, List, [], ◌∷◌, All}
use inventory_management_sys.Base.Int.{pos, ◌+ℤ◌}
use inventory_management_sys.Dispatch.{NoteLine, received, receive_outcome, line_reconciles}
use inventory_management_sys.Dispatch.Reconciled.{Whole, receive_outcome_iff}

abbrev one_damaged : List NoteLine
one_damaged =
    record {
      dispatched = pos 50000;
      received_qty = pos 40000;
      missing = pos 0;
      damaged = pos 10000;
    }
    ∷ []

one_damaged-reconciles : All (λ l. line_reconciles l ≡ true) one_damaged
unfolding line_reconciles ◌+ℤ◌
one_damaged-reconciles = (refl, tt)

receive_outcome_iff_example : (receive_outcome one_damaged ≡ received) ↔ All Whole one_damaged
receive_outcome_iff_example = receive_outcome_iff one_damaged one_damaged-reconciles
