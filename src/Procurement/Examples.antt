-- ===== src/Procurement/Examples.antt =====
-- A purchase order of two lines, and its receipts.
use inventory_management_sys.Base.{◌↔◌, refl, List, [], ◌∷◌, arith}
use inventory_management_sys.Base.Int.{ℤ, pos}
use inventory_management_sys.Base.Dict.{Dict}
use inventory_management_sys.Procurement.States.{
  draft, approved, sent, submit, approve, send, target_status,
}
use inventory_management_sys.Procurement.States.Workflow.{
  Route, start, then_step, fixed, Visits, Route-Visits,
}
use inventory_management_sys.Procurement.Receiving.{LineState, apply_receipt}
use inventory_management_sys.Procurement.Receiving.Acceptance.{
  IsDone, Acceptable, apply_receipt_iff,
}
use inventory_management_sys.Procurement.Receiving.Outcome.Tallies.{Holds}
use inventory_management_sys.Procurement.Receiving.Outcome.{Received, apply_receipt-Received}

-- Ten units, of which four have come, and five units.
abbrev two_lines : List LineState
two_lines =
    record { line_id = 1; product_id = 1; ordered_qty = pos 100000; already_received = pos 40000 }
    ∷ record { line_id = 2; product_id = 2; ordered_qty = pos 50000; already_received = pos 0 }
    ∷ []

abbrev the_rest : Dict ℤ
the_rest = (1, pos 60000) ∷ (2, pos 50000) ∷ []

apply_receipt-Received_example :
    Holds (Received two_lines the_rest) (apply_receipt two_lines the_rest)
apply_receipt-Received_example =
    apply_receipt-Received two_lines the_rest ((ground arith, tt), (tt, tt))
      (ground arith, (ground arith, tt))

apply_receipt_iff_example :
    IsDone (apply_receipt two_lines the_rest) ↔ Acceptable two_lines the_rest
apply_receipt_iff_example = apply_receipt_iff two_lines the_rest

abbrev to_sent : Route draft sent
unfolding target_status
to_sent =
    then_step (then_step (then_step start (fixed submit refl)) (fixed approve refl))
      (fixed send refl)

Route-Visits_example : Visits approved to_sent
Route-Visits_example = Route-Visits to_sent refl
