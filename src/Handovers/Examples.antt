-- ===== src/Handovers/Examples.antt =====
-- A handover that is ready.
use inventory_management_sys.Base.{◌≡◌, ◌≢◌, ◌↔◌, String, true, false, none, some, []}
use inventory_management_sys.Base.Int.{pos, ◌≤ℤ◌}
use inventory_management_sys.Handovers.{Handover, amount, is_blank, completion_errors}
use inventory_management_sys.Handovers.Completion.{completion_errors_iff}

abbrev ready : Handover
ready = record {
  balance_zmw = some (pos 0);
  quality_control_officer_signed = true;
  branch_manager_signed = true;
  customer_signature_name = some "A. Banda";
  delivery_date = some 3;
}

abbrev unchanged : String → String
unchanged text = text

completion_errors_iff_example : (completion_errors unchanged ready ≡ []) ↔ (
    (amount ready.balance_zmw ≤ℤ pos 0)
    × (ready.quality_control_officer_signed ≡ true)
    × (ready.branch_manager_signed ≡ true)
    × (is_blank unchanged ready.customer_signature_name ≡ false)
    × (ready.delivery_date ≢ none))
completion_errors_iff_example = completion_errors_iff unchanged ready
