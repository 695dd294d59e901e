-- ===== src/Sales/Documents.antt =====
-- What payments and transitions make of the documents.
use inventory_management_sys.Base.{◌≡◌, ◌≢◌, ◌↔◌, ◌⊎◌, true, ◌||◌, arith}
use inventory_management_sys.Base.Int.{ℤ, pos, ◌≤ℤ◌, ◌<ℤ◌}
use inventory_management_sys.Sales.{
  QuoteStatus, accepted, cancelled, quote_can_transition, is_convertible, inv_partially_paid,
  inv_paid, is_payable, is_voidable, invoice_status_after_payment,
}

-- An invoice is paid exactly when its total is positive and settled, and partially paid exactly
-- when something is settled and it is not paid. An invoice can be voided after any payment, and
-- unless it is paid it can be paid further.
pub invoice_status_after_payment_iff :
    (total paid : ℤ)
    → ((invoice_status_after_payment total paid ≡ inv_paid) ↔ ((pos 0 <ℤ total) × (total ≤ℤ paid)))
      × ((invoice_status_after_payment total paid ≡ inv_partially_paid)
          ↔ ((pos 0 <ℤ paid) × ((paid <ℤ total) ⊎ (total ≤ℤ pos 0))))
      × (is_voidable (invoice_status_after_payment total paid) ≡ true)
      × ((is_payable (invoice_status_after_payment total paid) ≡ true)
          ↔ (invoice_status_after_payment total paid ≢ inv_paid))
unfolding invoice_status_after_payment is_voidable is_payable
invoice_status_after_payment_iff total paid = (
  (λ e. (ground arith, ground arith), λ (a, b). ground arith),
  (λ e. (ground arith, ground arith), λ (a, b). ground arith),
  ground arith,
  (λ e n. ground arith, λ n. ground arith),
)

-- A quotation may be converted exactly while it can be accepted or cancelled.
pub is_convertible_lem :
    (s : QuoteStatus)
    → is_convertible s ≡ (quote_can_transition s accepted || quote_can_transition s cancelled)
unfolding is_convertible quote_can_transition
is_convertible_lem s = ground arith
