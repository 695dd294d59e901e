-- ===== src/Sales/Delivery.antt =====
-- What a delivery makes of a sales order.
use inventory_management_sys.Base.{
  ◌≡◌, ◌↔◌, refl, true, false, inl, inr, Bool-cases, List, all, All, all-All, All-map, arith,
}
use inventory_management_sys.Base.Int.{ℤ, ◌≤ℤ◌}
use inventory_management_sys.Sales.{
  so_delivered, is_delivered, is_deliverable, is_cancellable, so_delivery_outcome,
}

outcome_delivered :
    (lines : List (ℤ × ℤ))
    → (so_delivery_outcome lines ≡ so_delivered) ↔ (all is_delivered lines ≡ true)
unfolding so_delivery_outcome
outcome_delivered lines = elim (Bool-cases (all is_delivered lines)) [
  | inl whole ↦ rw whole (λ e. refl, λ e. refl)
  | inr short ↦ rw short (λ e. absurd (ground arith), λ e. absurd (ground arith))
]

-- An order is delivered exactly when each line has at least its ordered quantity, it can be
-- delivered further exactly when it is not, and after a delivery it cannot be cancelled.
pub so_delivery_outcome_iff :
    (lines : List (ℤ × ℤ))
    → ((so_delivery_outcome lines ≡ so_delivered) ↔ All (λ (l : ℤ × ℤ). l.1 ≤ℤ l.0) lines)
      × ((is_deliverable (so_delivery_outcome lines) ≡ true) ↔ (all is_delivered lines ≡ false))
      × (is_cancellable (so_delivery_outcome lines) ≡ false)
unfolding so_delivery_outcome is_deliverable is_cancellable
so_delivery_outcome_iff lines = (
  (
    λ e.
        All-map _ _ (λ l h. ground arith) lines
          ((all-All is_delivered lines).0 ((outcome_delivered lines).0 e)),
    λ a.
        (outcome_delivered lines).1
          ((all-All is_delivered lines).1 (All-map _ _ (λ l h. ground arith) lines a)),
  ),
  (λ e. ground arith, λ e. rw e refl),
  ground arith,
)
