-- ===== src/CustomerDelivery/Settled.antt =====
-- When a consignment is settled, returned or still out.
use inventory_management_sys.Base.{◌≡◌, ◌≢◌, ◌↔◌, refl, true, false, List, [], ◌∷◌, all, All, arith}
use inventory_management_sys.Base.Int.{pos, ◌+ℤ◌, ◌≤ℤ◌}
use inventory_management_sys.CustomerDelivery.{
  returned, partially_settled, DeliveryLine, is_accounted, any_sold, reconcile_outcome,
}

-- All of the line has come back or more.
abbrev pub CameBack : DeliveryLine → Type 0
CameBack l = (l.settled_qty ≤ℤ pos 0) × (l.qty ≤ℤ l.settled_qty +ℤ l.returned_qty)

none-sold : (ls : List DeliveryLine) → (any_sold ls ≡ false) ↔ All (λ l. l.settled_qty ≤ℤ pos 0) ls
none-sold [] = (λ e. tt, λ a. refl)
none-sold (l ∷ ls) = (
  λ e. (ground arith, (none-sold ls).0 (ground arith)),
  λ (h, a). ground (arith, (none-sold ls).1 a),
)

accounted_iff :
    (ls : List DeliveryLine)
    → (all is_accounted ls ≡ true) ↔ All (λ l. l.qty ≤ℤ l.settled_qty +ℤ l.returned_qty) ls
accounted_iff [] = (λ e. tt, λ a. refl)
accounted_iff (l ∷ ls) = (
  λ e. (ground arith, (accounted_iff ls).0 (ground arith)),
  λ (h, a). ground (arith, (accounted_iff ls).1 a),
)

-- Some of a consignment is still out exactly when not every line is sold or back in full, and the
-- consignment is returned exactly when it has a line, nothing is sold and every line is back.
pub reconcile_outcome_iff :
    (ls : List DeliveryLine)
    → ((reconcile_outcome ls ≡ partially_settled) ↔ (all is_accounted ls ≡ false))
      × ((reconcile_outcome ls ≡ returned) ↔ (
          (ls ≢ [])
          × All (λ l. l.settled_qty ≤ℤ pos 0) ls
          × All (λ l. l.qty ≤ℤ l.settled_qty +ℤ l.returned_qty) ls))
unfolding reconcile_outcome
reconcile_outcome_iff [] = (
  (λ e. absurd (ground arith), λ e. absurd (ground arith)),
  (λ e. absurd (ground arith), λ a. absurd (a.0 refl)),
)
reconcile_outcome_iff (l ∷ ls) = (
  (λ e. ground arith, λ e. rw e refl),
  (
    λ e. (
      (λ n. ground arith),
      (none-sold (l ∷ ls)).0 (ground arith),
      (accounted_iff (l ∷ ls)).0 (ground arith),
    ),
    λ (n, sold, back). rw ((accounted_iff (l ∷ ls)).1 back, (none-sold (l ∷ ls)).1 sold) refl,
  ),
)
