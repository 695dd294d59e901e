-- ===== src/CustomerDelivery.antt =====
-- customer_delivery/domain/status.py: the settlement of goods on consignment. The floats of the
-- code are on the grid of ten-thousandths, so that a comparison with the tolerance 1e-9 is exact.
pub mod Settled
mod Examples
use inventory_management_sys.Base.{Bool, true, false, not, ◌||◌, List, [], ◌∷◌, all, if◌then◌else◌}
use inventory_management_sys.Base.Int.{ℤ, pos, ◌+ℤ◌, leb_ℤ, ltb_ℤ}

pub data DeliveryStatus : Type 0 where
  draft delivered out_at_reseller partially_settled settled returned cancelled : DeliveryStatus

-- The quantities of a line.
pub record DeliveryLine : Type 0 where
  pub qty : ℤ
  pub settled_qty : ℤ
  pub returned_qty : ℤ

abbrev pub is_accounted : DeliveryLine → Bool
is_accounted l = leb_ℤ l.qty (l.settled_qty +ℤ l.returned_qty)

abbrev pub has_sold : DeliveryLine → Bool
has_sold l = ltb_ℤ (pos 0) l.settled_qty

-- Python's `any(...)`.
abbrev pub any_sold : List DeliveryLine → Bool
any_sold [] = false
any_sold (l ∷ ls) = has_sold l || any_sold ls

unfoldable pub reconcile_outcome : List DeliveryLine → DeliveryStatus
reconcile_outcome [] = settled
reconcile_outcome (l ∷ ls) =
    if all is_accounted (l ∷ ls)
    then (if any_sold (l ∷ ls) then settled else returned)
    else partially_settled
