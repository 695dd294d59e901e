-- ===== src/Issuance.antt =====
-- issuance/domain/status.py: the return of issued goods. The floats of the code are on the grid of
-- ten-thousandths, so that a comparison with the tolerance 1e-9 is the exact one.
pub mod Returns
use inventory_management_sys.Base.{Bool, true, false, List, [], ◌∷◌, all, if◌then◌else◌}
use inventory_management_sys.Base.Int.{ℤ, leb_ℤ}

pub data IssuanceStatus : Type 0 where
  draft out_on_loan partially_returned returned cancelled : IssuanceStatus

-- Of each pair, quantity and what is accounted for, the latter is at least the former.
abbrev pub is_accounted : ℤ × ℤ → Bool
is_accounted line = leb_ℤ line.0 line.1

unfoldable pub return_outcome : List (ℤ × ℤ) → IssuanceStatus
return_outcome [] = returned
return_outcome (line ∷ lines) =
    if all is_accounted (line ∷ lines) then returned else partially_returned
