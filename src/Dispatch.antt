-- ===== src/Dispatch.antt =====
-- dispatch/domain/status.py: the receipt of a dispatch note. The floats of the code are on the grid
-- of ten-thousandths, so that a comparison with the tolerance 1e-9 is the exact one.
pub mod Reconciled
mod Examples
use inventory_management_sys.Base.{Bool, ◌&&◌, List, all, if◌then◌else◌}
use inventory_management_sys.Base.Int.{ℤ, pos, ◌+ℤ◌, leb_ℤ, eqb_ℤ}

pub data NoteStatus : Type 0 where
  draft in_transit partially_received received cancelled : NoteStatus

-- The quantities of a line.
pub record NoteLine : Type 0 where
  pub dispatched : ℤ
  pub received_qty : ℤ
  pub missing : ℤ
  pub damaged : ℤ

unfoldable pub line_reconciles : NoteLine → Bool
line_reconciles l = eqb_ℤ l.dispatched (l.received_qty +ℤ l.missing +ℤ l.damaged)

abbrev pub is_clean : NoteLine → Bool
is_clean l =
    leb_ℤ l.dispatched l.received_qty && (leb_ℤ l.missing (pos 0) && leb_ℤ l.damaged (pos 0))

unfoldable pub receive_outcome : List NoteLine → NoteStatus
receive_outcome lines = if all is_clean lines then received else partially_received
