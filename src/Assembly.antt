-- ===== src/Assembly.antt =====
-- assembly/domain/planner.py: which units of a motorcycle model to assemble.
pub mod Plans
mod Examples
use inventory_management_sys.Base.{Bool, true, false, if◌then◌else◌}
use inventory_management_sys.Base.Int.{ℤ, pos, ◌-ℤ◌, leb_ℤ, ltb_ℤ, min_ℤ}

pub record ComboInput : Type 0 where
  pub assembled : ℤ
  pub unassembled : ℤ
  pub target : ℤ
  pub threshold : ℤ

-- The outcome, less the text of the reason.
pub record ComboOutcome : Type 0 where
  pub recommended_qty : ℤ
  pub is_recommendation : Bool
  pub is_gap : Bool

abbrev pub nothing_to_do : ComboOutcome
nothing_to_do = record { recommended_qty = pos 0; is_recommendation = false; is_gap = false }

abbrev pub gap : ComboOutcome
gap = record { recommended_qty = pos 0; is_recommendation = false; is_gap = true }

abbrev pub recommend : ℤ → ComboOutcome
recommend qty = record { recommended_qty = qty; is_recommendation = true; is_gap = false }

unfoldable pub plan_combo : ComboInput → ComboOutcome
plan_combo c =
    let qty = min_ℤ (c.target -ℤ c.assembled) c.unassembled in
    if ltb_ℤ c.threshold c.assembled
    then nothing_to_do
    else (if leb_ℤ c.unassembled (pos 0)
        then gap
        else (if leb_ℤ qty (pos 0) then nothing_to_do else recommend qty))
