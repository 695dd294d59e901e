-- ===== src/Assembly/Plans.antt =====
-- When the planner recommends, and what.
use inventory_management_sys.Base.{◌≡◌, ◌↔◌, true, ◌⊎◌}
use inventory_management_sys.Base.Int.{pos, ◌+ℤ◌, ◌≤ℤ◌, ◌<ℤ◌, int_laws}
use inventory_management_sys.Assembly.{ComboInput, plan_combo}

-- Units are recommended exactly where the assembled ones are not above the threshold and are below
-- the target, and there is something to build from.
pub plan_combo_recommends :
    (c : ComboInput)
    → ((plan_combo c).is_recommendation ≡ true)
      ↔ ((c.assembled ≤ℤ c.threshold) × (pos 0 <ℤ c.unassembled) × (c.assembled <ℤ c.target))
unfolding plan_combo
plan_combo_recommends c = (
  λ h. (grind int_laws, grind int_laws, grind int_laws),
  λ (thin, some_left, below). grind int_laws,
)

-- There is a gap exactly where the assembled units are not above the threshold and there is nothing
-- to build from.
pub plan_combo-gap :
    (c : ComboInput)
    → ((plan_combo c).is_gap ≡ true) ↔ ((c.assembled ≤ℤ c.threshold) × (c.unassembled ≤ℤ pos 0))
unfolding plan_combo
plan_combo-gap c = (λ h. (grind int_laws, grind int_laws), λ (thin, none_left). grind int_laws)

-- What is recommended is at least one unit, can be built from the unassembled units, does not pass
-- the target, and uses up the unassembled units or meets the target.
pub plan_combo_fits :
    (c : ComboInput)
    → (plan_combo c).is_recommendation ≡ true
    → (pos 0 <ℤ (plan_combo c).recommended_qty)
      × ((plan_combo c).recommended_qty ≤ℤ c.unassembled)
      × (c.assembled +ℤ (plan_combo c).recommended_qty ≤ℤ c.target)
      × (((plan_combo c).recommended_qty ≡ c.unassembled)
          ⊎ (c.assembled +ℤ (plan_combo c).recommended_qty ≡ c.target))
unfolding plan_combo
plan_combo_fits c h = (grind int_laws, grind int_laws, grind int_laws, grind int_laws)
