-- ===== src/Assembly/Examples.antt =====
-- A model of which one unit is assembled and three can be.
use inventory_management_sys.Base.{◌≡◌, ◌↔◌, ◌⊎◌, refl, true}
use inventory_management_sys.Base.Int.{pos, ◌+ℤ◌, ◌-ℤ◌, ◌≤ℤ◌, ◌<ℤ◌}
use inventory_management_sys.Assembly.{ComboInput, plan_combo}
use inventory_management_sys.Assembly.Plans.{plan_combo_recommends, plan_combo-gap, plan_combo_fits}

abbrev thin : ComboInput
thin = record { assembled = pos 1; unassembled = pos 3; target = pos 2; threshold = pos 1 }

plan_combo_recommends_example : ((plan_combo thin).is_recommendation ≡ true) ↔ (
    (thin.assembled ≤ℤ thin.threshold)
    × (pos 0 <ℤ thin.unassembled)
    × (thin.assembled <ℤ thin.target))
plan_combo_recommends_example = plan_combo_recommends thin

plan_combo-gap_example :
    ((plan_combo thin).is_gap ≡ true)
    ↔ ((thin.assembled ≤ℤ thin.threshold) × (thin.unassembled ≤ℤ pos 0))
plan_combo-gap_example = plan_combo-gap thin

thin-recommended : (plan_combo thin).is_recommendation ≡ true
unfolding plan_combo ◌-ℤ◌
thin-recommended = refl

plan_combo_fits_example :
    (pos 0 <ℤ (plan_combo thin).recommended_qty)
    × ((plan_combo thin).recommended_qty ≤ℤ thin.unassembled)
    × (thin.assembled +ℤ (plan_combo thin).recommended_qty ≤ℤ thin.target)
    × (((plan_combo thin).recommended_qty ≡ thin.unassembled)
        ⊎ (thin.assembled +ℤ (plan_combo thin).recommended_qty ≡ thin.target))
plan_combo_fits_example = plan_combo_fits thin thin-recommended
