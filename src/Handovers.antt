-- ===== src/Handovers.antt =====
-- customer_handovers/domain/status.py: what keeps a handover from being completed. Python's
-- `str.strip` is a parameter.
pub mod Completion
mod Examples
use text.Mathlib.Text.{◌==◌ as str_eq}
use inventory_management_sys.Base.{
  ℕ, String, Bool, true, false, not, Option, none, some, List, [], ◌∷◌, ◌++◌, if◌then◌else◌,
}
use inventory_management_sys.Base.Int.{ℤ, pos, ltb_ℤ}

pub record Handover : Type 0 where
  pub balance_zmw : Option ℤ
  pub quality_control_officer_signed : Bool
  pub branch_manager_signed : Bool
  pub customer_signature_name : Option String
  pub delivery_date : Option ℕ

-- The messages, by what they say.
pub data CompletionError : Type 0 where
  outstanding_balance quality_control branch_manager customer_signature delivery : CompletionError

-- `_d(v)`
abbrev pub amount : Option ℤ → ℤ
amount none = pos 0
amount (some v) = v

-- `not (name or "").strip()`
abbrev pub is_blank : (String → String) → Option String → Bool
is_blank strip none = str_eq (strip "") ""
is_blank strip (some name) = str_eq (strip name) ""

abbrev pub is_missing : Option ℕ → Bool
is_missing none = true
is_missing (some _) = false

-- `if c: errors.append(e)`
abbrev pub report_if : Bool → CompletionError → List CompletionError → List CompletionError
report_if c e errors = if c then e ∷ errors else errors

-- The list is in the order in which the code appends.
unfoldable pub completion_errors : (String → String) → Handover → List CompletionError
completion_errors strip h = report_if (ltb_ℤ (pos 0) (amount h.balance_zmw)) outstanding_balance (
    report_if (not h.quality_control_officer_signed) quality_control (
      report_if (not h.branch_manager_signed) branch_manager (
        report_if (is_blank strip h.customer_signature_name) customer_signature
          (report_if (is_missing h.delivery_date) delivery []))))
