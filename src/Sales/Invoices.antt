-- ===== src/Sales/Invoices.antt =====
-- models/sales.py: invoices, and what of one is settled. Amounts are ten-thousandths; a rate of
-- exchange is in millionths. The lines of an invoice, its prices and its texts are left out.
pub mod Settling
pub mod Voiding
pub mod Bikes
pub mod Calls
pub mod Restocked
pub mod Keeping
pub mod Conserved
pub mod Histories
pub mod Reconciled
pub mod Paying
pub mod Voided
mod Examples
use inventory_management_sys.Base.{ℕ, String, Bool, Option, none, some, List, ◌+◌, ◌*◌, ◌/◌}
use inventory_management_sys.Base.Int.{ℤ, pos, negsuc, ◌+ℤ◌, ◌-ℤ◌, ◌*ℤ◌}
use inventory_management_sys.Sales.{InvoiceStatus}

pub record Invoice : Type 0 where
  pub id : ℕ
  pub sales_order_id : Option ℕ
  pub delivery_note_id : Option ℕ
  pub customer_id : ℕ
  pub branch_id : Option ℕ
  pub status : InvoiceStatus
  pub grand_total : ℤ
  pub fx_rate : ℤ
  pub grand_total_zmw : ℤ
  pub amount_paid : ℤ
  pub credit_total : ℤ
  pub voided_at : Option ℕ
  pub voided_by : Option ℕ
  pub void_reason : Option String

abbrev pub invoice_key : Invoice → ℕ
invoice_key i = i.id

-- A product of ten-thousandths and millionths in hundredths, half up, and that in ten-thousandths.
abbrev pub half_up : ℕ → ℕ
half_up n = (n + 50000000) / 100000000 * 100

abbrev pub quantized : ℤ → ℤ
quantized (pos n) = pos (half_up n)
quantized (negsuc n) = pos 0 -ℤ pos (half_up (n + 1))

unfoldable pub to_zmw : ℤ → ℤ → ℤ
to_zmw amount rate = quantized (amount *ℤ rate)

abbrev pub credit_zmw : Invoice → ℤ
credit_zmw i = to_zmw i.credit_total i.fx_rate

abbrev pub invoice_balance_zmw : Invoice → ℤ
invoice_balance_zmw i = i.grand_total_zmw -ℤ i.amount_paid -ℤ credit_zmw i
