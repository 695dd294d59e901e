-- ===== src/Sales.antt =====
-- sales/domain/status.py: the statuses of quotations, orders and invoices. Amounts and quantities are
-- ten-thousandths; the tolerances of the code are half of one and less, so that a comparison with
-- them is the exact one.
pub mod Documents
pub mod Delivery
pub mod Tables
pub mod Orders
pub mod Invoices
use inventory_management_sys.Base.{Bool, true, false, ◌&&◌, List, all, if◌then◌else◌}
use inventory_management_sys.Base.Int.{ℤ, pos, leb_ℤ, ltb_ℤ}

pub data QuoteStatus : Type 0 where
  draft sent accepted rejected expired cancelled : QuoteStatus

-- `new in _QUOTE_ALLOWED.get(old, set())`
unfoldable pub quote_can_transition : QuoteStatus → QuoteStatus → Bool
quote_can_transition draft sent = true
quote_can_transition draft accepted = true
quote_can_transition draft cancelled = true
quote_can_transition sent accepted = true
quote_can_transition sent rejected = true
quote_can_transition sent expired = true
quote_can_transition sent cancelled = true
quote_can_transition accepted cancelled = true
quote_can_transition _ _ = false

-- `status in QUOTE_CONVERTIBLE`
unfoldable pub is_convertible : QuoteStatus → Bool
is_convertible draft = true
is_convertible sent = true
is_convertible accepted = true
is_convertible _ = false

pub data InvoiceStatus : Type 0 where
  inv_draft inv_sent inv_partially_paid inv_paid inv_overdue inv_cancelled inv_voided :
      InvoiceStatus

-- `status in INVOICE_PAYABLE` and `status in INVOICE_VOIDABLE`.
unfoldable pub is_payable : InvoiceStatus → Bool
is_payable inv_draft = true
is_payable inv_sent = true
is_payable inv_partially_paid = true
is_payable inv_overdue = true
is_payable _ = false

unfoldable pub is_voidable : InvoiceStatus → Bool
is_voidable inv_draft = true
is_voidable inv_sent = true
is_voidable inv_partially_paid = true
is_voidable inv_paid = true
is_voidable inv_overdue = true
is_voidable _ = false

unfoldable pub invoice_status_after_payment : ℤ → ℤ → InvoiceStatus
invoice_status_after_payment total paid =
    if leb_ℤ total paid && ltb_ℤ (pos 0) total
    then inv_paid
    else (if ltb_ℤ (pos 0) paid then inv_partially_paid else inv_sent)

pub data SalesOrderStatus : Type 0 where
  so_draft so_confirmed so_reserved so_picking : SalesOrderStatus
  so_partially_delivered so_delivered so_cancelled : SalesOrderStatus

-- `status in SO_DELIVERABLE` and `status in SO_CANCELLABLE`.
unfoldable pub is_deliverable : SalesOrderStatus → Bool
is_deliverable so_confirmed = true
is_deliverable so_reserved = true
is_deliverable so_picking = true
is_deliverable so_partially_delivered = true
is_deliverable _ = false

unfoldable pub is_cancellable : SalesOrderStatus → Bool
is_cancellable so_draft = true
is_cancellable so_confirmed = true
is_cancellable so_reserved = true
is_cancellable so_picking = true
is_cancellable _ = false

-- Of each pair, delivered and ordered quantity, the former is at least the latter.
abbrev pub is_delivered : ℤ × ℤ → Bool
is_delivered line = leb_ℤ line.1 line.0

unfoldable pub so_delivery_outcome : List (ℤ × ℤ) → SalesOrderStatus
so_delivery_outcome lines = if all is_delivered lines then so_delivered else so_partially_delivered
