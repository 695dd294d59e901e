-- ===== src/Sales/Invoices/Voiding.antt =====
-- sales/service.py: voiding a sale, taking goods back, and the credit notes of what came back.
-- Texts arrive stripped.
use inventory_management_sys.Base.{
  ℕ, String, Bool, true, false, not, ◌+◌, Option, none, some, List, [], ◌∷◌, map, if◌then◌else◌,
}
use inventory_management_sys.Base.Int.{ℤ, ◌+ℤ◌}
use inventory_management_sys.Base.Table.{find_row, set_row}
use inventory_management_sys.Base.Result.{
  not_found, business_rule, Tx, pure, raise_if, gets, modify, or_raise, ◌>>=◌, ◌>>◌,
}
use inventory_management_sys.Stock.Context.{Call}
use inventory_management_sys.Stock.Service.Inbound.{ReceiptLine, receive}
use inventory_management_sys.Finance.{invoice_payment, reverse_reference}
use inventory_management_sys.Finance.Documents.{is_empty, or_own}
use inventory_management_sys.Motorcycles.Units.Selling.{revert_sale_for_invoice}
use inventory_management_sys.Sales.{
  InvoiceStatus, inv_voided, is_voidable, invoice_status_after_payment,
}
use inventory_management_sys.Sales.Tables.{DeliveryNoteLine, DeliveryNote}
use inventory_management_sys.Sales.Invoices.{Invoice, credit_zmw}
use inventory_management_sys.Sales.Invoices.Settling.{
  ReturnLine, ret_received, Return, CreditNoteStatus, cn_draft, cn_approved, cn_applied,
  cn_cancelled, CreditNote, Trade, on_books, in_room, with_stock, require_invoice, save_invoice,
}

abbrev pub note_key : DeliveryNote → ℕ
note_key note = note.id

abbrev pub back_in : DeliveryNoteLine → ReceiptLine
back_in line = record { product_id = line.product_id; quantity = line.qty; unit_cost = none }

abbrev pub by_hand : ℕ → Call
by_hand user = record { user_id = user; occurred_at = none; historical = false }

abbrev pub restock_lines : ℕ → ℕ → ℕ → List DeliveryNoteLine → Tx Trade (Unit {0})
restock_lines user invoice_id location [] = pure tt
restock_lines user invoice_id location (line ∷ lines) = with_stock (
    receive (by_hand user) (record {
      warehouse_id = location;
      lines = map back_in (line ∷ lines);
      reference_type = some "sale_void";
      reference_id = some invoice_id;
    }))

abbrev pub restock_at : ℕ → ℕ → Option ℕ → List DeliveryNoteLine → Tx Trade (Unit {0})
restock_at user invoice_id none lines = pure tt
restock_at user invoice_id (some location) lines = restock_lines user invoice_id location lines

abbrev pub restock_note : ℕ → ℕ → Option DeliveryNote → Tx Trade (Unit {0})
restock_note user invoice_id none = pure tt
restock_note user invoice_id (some note) = restock_at user invoice_id note.location_id note.lines

-- The goods of the delivery of a voided sale go back to where they came from.
unfoldable pub restock : ℕ → ℕ → Option ℕ → Tx Trade (Unit {0})
restock user invoice_id none = pure tt
restock user invoice_id (some delivery_id) = do
  found ← gets (λ (trade : Trade). find_row note_key delivery_id trade.shop.deliveries)
  restock_note user invoice_id found

abbrev pub is_inv_voided : InvoiceStatus → Bool
is_inv_voided inv_voided = true
is_inv_voided _ = false

abbrev pub voided_as : ℕ → ℕ → String → Invoice → Invoice
voided_as user now reason i = record i {
  status = inv_voided;
  voided_at = some now;
  voided_by = some user;
  void_reason = some reason;
}

unfoldable pub void_invoice : ℕ → ℕ → String → Tx Trade (Unit {0})
void_invoice user invoice_id reason = do
  raise_if (is_empty reason) (business_rule "A reason is required to void a sale.")
  i ← require_invoice invoice_id
  raise_if (is_inv_voided i.status) (business_rule "This sale is already voided.")
  raise_if (not (is_voidable i.status)) (business_rule "This invoice cannot be voided.")
  restock user i.id i.delivery_note_id
  in_room (revert_sale_for_invoice user i.id)
  on_books (reverse_reference user invoice_payment i.id)
  now ← gets (λ (trade : Trade). trade.now)
  save_invoice (voided_as user now reason i)

pub record ReturnCreate : Type 0 where
  pub invoice_id : ℕ
  pub location_id : ℕ
  pub branch_id : Option ℕ
  pub lines : List ReturnLine

abbrev pub returned_line : ReturnLine → ReceiptLine
returned_line line = record { product_id = line.product_id; quantity = line.qty; unit_cost = none }

abbrev pub new_return : ℕ → ℕ → Option ℕ → ReturnCreate → Return
new_return id user own req = record {
  id = id;
  invoice_id = req.invoice_id;
  branch_id = or_own req.branch_id own;
  location_id = req.location_id;
  status = ret_received;
  created_by = user;
  lines = req.lines;
}

abbrev pub add_return : Return → Tx Trade (Unit {0})
add_return r =
    modify
      λ (trade : Trade). record trade { returns = r ∷ trade.returns; next_id = trade.next_id + 1 }

unfoldable pub create_return : ℕ → ReturnCreate → Tx Trade (Unit {0})
create_return user req = do
  i ← require_invoice req.invoice_id
  id ← gets (λ (trade : Trade). trade.next_id)
  add_return (new_return id user i.branch_id req)
  with_stock (
      receive (by_hand user) (record {
        warehouse_id = req.location_id;
        lines = map returned_line req.lines;
        reference_type = some "sales_return";
        reference_id = some id;
      }))

-- `new in _CN_ALLOWED.get(old, set())`
unfoldable pub cn_can_transition : CreditNoteStatus → CreditNoteStatus → Bool
cn_can_transition cn_draft cn_approved = true
cn_can_transition cn_draft cn_cancelled = true
cn_can_transition cn_approved cn_applied = true
cn_can_transition cn_approved cn_cancelled = true
cn_can_transition _ _ = false

abbrev pub cn_key : CreditNote → ℕ
cn_key cn = cn.id

abbrev pub save_credit_note : CreditNote → Tx Trade (Unit {0})
save_credit_note cn =
    modify λ (trade : Trade). record trade { credit_notes = set_row cn_key cn trade.credit_notes }

abbrev pub credited : ℤ → Invoice → Invoice
credited amount i =
    let i' = record i { credit_total = i.credit_total +ℤ amount } in
    record i' {
      status = invoice_status_after_payment i.grand_total_zmw (i.amount_paid +ℤ credit_zmw i');
    }

abbrev pub offset : Option ℕ → ℤ → Tx Trade (Unit {0})
offset none amount = pure tt
offset (some invoice_id) amount = do
  i ← require_invoice invoice_id
  save_invoice (credited amount i)

abbrev pub is_applied : CreditNoteStatus → Bool
is_applied cn_applied = true
is_applied _ = false

unfoldable pub credit_note_transition : ℕ → CreditNoteStatus → Tx Trade (Unit {0})
credit_note_transition cn_id new = do
  found ← gets (λ (trade : Trade). find_row cn_key cn_id trade.credit_notes)
  cn ← or_raise found (not_found "Credit note not found")
  raise_if (not (cn_can_transition cn.status new)) (business_rule "Cannot move credit note.")
  now ← gets (λ (trade : Trade). trade.now)
  save_credit_note
      (record cn { status = new; applied_at = if is_applied new then some now else cn.applied_at })
  if is_applied new then offset cn.invoice_id cn.grand_total else pure tt
