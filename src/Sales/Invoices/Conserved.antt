-- ===== src/Sales/Invoices/Conserved.antt =====
-- What keeps the tables of Keeping: invoices that are saved and looked up, and payments.
pub mod Undoing
use inventory_management_sys.Base.{
  ℕ, String, ◌≡◌, refl, Bool, true, false, not, Option, none, some, List, [], ◌∷◌, All, arith,
  if◌then◌else◌, map, all,
}
use inventory_management_sys.Base.Int.{ℤ, pos, ◌+ℤ◌, ◌≤ℤ◌, ltb_ℤ}
use inventory_management_sys.Base.Table.{find_row, set_row, All-set_row, find_row-All}
use inventory_management_sys.Base.Result.{Tx, Ensures, Triple, Triple-bind, pure, ◌>>=◌}
use inventory_management_sys.Base.Steps.{gets-Triple, lookup-All}
use inventory_management_sys.Stock.Soundness.Reads.{raise_if-Triple}
use inventory_management_sys.Stock.Soundness.Inbound.{receive-IsSound}
use inventory_management_sys.Finance.{invoice_payment}
use inventory_management_sys.Finance.Documents.{is_empty, or_own}
use inventory_management_sys.Finance.Balanced.{netted, reverse_reference-Cleared}
use inventory_management_sys.Finance.Balanced.Taking.{post_invoice_payments-Netted}
use inventory_management_sys.Motorcycles.Units.Registry.Single.{revert_sale-Fine}
use inventory_management_sys.Sales.{is_payable, is_voidable}
use inventory_management_sys.Sales.Tables.{DeliveryNoteLine, DeliveryNote}
use inventory_management_sys.Sales.Invoices.{Invoice, invoice_key, invoice_balance_zmw}
use inventory_management_sys.Sales.Invoices.Settling.{
  ReturnLine, Return, CreditNote, CreditNoteStatus, Trade, require_invoice, save_invoice,
  add_invoice, add_receipt, Lines, amounts_of, all_positive, settled_by, settle, record_payment,
}
use inventory_management_sys.Sales.Invoices.Voiding.{
  note_key, back_in, by_hand, restock_at, restock_note, restock, is_inv_voided, voided_as,
  void_invoice, ReturnCreate, returned_line, new_return, add_return, create_return,
  cn_can_transition, cn_key, save_credit_note, credited, offset, is_applied, credit_note_transition,
}
use inventory_management_sys.Sales.Invoices.Calls.{is_positive_line}
use inventory_management_sys.Sales.Invoices.Keeping.{
  InvoiceFine, DeliveryFine, CreditFine, TradeFine, settled_by-Fine, credited-Fine, on_books-Fine,
  in_room-Fine, with_stock-Fine,
}

abbrev pub Keeps : {A : Type 0} → Tx Trade A → Type 0
Keeps m = Triple TradeFine m (λ _. TradeFine)

with_invoices-Fine :
    (s : Trade) (is : List Invoice)
    → TradeFine s
    → All InvoiceFine is
    → TradeFine (record s { room = record s.room { invoices = is } })
with_invoices-Fine s is f k = record {
  place = f.place;
  shelf = f.shelf;
  netted = f.netted;
  room_fine = (f.room_fine.0, k);
  delivered = f.delivered;
  credits = f.credits;
}

pub save_invoice-Fine : (i : Invoice) → InvoiceFine i → Keeps (save_invoice i)
save_invoice-Fine i fine = record {
  at = λ s f.
      with_invoices-Fine s (set_row invoice_key i s.room.invoices) f
        (All-set_row invoice_key InvoiceFine i s.room.invoices fine f.room_fine.1);
}

pub add_invoice-Fine : (i : Invoice) → InvoiceFine i → Keeps (add_invoice i)
add_invoice-Fine i fine = record {
  at = λ s f. with_invoices-Fine s (i ∷ s.room.invoices) f (fine, f.room_fine.1);
}

-- A change of the rows that nothing is asked of.
pub beside :
    (s after : Trade)
    → TradeFine s
    → after.shop ≡ s.shop
    → after.books ≡ s.books
    → after.room ≡ s.room
    → after.credit_notes ≡ s.credit_notes
    → TradeFine after
beside s after f es eb er ec = record {
  place = f.place;
  shelf = rw es f.shelf;
  netted = rw eb f.netted;
  room_fine = rw er f.room_fine;
  delivered = rw es f.delivered;
  credits = rw ec f.credits;
}

-- An invoice that is looked up is in order.
pub of_invoice :
    {A : Type 0} {m : Invoice → Tx Trade A} (invoice_id : ℕ)
    → ((i : Invoice) → InvoiceFine i → Keeps (m i))
    → Keeps (require_invoice invoice_id >>= m)
of_invoice {A} {m} invoice_id t =
    lookup-All invoice_key invoice_id (λ s. s.room.invoices) InvoiceFine _ m (λ s f. f.room_fine.1)
      t

add_receipt-Fine :
    (user : ℕ) (branch : Option ℕ) (i : Invoice) (lines : Lines)
    → Keeps (add_receipt user branch i lines)
add_receipt-Fine user branch i lines = record { at = λ s f. beside s _ f refl refl refl refl }

pub record_payment-Fine :
    (user : ℕ) (branch : Option ℕ) (invoice_id : ℕ) (lines : Lines)
    → all_positive lines ≡ true
    → Keeps (record_payment user branch invoice_id lines)
unfolding record_payment settle
record_payment-Fine user branch invoice_id lines positive = of_invoice invoice_id λ i f.
    raise_if-Triple (not (is_payable i.status)) _ _ λ a.
      raise_if-Triple (ltb_ℤ (invoice_balance_zmw i +ℤ pos 1) (amounts_of lines)) _ _ λ fits.
        Triple-bind
          (save_invoice-Fine (settled_by (amounts_of lines) i)
            (settled_by-Fine lines positive i f fits))
          λ u.
            Triple-bind
              (add_receipt-Fine user (or_own branch i.branch_id) (settled_by (amounts_of lines) i)
                lines)
              λ v.
                on_books-Fine
                  (post_invoice_payments-Netted user (or_own branch i.branch_id) i.id lines)
