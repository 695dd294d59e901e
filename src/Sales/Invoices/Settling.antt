-- ===== src/Sales/Invoices/Settling.antt =====
-- sales/service.py: payments on an invoice. The tables of the sales service are those of the stock
-- and the orders, of the ledger of accounts and of the motorcycles, with its own.
use inventory_management_sys.Base.{ℕ, String, Bool, true, ◌&&◌, not, Option, List, [], ◌∷◌}
use inventory_management_sys.Base.Int.{ℤ, pos, ◌+ℤ◌, ltb_ℤ}
use inventory_management_sys.Base.Table.{find_row, set_row}
use inventory_management_sys.Base.Result.{
  not_found, business_rule, Tx, ok, err, raise_if, gets, modify, or_raise, ◌>>=◌, ◌>>◌,
}
use inventory_management_sys.Stock.Tables.{Db}
use inventory_management_sys.Finance.{Books}
use inventory_management_sys.Finance.Documents.{or_own}
use inventory_management_sys.Finance.Takings.{post_invoice_payments}
use inventory_management_sys.Motorcycles.Units.{Showroom}
use inventory_management_sys.Sales.{is_payable, invoice_status_after_payment}
use inventory_management_sys.Sales.Tables.{Shop, on_shelf}
use inventory_management_sys.Sales.Invoices.{Invoice, invoice_key, credit_zmw, invoice_balance_zmw}

pub record Receipt : Type 0 where
  pub invoice_id : ℕ
  pub branch_id : Option ℕ
  pub cashier_id : ℕ
  pub amount_paid : ℤ
  pub balance : ℤ

-- A payment with its one allocation.
pub record Payment : Type 0 where
  pub invoice_id : ℕ
  pub branch_id : Option ℕ
  pub method : String
  pub amount : ℤ
  pub received_by : ℕ

pub record ReturnLine : Type 0 where
  pub product_id : ℕ
  pub qty : ℤ

pub data ReturnStatus : Type 0 where
  ret_draft ret_received ret_credited ret_cancelled : ReturnStatus

pub record Return : Type 0 where
  pub id : ℕ
  pub invoice_id : ℕ
  pub branch_id : Option ℕ
  pub location_id : ℕ
  pub status : ReturnStatus
  pub created_by : ℕ
  pub lines : List ReturnLine

pub data CreditNoteStatus : Type 0 where
  cn_draft cn_approved cn_applied cn_cancelled : CreditNoteStatus

pub record CreditNote : Type 0 where
  pub id : ℕ
  pub invoice_id : Option ℕ
  pub return_id : Option ℕ
  pub status : CreditNoteStatus
  pub grand_total : ℤ
  pub applied_at : Option ℕ

pub record Trade : Type 0 where
  pub shop : Shop
  pub books : Books
  pub room : Showroom
  pub receipts : List Receipt
  pub payments : List Payment
  pub returns : List Return
  pub credit_notes : List CreditNote
  pub next_id : ℕ
  pub now : ℕ

module _ {A : Type 0} where
  abbrev pub on_books : Tx Books A → Tx Trade A
  on_books m trade = elim (m trade.books) [
    | ok (a, after) ↦ ok (a, record trade { books = after })
    | err e ↦ err e
  ]

  abbrev pub in_room : Tx Showroom A → Tx Trade A
  in_room m trade = elim (m trade.room) [
    | ok (a, after) ↦ ok (a, record trade { room = after })
    | err e ↦ err e
  ]

  abbrev pub in_shop : Tx Shop A → Tx Trade A
  in_shop m trade = elim (m trade.shop) [
    | ok (a, after) ↦ ok (a, record trade { shop = after })
    | err e ↦ err e
  ]

  abbrev pub with_stock : Tx Db A → Tx Trade A
  with_stock m = in_shop (on_shelf m)

abbrev pub require_invoice : ℕ → Tx Trade Invoice
require_invoice invoice_id = do
  found ← gets (λ (trade : Trade). find_row invoice_key invoice_id trade.room.invoices)
  or_raise found (not_found "Invoice not found")

abbrev pub with_invoices : (List Invoice → List Invoice) → Trade → Trade
with_invoices f trade = record trade {
  room = record trade.room { invoices = f trade.room.invoices };
}

abbrev pub save_invoice : Invoice → Tx Trade (Unit {0})
save_invoice i = modify (with_invoices (set_row invoice_key i))

abbrev pub add_invoice : Invoice → Tx Trade (Unit {0})
add_invoice i = modify (with_invoices (λ is. i ∷ is))

abbrev pub Lines : Type 0
Lines = List (String × ℤ)

unfoldable pub amounts_of : Lines → ℤ
amounts_of [] = pos 0
amounts_of ((method, amount) ∷ lines) = amount +ℤ amounts_of lines

-- Each amount of a `PaymentLineIn` is positive.
unfoldable pub all_positive : Lines → Bool
all_positive [] = true
all_positive ((method, amount) ∷ lines) = ltb_ℤ (pos 0) amount && all_positive lines

abbrev pub settled_by : ℤ → Invoice → Invoice
settled_by total i =
    let paid = i.amount_paid +ℤ total in
    record i {
      amount_paid = paid;
      status = invoice_status_after_payment i.grand_total_zmw (paid +ℤ credit_zmw i);
    }

abbrev pub payments_of : ℕ → Option ℕ → ℕ → Lines → List Payment
payments_of user branch invoice_id [] = []
payments_of user branch invoice_id ((method, amount) ∷ lines) =
    record {
      invoice_id = invoice_id;
      branch_id = branch;
      method = method;
      amount = amount;
      received_by = user;
    }
    ∷ payments_of user branch invoice_id lines

abbrev pub prepend : List Payment → List Payment → List Payment
prepend [] old = old
prepend (p ∷ ps) old = p ∷ prepend ps old

abbrev pub add_receipt : ℕ → Option ℕ → Invoice → Lines → Tx Trade (Unit {0})
add_receipt user branch i lines = modify λ (trade : Trade). record trade {
  receipts =
      record {
        invoice_id = i.id;
        branch_id = branch;
        cashier_id = user;
        amount_paid = amounts_of lines;
        balance = invoice_balance_zmw i;
      }
      ∷ trade.receipts;
  payments = prepend (payments_of user branch i.id lines) trade.payments;
}

-- `_settle`
unfoldable pub settle : ℕ → Option ℕ → Invoice → Lines → Tx Trade (Unit {0})
settle user branch i lines = do
  let i' = settled_by (amounts_of lines) i
  save_invoice i'
  add_receipt user branch i' lines
  on_books (post_invoice_payments user branch i.id lines)

unfoldable pub record_payment : ℕ → Option ℕ → ℕ → Lines → Tx Trade (Unit {0})
record_payment user branch invoice_id lines = do
  i ← require_invoice invoice_id
  raise_if (not (is_payable i.status)) (business_rule "Invoice cannot take a payment.")
  raise_if (ltb_ℤ (invoice_balance_zmw i +ℤ pos 1) (amounts_of lines))
      (business_rule "Payment exceeds the outstanding balance.")
  settle user (or_own branch i.branch_id) i lines
