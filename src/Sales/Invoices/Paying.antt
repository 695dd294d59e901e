-- ===== src/Sales/Invoices/Paying.antt =====
-- What a payment on an invoice does, and when it goes through.
use inventory_management_sys.Base.{
  ℕ, ◌≡◌, refl, ◌∙◌, Bool, true, false, not, Option, none, some, arith, ap,
}
use inventory_management_sys.Base.Int.{ℤ, pos, ◌+ℤ◌, ◌-ℤ◌, ◌≤ℤ◌, ltb_ℤ, int_laws}
use inventory_management_sys.Base.Table.{find_row}
use inventory_management_sys.Base.Result.{
  AppError, Tx, Result, ok, err, or_raise, raise_if, Ensures, ◌>>=◌, ◌>>◌,
}
use inventory_management_sys.Stock.Soundness.Reads.{raise_if-Triple}
use inventory_management_sys.Finance.{Books}
use inventory_management_sys.Finance.Documents.{or_own}
use inventory_management_sys.Finance.Takings.{has_mappings, post_invoice_payments}
use inventory_management_sys.Finance.Keeping.{found_as}
use inventory_management_sys.Finance.Confirming.{returns}
use inventory_management_sys.Sales.{
  InvoiceStatus, is_payable, inv_paid, invoice_status_after_payment,
}
use inventory_management_sys.Sales.Invoices.{Invoice, invoice_key, credit_zmw, invoice_balance_zmw}
use inventory_management_sys.Sales.Invoices.Settling.{
  Trade, on_books, Lines, amounts_of, settled_by, settle, record_payment,
}
use inventory_management_sys.Sales.Invoices.Keeping.{InvoiceFine, credit_zmw_nonneg}
use inventory_management_sys.Sales.Invoices.Reconciled.{
  Booked, handed_on, settle-handed_on, settled_row, settle-Booked,
}

-- Steps that go through.
found :
    {S A B : Type 0} (o : Option A) (a : A) (e : AppError) (f : A → Tx S B) (s : S)
    → o ≡ some a
    → (or_raise o e >>= f) s ≡ f a s
found o a e f s q = rw q refl

passed :
    {S A : Type 0} (c : Bool) (e : AppError) (m : Tx S A) (s : S)
    → c ≡ false
    → (raise_if c e >> m) s ≡ m s
passed c e m s q = rw q refl

-- Arithmetic of a payment of what is due.
whole : (total paid q c : ℤ) → q ≡ total -ℤ paid -ℤ c → paid +ℤ q +ℤ c ≡ total
whole total paid q c e = grind (int_laws, e)

due_total :
    (total paid c : ℤ)
    → pos 0 ≤ℤ paid
    → pos 0 ≤ℤ c
    → ltb_ℤ (pos 0) (total -ℤ paid -ℤ c) ≡ true
    → ltb_ℤ (pos 0) total ≡ true
due_total total paid c hp hc due = grind (int_laws, hp, hc, due)

full :
    (total : ℤ) → ltb_ℤ (pos 0) total ≡ true → invoice_status_after_payment total total ≡ inv_paid
unfolding invoice_status_after_payment
full total h = ground arith

exactly : (balance total : ℤ) → total ≡ balance → ltb_ℤ (balance +ℤ pos 1) total ≡ false
exactly balance total e = grind (int_laws, e)

module _ (user : ℕ) (branch : Option ℕ) (i : Invoice) (lines : Lines) (t : Trade) where
  -- A payment that returns, at a branch where the ledger of accounts takes payments, adds its amounts
  -- once to what is paid of the invoice and once to what the ledger has taken for it.
  pub record_payment-Booked :
      (b : ℕ)
      → find_row invoice_key i.id t.room.invoices ≡ some i
      → or_own branch i.branch_id ≡ some b
      → has_mappings b t.books.mappings ≡ true
      → Ensures (λ _. Booked t i lines) (record_payment user branch i.id lines t)
  unfolding record_payment
  record_payment-Booked b there own mapped =
      found_as (λ _. Booked t i lines) (find_row invoice_key i.id t.room.invoices) i _ _ t there
        ((raise_if-Triple {P = λ s. s ≡ t} (not (is_payable i.status)) _ _ λ payable.
            raise_if-Triple (ltb_ℤ (invoice_balance_zmw i +ℤ pos 1) (amounts_of lines)) _ _ λ fits.
              record {
                at = λ s same. rw (same, own) (settle-Booked user lines t i b there mapped);
              }).at
          t refl)

  record_payment-settles :
      find_row invoice_key i.id t.room.invoices ≡ some i
      → is_payable i.status ≡ true
      → ltb_ℤ (invoice_balance_zmw i +ℤ pos 1) (amounts_of lines) ≡ false
      → record_payment user branch i.id lines t ≡ settle user (or_own branch i.branch_id) i lines t
  unfolding record_payment
  record_payment-settles there payable fits =
      found (find_row invoice_key i.id t.room.invoices) i _ _ t there
      ∙ passed (not (is_payable i.status)) _ _ t (ap not payable)
      ∙ passed (ltb_ℤ (invoice_balance_zmw i +ℤ pos 1) (amounts_of lines)) _ _ t fits

  paid_up :
      InvoiceFine i
      → ltb_ℤ (pos 0) (invoice_balance_zmw i) ≡ true
      → amounts_of lines ≡ invoice_balance_zmw i
      → (settled_by (amounts_of lines) i).status ≡ inv_paid
  paid_up f due exact =
      let all_settled =
        whole i.grand_total_zmw i.amount_paid (amounts_of lines) (credit_zmw i) exact in
      rw all_settled (
        full i.grand_total_zmw (
          due_total i.grand_total_zmw i.amount_paid (credit_zmw i) f.paid_nonneg
            (credit_zmw_nonneg i f) due))

-- The transaction returns, with the status of the invoice.
abbrev pub status_of : Option Invoice → Option InvoiceStatus
status_of none = none
status_of (some i) = some i.status

abbrev pub LeavesStatus : ℕ → InvoiceStatus → Result (Unit {0} × Trade) → Type 0
LeavesStatus id status (ok (_, after)) =
    status_of (find_row invoice_key id after.room.invoices) ≡ some status
LeavesStatus id status (err e) = ⊥

-- Paying exactly what is due of an invoice that can be paid returns, whenever the ledger of accounts
-- takes the payments, and leaves the invoice paid. Something is to be due, and neither what is paid
-- nor what is credited to be negative.
pub record_payment-pays :
    (user : ℕ) (branch : Option ℕ) (i : Invoice) (lines : Lines) (t : Trade)
    → InvoiceFine i
    → find_row invoice_key i.id t.room.invoices ≡ some i
    → is_payable i.status ≡ true
    → ltb_ℤ (pos 0) (invoice_balance_zmw i) ≡ true
    → amounts_of lines ≡ invoice_balance_zmw i
    → returns (post_invoice_payments user (or_own branch i.branch_id) i.id lines t.books) ≡ true
    → LeavesStatus i.id inv_paid (record_payment user branch i.id lines t)
record_payment-pays user branch i lines t f there payable due exact takes =
    rw (record_payment-settles user branch i lines t there payable fits) (
      rw (settle-handed_on user lines t i (or_own branch i.branch_id))
        (go (post_invoice_payments user (or_own branch i.branch_id) i.id lines t.books) takes))
  where
    fits : ltb_ℤ (invoice_balance_zmw i +ℤ pos 1) (amounts_of lines) ≡ false
    fits = exactly (invoice_balance_zmw i) (amounts_of lines) exact

    go :
        (r : Result (Unit {0} × Books))
        → returns r ≡ true
        → LeavesStatus i.id inv_paid
            (on_books (λ _. r) (handed_on user lines t i (or_own branch i.branch_id)))
    go (ok (u, books)) e =
        ap status_of (settled_row user lines t i there)
        ∙ ap some (paid_up user branch i lines t f due exact)
    go (err x) e = absurd (ground arith)
