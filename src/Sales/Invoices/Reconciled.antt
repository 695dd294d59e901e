-- ===== src/Sales/Invoices/Reconciled.antt =====
-- Payments, as the sales service and the ledger of accounts see them.
use inventory_management_sys.Base.{
  ℕ, String, ◌≡◌, refl, ◌∙◌, Bool, true, false, ◌==◌, Option, some, List, [], ◌∷◌, arith,
  if◌then◌else◌,
}
use inventory_management_sys.Base.Int.{ℤ, pos, ◌+ℤ◌, int_laws}
use inventory_management_sys.Base.Table.{find_row, set_row, find-set_row}
use inventory_management_sys.Base.Result.{
  business_rule, Result, ok, err, pure, Ensures, Ensures-map, Triple, Triple-bind,
}
use inventory_management_sys.Base.Steps.{gets-Triple, or_raise-Triple}
use inventory_management_sys.Finance.{
  invoice_payment, AccountMovement, Books, FinancePaymentAccountMap, posted_as, is_for,
}
use inventory_management_sys.Finance.Takings.{
  has_mappings, mapping_for, taken, post_payment, post_payments, post_invoice_payments,
}
use inventory_management_sys.Finance.Netting.{signed_amount}
use inventory_management_sys.Finance.Keeping.{guarded_post}
use inventory_management_sys.Sales.Invoices.{Invoice, invoice_key, invoice_balance_zmw}
use inventory_management_sys.Sales.Invoices.Settling.{
  Trade, on_books, Lines, amounts_of, payments_of, prepend, settled_by, settle,
}

-- What the ledger has taken for an invoice, in all accounts together.
unfoldable pub paid_in : ℕ → List AccountMovement → ℤ
paid_in id [] = pos 0
paid_in id (m ∷ ms) =
    paid_in id ms +ℤ (if is_for invoice_payment id m then signed_amount m else pos 0)

module _ (user branch id : ℕ) where
  post_payment-in :
      (method : String) (amount b : ℤ)
      → Triple
          (λ books. paid_in id books.movements ≡ b)
          (post_payment user branch id method amount)
          (λ _ books. paid_in id books.movements ≡ b +ℤ amount)
  unfolding post_payment paid_in
  post_payment-in method amount b =
      gets-Triple (λ (books : Books). mapping_for branch method books.mappings) _
        λ found.
          or_raise-Triple found
            (business_rule "No finance account is mapped for payments at this branch.") _
            λ (mapping : FinancePaymentAccountMap).
              guarded_post user (taken id mapping.account_id amount)
                record { at = λ books e. more books mapping.account_id e }
    where
      more :
          (books : Books) (account : ℕ)
          → paid_in id books.movements ≡ b
          → paid_in id (posted_as books.next_id user (taken id account amount) ∷ books.movements)
            ≡ b +ℤ amount
      more books account e = let same : (id == id) ≡ true = ground arith in rw (same, e) refl

  post_payments-in :
      (lines : Lines) (b : ℤ)
      → Triple
          (λ books. paid_in id books.movements ≡ b)
          (post_payments user branch id lines)
          (λ _ books. paid_in id books.movements ≡ b +ℤ amounts_of lines)
  unfolding post_payments amounts_of
  post_payments-in [] b = record { at = λ books e. grind (int_laws, e) }
  post_payments-in ((method, amount) ∷ lines) b = Triple-bind (post_payment-in method amount b) λ u.
      record {
        at = λ books e.
            Ensures-map (post_payments user branch id lines books)
              (λ _ after k. k ∙ joined b amount (amounts_of lines))
              ((post_payments-in lines (b +ℤ amount)).at books e);
      }
    where
      joined : (a c d : ℤ) → a +ℤ c +ℤ d ≡ a +ℤ (c +ℤ d)
      joined a c d = omega int_laws

  post_invoice_payments-in :
      (lines : Lines) (books : Books)
      → has_mappings branch books.mappings ≡ true
      → Ensures
          (λ _ after. paid_in id after.movements ≡ paid_in id books.movements +ℤ amounts_of lines)
          (post_invoice_payments user (some branch) id lines books)
  unfolding post_invoice_payments
  post_invoice_payments-in lines books mapped =
      go (has_mappings branch books.mappings) mapped
        ((post_payments-in lines (paid_in id books.movements)).at books refl)
    where
      go :
          (c : Bool)
          → c ≡ true
          → Ensures
              (λ _ after.
                paid_in id after.movements ≡ paid_in id books.movements +ℤ amounts_of lines)
              (post_payments user branch id lines books)
          → Ensures
              (λ _ after.
                paid_in id after.movements ≡ paid_in id books.movements +ℤ amounts_of lines)
              ((if c then post_payments user branch id lines else pure tt) books)
      go true e k = k
      go false e k = absurd (ground arith)

-- What a payment leaves: the amounts added up on the invoice and in the ledger.
abbrev pub Booked : Trade → Invoice → Lines → Trade → Type 0
Booked t i lines after =
    (paid_in i.id after.books.movements ≡ paid_in i.id t.books.movements +ℤ amounts_of lines)
    × (find_row invoice_key i.id after.room.invoices ≡ some (settled_by (amounts_of lines) i))

-- The state that the ledger is handed, and how what it returns is kept.
module _ (user : ℕ) (lines : Lines) (t : Trade) (i : Invoice) where
  abbrev pub handed_on : Option ℕ → Trade
  handed_on branch =
      let i' = settled_by (amounts_of lines) i in
      record t {
        room = record t.room { invoices = set_row invoice_key i' t.room.invoices };
        receipts =
            record {
              invoice_id = i.id;
              branch_id = branch;
              cashier_id = user;
              amount_paid = amounts_of lines;
              balance = invoice_balance_zmw i';
            }
            ∷ t.receipts;
        payments = prepend (payments_of user branch i.id lines) t.payments;
      }

  pub settle-handed_on :
      (branch : Option ℕ)
      → settle user branch i lines t
        ≡ on_books (post_invoice_payments user branch i.id lines) (handed_on branch)
  unfolding settle
  settle-handed_on branch = refl

  pub settled_row :
      find_row invoice_key i.id t.room.invoices ≡ some i
      → find_row invoice_key i.id
          (set_row invoice_key (settled_by (amounts_of lines) i) t.room.invoices)
        ≡ some (settled_by (amounts_of lines) i)
  settled_row there =
      find-set_row invoice_key i.id (settled_by (amounts_of lines) i) i t.room.invoices there
      ∙ (let same : (i.id == i.id) ≡ true = ground arith in rw same refl)

  pub settle-Booked :
      (branch : ℕ)
      → find_row invoice_key i.id t.room.invoices ≡ some i
      → has_mappings branch t.books.mappings ≡ true
      → Ensures (λ _. Booked t i lines) (settle user (some branch) i lines t)
  settle-Booked branch there mapped = rw (settle-handed_on (some branch)) (
      go (post_invoice_payments user (some branch) i.id lines t.books)
        (post_invoice_payments-in user branch i.id lines t.books mapped))
    where
      go :
          (r : Result (Unit {0} × Books))
          → Ensures
              (λ _ after.
                paid_in i.id after.movements ≡ paid_in i.id t.books.movements +ℤ amounts_of lines)
              r
          → Ensures (λ _. Booked t i lines) (on_books (λ _. r) (handed_on (some branch)))
      go (ok (u, books)) k = (k, settled_row there)
      go (err e) k = tt
