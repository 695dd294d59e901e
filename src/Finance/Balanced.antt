-- ===== src/Finance/Balanced.antt =====
-- Every call on money keeps the ledger netted, and a document that is voided or reversed comes to
-- nothing in every account.
pub mod Recording
pub mod Taking
mod Confirmed
use inventory_management_sys.Base.{
  ℕ, String, ◌≡◌, ◌+◌, Bool, true, false, ◌||◌, ◌&&◌, not, ◌==◌, Option, none, some, List, [], ◌∷◌,
  arith, if◌then◌else◌,
}
use inventory_management_sys.Base.Int.{ℤ, pos, leb_ℤ, ltb_ℤ, eqb_ℤ}
use inventory_management_sys.Base.Result.{
  business_rule, raise_if, Tx, Result, ok, err, Ensures, Ensures-map, Ensures-any, Triple,
  Triple-bind, given, pure, or_raise, ◌>>=◌,
}
use inventory_management_sys.Stock.Soundness.Reads.{raise_if-Triple}
use inventory_management_sys.Finance.{
  RefType, expense, transfer, handover, Expense, AccountTransfer, CashHandover,
  FinancePaymentAccountMap, AccountMovement, Books, account_key, draw_id, Scope, outside,
  require_account, post_movement, reverse_reference,
}
use inventory_management_sys.Finance.Documents.{
  ExpenseCreate, expense_key, transfer_key, category_key, is_empty, or_own, differs, check_category,
  create_expense, is_voided, void_expense, TransferCreate, new_expense, paid_out, add_expense,
  new_transfer, sent, arrived, add_transfer, create_transfer, is_reversed_doc, reverse_transfer,
}
use inventory_management_sys.Finance.Handing.{
  HandoverCreate, handover_key, new_handover, handed, received, add_handover, save_handover,
  confirmed_as, create_handover, require_handover, is_awaiting, post_received, confirm_handover,
  is_set, reverse_handover,
}
use inventory_management_sys.Finance.Takings.{
  has_mappings, mapping_for, taken, post_payment, post_payments, post_invoice_payments,
}
use inventory_management_sys.Finance.Calls.{
  MoneyCall, spending, voiding, transferring, reversing_transfer, handing_over, confirming,
  reversing_handover, taking, account_for, books_after, account_all,
}
use inventory_management_sys.Finance.Netting.{net, Below}
use inventory_management_sys.Finance.Reversal.{IsNetted}
use inventory_management_sys.Finance.Keeping.{
  post_movement-Netted, Standing-nothing, reverse_reference-Standing,
}
use inventory_management_sys.Base.Steps.{or_raise-Triple, lookup-Triple}
use inventory_management_sys.Finance.Balanced.Recording.{
  require_account-keeps, save_handover-Netted, create_expense-Netted, create_transfer-Netted,
  create_handover-Netted,
}
use inventory_management_sys.Finance.Balanced.Taking.{post_invoice_payments-Netted}
use inventory_management_sys.Finance.Balanced.Confirmed.{
  require_handover-keeps, confirm_handover-Netted,
}

-- The ledger is netted, and the document comes to nothing in every account.
abbrev pub Cleared : RefType → ℕ → Books → Type 0
Cleared kind id books =
    IsNetted books × ((account : ℕ) → net kind id account books.movements ≡ pos 0)

module _ (user : ℕ) (kind : RefType) (id : ℕ) where
  pub reverse_reference-Cleared :
      (id' : ℕ)
      → id' ≡ id
      → Triple IsNetted (reverse_reference user kind id') (λ _. Cleared kind id)
  reverse_reference-Cleared id' e = rw e record {
    at = λ books k.
        Ensures-map (reverse_reference user kind id books)
          (λ _ after s. (s.0, λ account. Standing-nothing kind id account after s))
          ((reverse_reference-Standing user kind id).at books k);
  }

pub netted :
    {m : Tx Books (Unit {0})} (kind : RefType) (id : ℕ)
    → Triple IsNetted m (λ _. Cleared kind id)
    → Triple IsNetted m (λ _. IsNetted)
netted {m} kind id t = record {
  at = λ books k. Ensures-map (m books) (λ _ after c. c.0) (t.at books k);
}

-- What a call that takes a document back leaves of it.
unfoldable pub Undone : MoneyCall → Books → Type 0
Undone (voiding user id reason scope) books =
    (account : ℕ) → net expense id account books.movements ≡ pos 0
Undone (reversing_transfer user id reason scope) books =
    (account : ℕ) → net transfer id account books.movements ≡ pos 0
Undone (reversing_handover user id reason scope) books =
    (account : ℕ) → net handover id account books.movements ≡ pos 0
Undone _ books = Unit

module _ (user id : ℕ) (reason : String) (scope : Scope) where
  pub void_expense-Cleared :
      Triple IsNetted (void_expense user id reason scope) (λ _. Cleared expense id)
  unfolding void_expense
  void_expense-Cleared = raise_if-Triple (is_empty reason) _ _ λ h.
      lookup-Triple expense_key id (λ books. books.expenses) _ _
        λ e own. raise_if-Triple (outside scope (some e.branch_id)) _ _ λ u.
          raise_if-Triple (is_voided e.status) _ _ λ v.
            Triple-bind (reverse_reference-Cleared user expense id e.id own)
              λ w. record { at = λ books k. k }

  pub reverse_transfer-Cleared :
      Triple IsNetted (reverse_transfer user id reason scope) (λ _. Cleared transfer id)
  unfolding reverse_transfer
  reverse_transfer-Cleared = raise_if-Triple (is_empty reason) _ _ λ h.
      lookup-Triple transfer_key id (λ books. books.transfers) _ _
        λ t own. Triple-bind (require_account-keeps t.from_account_id scope) λ src.
          Triple-bind (require_account-keeps t.to_account_id scope) λ dst.
            raise_if-Triple (is_reversed_doc t.status) _ _ λ v.
              Triple-bind (reverse_reference-Cleared user transfer id t.id own)
                λ w. record { at = λ books k. k }

  pub reverse_handover-Cleared :
      Triple IsNetted (reverse_handover user id reason scope) (λ _. Cleared handover id)
  unfolding reverse_handover
  reverse_handover-Cleared = raise_if-Triple (is_empty reason) _ _ λ e.
      Triple-bind (require_handover-keeps id scope) λ h. given λ own.
        raise_if-Triple (is_set h.reversed_at) _ _ λ u.
          Triple-bind (reverse_reference-Cleared user handover id h.id own)
            λ w. record { at = λ books k. k }

  void_expense-Netted : Triple IsNetted (void_expense user id reason scope) (λ _. IsNetted)
  void_expense-Netted = netted expense id void_expense-Cleared

  reverse_transfer-Netted : Triple IsNetted (reverse_transfer user id reason scope) (λ _. IsNetted)
  reverse_transfer-Netted = netted transfer id reverse_transfer-Cleared

  reverse_handover-Netted : Triple IsNetted (reverse_handover user id reason scope) (λ _. IsNetted)
  reverse_handover-Netted = netted handover id reverse_handover-Cleared

pub account_for-Netted : (call : MoneyCall) → Triple IsNetted (account_for call) (λ _. IsNetted)
unfolding account_for
account_for-Netted (spending user req scope) = create_expense-Netted user req scope
account_for-Netted (voiding user id reason scope) = void_expense-Netted user id reason scope
account_for-Netted (transferring user req scope) = create_transfer-Netted user req scope
account_for-Netted (reversing_transfer user id reason scope) =
    reverse_transfer-Netted user id reason scope
account_for-Netted (handing_over user req scope) = create_handover-Netted user req scope
account_for-Netted (confirming user id amount reason scope) =
    confirm_handover-Netted user id amount reason scope
account_for-Netted (reversing_handover user id reason scope) =
    reverse_handover-Netted user id reason scope
account_for-Netted (taking user branch invoice_id lines) =
    post_invoice_payments-Netted user branch invoice_id lines

-- From a ledger whose ids fall and where each document comes, in each account, to what of it
-- stands, every sequence of calls on money, returning or raising, leads to such a ledger.
pub account_all-Netted :
    (calls : List MoneyCall) (books : Books) → IsNetted books → IsNetted (account_all calls books)
unfolding account_all
account_all-Netted [] books k = k
account_all-Netted (call ∷ calls) books k =
    account_all-Netted calls (books_after books (account_for call books))
      (after (account_for call books) ((account_for-Netted call).at books k))
  where
    after :
        (r : Result (Unit {0} × Books)) → Ensures (λ _. IsNetted) r → IsNetted (books_after books r)
    after (ok (u, books')) t = t
    after (err e) t = k

-- Voiding an expense, reversing a transfer or reversing a handover, where it returns, leaves the
-- movements of that document summing to nothing in every account. The ledger is to be netted
-- before.
pub account_for-Undone :
    (call : MoneyCall) (books : Books)
    → IsNetted books
    → Ensures (λ _. Undone call) (account_for call books)
unfolding account_for Undone
account_for-Undone (voiding user id reason scope) books k =
    Ensures-map (void_expense user id reason scope books) (λ _ after c. c.1)
      ((void_expense-Cleared user id reason scope).at books k)
account_for-Undone (reversing_transfer user id reason scope) books k =
    Ensures-map (reverse_transfer user id reason scope books) (λ _ after c. c.1)
      ((reverse_transfer-Cleared user id reason scope).at books k)
account_for-Undone (reversing_handover user id reason scope) books k =
    Ensures-map (reverse_handover user id reason scope books) (λ _ after c. c.1)
      ((reverse_handover-Cleared user id reason scope).at books k)
account_for-Undone (spending user req scope) books k =
    Ensures-any (create_expense user req scope books)
account_for-Undone (transferring user req scope) books k =
    Ensures-any (create_transfer user req scope books)
account_for-Undone (handing_over user req scope) books k =
    Ensures-any (create_handover user req scope books)
account_for-Undone (confirming user id amount reason scope) books k =
    Ensures-any (confirm_handover user id amount reason scope books)
account_for-Undone (taking user branch invoice_id lines) books k =
    Ensures-any (post_invoice_payments user branch invoice_id lines books)
