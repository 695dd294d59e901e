-- ===== src/Finance/Calls.antt =====
-- The calls that move money, each in its own transaction.
use inventory_management_sys.Base.{ℕ, String, Option, List, [], ◌∷◌}
use inventory_management_sys.Base.Int.{ℤ}
use inventory_management_sys.Base.Result.{Tx, Result, ok, err}
use inventory_management_sys.Finance.{Books, Scope}
use inventory_management_sys.Finance.Documents.{
  ExpenseCreate, create_expense, void_expense, TransferCreate, create_transfer, reverse_transfer,
}
use inventory_management_sys.Finance.Handing.{
  HandoverCreate, create_handover, confirm_handover, reverse_handover,
}
use inventory_management_sys.Finance.Takings.{post_invoice_payments}

pub data MoneyCall : Type 0 where
  spending : ℕ → ExpenseCreate → Scope → MoneyCall
  voiding : ℕ → ℕ → String → Scope → MoneyCall
  transferring : ℕ → TransferCreate → Scope → MoneyCall
  reversing_transfer : ℕ → ℕ → String → Scope → MoneyCall
  handing_over : ℕ → HandoverCreate → Scope → MoneyCall
  confirming : ℕ → ℕ → ℤ → String → Scope → MoneyCall
  reversing_handover : ℕ → ℕ → String → Scope → MoneyCall
  taking : ℕ → Option ℕ → ℕ → List (String × ℤ) → MoneyCall

unfoldable pub account_for : MoneyCall → Tx Books (Unit {0})
account_for (spending user req scope) = create_expense user req scope
account_for (voiding user id reason scope) = void_expense user id reason scope
account_for (transferring user req scope) = create_transfer user req scope
account_for (reversing_transfer user id reason scope) = reverse_transfer user id reason scope
account_for (handing_over user req scope) = create_handover user req scope
account_for (confirming user id amount reason scope) = confirm_handover user id amount reason scope
account_for (reversing_handover user id reason scope) = reverse_handover user id reason scope
account_for (taking user branch invoice_id lines) =
    post_invoice_payments user branch invoice_id lines

abbrev pub books_after : Books → Result (Unit {0} × Books) → Books
books_after books (ok (_, after)) = after
books_after books (err _) = books

unfoldable pub account_all : List MoneyCall → Books → Books
account_all [] books = books
account_all (call ∷ calls) books = account_all calls (books_after books (account_for call books))
