-- ===== src/Finance/Documents.antt =====
-- finance/service.py: expenses and transfers between accounts. Texts arrive stripped, so that a
-- blank one is empty.
use text.Mathlib.Text.{◌==◌ as str_eq}
use inventory_management_sys.Base.{
  ℕ, String, Bool, true, false, ◌||◌, not, ◌==◌, Option, none, some, ◌∷◌,
}
use inventory_management_sys.Base.Int.{ℤ, pos, leb_ℤ}
use inventory_management_sys.Base.Table.{find_row, set_row}
use inventory_management_sys.Base.Result.{
  not_found, business_rule, permission_denied, Tx, pure, raise_if, gets, modify, or_raise, ◌>>=◌,
  ◌>>◌,
}
use inventory_management_sys.Finance.{
  money_in, money_out, expense, transfer, DocStatus, recorded, voided, completed, reversed, Expense,
  AccountTransfer, ExpenseCategory, Books, draw_id, Scope, outside, require_account, Posting,
  post_movement, reverse_reference,
}

abbrev pub expense_key : Expense → ℕ
expense_key e = e.id

abbrev pub transfer_key : AccountTransfer → ℕ
transfer_key t = t.id

abbrev pub category_key : ExpenseCategory → ℕ
category_key c = c.id

abbrev pub is_empty : String → Bool
is_empty text = str_eq text ""

abbrev pub or_own : Option ℕ → Option ℕ → Option ℕ
or_own (some b) own = some b
or_own none own = own

abbrev pub differs : Option ℕ → ℕ → Bool
differs none b = false
differs (some own) b = not (own == b)

pub record ExpenseCreate : Type 0 where
  pub account_id : ℕ
  pub branch_id : Option ℕ
  pub amount : ℤ
  pub category_id : Option ℕ

abbrev pub check_category : Option ℕ → Tx Books (Unit {0})
check_category none = pure tt
check_category (some id) = do
  found ← gets (λ (books : Books). find_row category_key id books.categories)
  category ← or_raise found (not_found "Category not found")
  raise_if (not category.is_active) (business_rule "That expense category is inactive.")

abbrev pub add_expense : Expense → Tx Books (Unit {0})
add_expense e = modify λ (books : Books). record books { expenses = e ∷ books.expenses }

abbrev pub new_expense : ℕ → ℕ → ExpenseCreate → Expense
new_expense id branch req = record {
  id = id;
  branch_id = branch;
  account_id = req.account_id;
  amount = req.amount;
  status = recorded;
  void_reason = none;
  voided_by = none;
}

abbrev pub paid_out : ℕ → ExpenseCreate → Posting
paid_out id req = record {
  account_id = req.account_id;
  direction = money_out;
  amount = req.amount;
  reference_type = expense;
  reference_id = id;
  reversal_of = none;
}

unfoldable pub create_expense : ℕ → ExpenseCreate → Scope → Tx Books (Unit {0})
create_expense user req scope = do
  raise_if (leb_ℤ req.amount (pos 0)) (business_rule "Expense amount must be positive.")
  account ← require_account req.account_id scope
  raise_if (not account.is_active) (business_rule "Account is inactive.")
  branch ←
      or_raise (or_own req.branch_id account.branch_id)
        (business_rule "A branch is required to record an expense.")
  raise_if (outside scope (some branch)) (permission_denied "You are not assigned to that branch.")
  raise_if (differs account.branch_id branch)
      (business_rule "The chosen account belongs to a different branch.")
  check_category req.category_id
  id ← draw_id
  add_expense (new_expense id branch req)
  post_movement user (paid_out id req)

abbrev pub is_voided : DocStatus → Bool
is_voided voided = true
is_voided _ = false

abbrev pub save_expense : Expense → Tx Books (Unit {0})
save_expense e =
    modify λ (books : Books). record books { expenses = set_row expense_key e books.expenses }

unfoldable pub void_expense : ℕ → ℕ → String → Scope → Tx Books (Unit {0})
void_expense user expense_id reason scope = do
  raise_if (is_empty reason) (business_rule "A reason is required to void an expense.")
  found ← gets (λ (books : Books). find_row expense_key expense_id books.expenses)
  e ← or_raise found (not_found "Expense not found")
  raise_if (outside scope (some e.branch_id))
      (permission_denied "You are not assigned to that expense's branch.")
  raise_if (is_voided e.status) (business_rule "This expense is already voided.")
  reverse_reference user expense e.id
  save_expense (record e { status = voided; void_reason = some reason; voided_by = some user })

pub record TransferCreate : Type 0 where
  pub from_account_id : ℕ
  pub to_account_id : ℕ
  pub amount : ℤ

abbrev pub add_transfer : AccountTransfer → Tx Books (Unit {0})
add_transfer t = modify λ (books : Books). record books { transfers = t ∷ books.transfers }

abbrev pub new_transfer : ℕ → TransferCreate → AccountTransfer
new_transfer id req = record {
  id = id;
  from_account_id = req.from_account_id;
  to_account_id = req.to_account_id;
  amount = req.amount;
  status = completed;
  reversed_by = none;
  reverse_reason = none;
}

-- The two legs of a transfer.
abbrev pub sent : ℕ → TransferCreate → Posting
sent id req = record {
  account_id = req.from_account_id;
  direction = money_out;
  amount = req.amount;
  reference_type = transfer;
  reference_id = id;
  reversal_of = none;
}

abbrev pub arrived : ℕ → TransferCreate → Posting
arrived id req = record {
  account_id = req.to_account_id;
  direction = money_in;
  amount = req.amount;
  reference_type = transfer;
  reference_id = id;
  reversal_of = none;
}

unfoldable pub create_transfer : ℕ → TransferCreate → Scope → Tx Books (Unit {0})
create_transfer user req scope = do
  raise_if (req.from_account_id == req.to_account_id)
      (business_rule "Source and destination accounts must differ.")
  raise_if (leb_ℤ req.amount (pos 0)) (business_rule "Transfer amount must be positive.")
  src ← require_account req.from_account_id scope
  dst ← require_account req.to_account_id scope
  raise_if (not src.is_active || not dst.is_active)
      (business_rule "Both accounts must be active to transfer.")
  id ← draw_id
  add_transfer (new_transfer id req)
  post_movement user (sent id req)
  post_movement user (arrived id req)

abbrev pub is_reversed_doc : DocStatus → Bool
is_reversed_doc reversed = true
is_reversed_doc _ = false

abbrev pub save_transfer : AccountTransfer → Tx Books (Unit {0})
save_transfer t =
    modify λ (books : Books). record books { transfers = set_row transfer_key t books.transfers }

unfoldable pub reverse_transfer : ℕ → ℕ → String → Scope → Tx Books (Unit {0})
reverse_transfer user transfer_id reason scope = do
  raise_if (is_empty reason) (business_rule "A reason is required to reverse a transfer.")
  found ← gets (λ (books : Books). find_row transfer_key transfer_id books.transfers)
  t ← or_raise found (not_found "Transfer not found")
  require_account t.from_account_id scope
  require_account t.to_account_id scope
  raise_if (is_reversed_doc t.status) (business_rule "This transfer is already reversed.")
  reverse_reference user transfer t.id
  save_transfer
      (record t { status = reversed; reversed_by = some user; reverse_reason = some reason })
