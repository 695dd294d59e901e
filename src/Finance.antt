-- ===== src/Finance.antt =====
-- finance/service.py: the append-only ledger of account movements, and what posts and reverses
-- movements. Amounts are ten-thousandths. A database id is drawn from a counter, which is as fresh as
-- a random one; labels, dates of business and descriptions are left out.
pub mod Documents
pub mod Handing
pub mod Takings
pub mod Calls
pub mod Netting
pub mod Reversal
pub mod Keeping
pub mod Balanced
pub mod Confirming
pub mod Balances
pub mod Restored
pub mod Refunded
mod Examples
use inventory_management_sys.Base.{
  ℕ, String, Bool, true, false, ◌&&◌, ◌||◌, not, ◌==◌, ◌+◌, Option, none, some, List, [], ◌∷◌,
  if◌then◌else◌,
}
use inventory_management_sys.Base.Int.{ℤ, pos, ◌+ℤ◌, ◌-ℤ◌, leb_ℤ}
use inventory_management_sys.Base.Table.{find_row}
use inventory_management_sys.Base.Result.{
  not_found, business_rule, permission_denied, Tx, pure, raise_if, gets, modify, or_raise, ◌>>=◌,
  ◌>>◌,
}

pub data Direction : Type 0 where
  money_in money_out : Direction

-- `reference_type`, as the producers of movements give it.
pub data RefType : Type 0 where
  invoice_payment expense transfer handover : RefType

pub record FinancialAccount : Type 0 where
  pub id : ℕ
  pub branch_id : Option ℕ
  pub opening_balance : ℤ
  pub is_active : Bool

pub record AccountMovement : Type 0 where
  pub id : ℕ
  pub account_id : ℕ
  pub direction : Direction
  pub amount : ℤ
  pub reference_type : RefType
  pub reference_id : ℕ
  pub created_by : ℕ
  pub reversal_of : Option ℕ

pub data DocStatus : Type 0 where
  recorded voided completed reversed pending_confirmation confirmed disputed : DocStatus

pub record Expense : Type 0 where
  pub id : ℕ
  pub branch_id : ℕ
  pub account_id : ℕ
  pub amount : ℤ
  pub status : DocStatus
  pub void_reason : Option String
  pub voided_by : Option ℕ

pub record AccountTransfer : Type 0 where
  pub id : ℕ
  pub from_account_id : ℕ
  pub to_account_id : ℕ
  pub amount : ℤ
  pub status : DocStatus
  pub reversed_by : Option ℕ
  pub reverse_reason : Option String

pub record CashHandover : Type 0 where
  pub id : ℕ
  pub branch_id : ℕ
  pub from_account_id : ℕ
  pub to_account_id : ℕ
  pub amount : ℤ
  pub received_by_name : String
  pub status : DocStatus
  pub confirmed_by : Option ℕ
  pub confirmed_amount : Option ℤ
  pub discrepancy_amount : Option ℤ
  pub discrepancy_reason : Option String
  pub reversed_by : Option ℕ
  pub reversed_at : Option ℕ
  pub reverse_reason : Option String

pub record ExpenseCategory : Type 0 where
  pub id : ℕ
  pub is_active : Bool

-- The account that payments of a method at a branch go to.
pub record FinancePaymentAccountMap : Type 0 where
  pub branch_id : ℕ
  pub method : String
  pub account_id : ℕ

-- The tables; the movements are the newest first.
pub record Books : Type 0 where
  pub accounts : List FinancialAccount
  pub movements : List AccountMovement
  pub expenses : List Expense
  pub transfers : List AccountTransfer
  pub handovers : List CashHandover
  pub categories : List ExpenseCategory
  pub mappings : List FinancePaymentAccountMap
  pub next_id : ℕ
  pub now : ℕ

abbrev pub account_key : FinancialAccount → ℕ
account_key a = a.id

abbrev pub movement_key : AccountMovement → ℕ
movement_key m = m.id

abbrev pub draw_id : Tx Books ℕ
draw_id = do
  id ← gets (λ (books : Books). books.next_id)
  modify (λ (books : Books). record books { next_id = id + 1 })
  pure id

-- The branches that a user may act for; `none` is no restriction.
abbrev pub Scope : Type 0
Scope = Option (List ℕ)

abbrev pub is_member : ℕ → List ℕ → Bool
is_member k [] = false
is_member k (x ∷ xs) = x == k || is_member k xs

abbrev pub outside : Scope → Option ℕ → Bool
outside none branch = false
outside (some allowed) none = false
outside (some allowed) (some branch) = not (is_member branch allowed)

-- `_require_account`, with `_ensure_visible`
unfoldable pub require_account : ℕ → Scope → Tx Books FinancialAccount
require_account account_id scope = do
  found ← gets (λ (books : Books). find_row account_key account_id books.accounts)
  account ← or_raise found (not_found "Account not found")
  raise_if (outside scope account.branch_id)
      (permission_denied "You are not assigned to that account's branch.")
  pure account

-- What a producer of a movement gives.
pub record Posting : Type 0 where
  pub account_id : ℕ
  pub direction : Direction
  pub amount : ℤ
  pub reference_type : RefType
  pub reference_id : ℕ
  pub reversal_of : Option ℕ

abbrev pub posted_as : ℕ → ℕ → Posting → AccountMovement
posted_as id user p = record {
  id = id;
  account_id = p.account_id;
  direction = p.direction;
  amount = p.amount;
  reference_type = p.reference_type;
  reference_id = p.reference_id;
  created_by = user;
  reversal_of = p.reversal_of;
}

abbrev pub add_movement : ℕ → Posting → Tx Books (Unit {0})
add_movement user p = modify λ (books : Books). record books {
  movements = posted_as books.next_id user p ∷ books.movements;
  next_id = books.next_id + 1;
}

unfoldable pub post_movement : ℕ → Posting → Tx Books (Unit {0})
post_movement user p = do
  raise_if (leb_ℤ p.amount (pos 0)) (business_rule "Movement amount must be positive")
  found ← gets (λ (books : Books). find_row account_key p.account_id books.accounts)
  account ← or_raise found (not_found "Account not found")
  raise_if (not account.is_active) (business_rule "Account is inactive and cannot take movements.")
  add_movement user p

abbrev pub opposite : Direction → Direction
opposite money_in = money_out
opposite money_out = money_in

abbrev pub reversing : AccountMovement → Posting
reversing original = record {
  account_id = original.account_id;
  direction = opposite original.direction;
  amount = original.amount;
  reference_type = original.reference_type;
  reference_id = original.reference_id;
  reversal_of = some original.id;
}

unfoldable pub reverse_movement : ℕ → ℕ → Tx Books (Unit {0})
reverse_movement user movement_id = do
  found ← gets (λ (books : Books). find_row movement_key movement_id books.movements)
  original ← or_raise found (not_found "Movement not found")
  post_movement user (reversing original)

-- `unreversed_for_reference`
abbrev pub same_type : RefType → RefType → Bool
same_type invoice_payment invoice_payment = true
same_type expense expense = true
same_type transfer transfer = true
same_type handover handover = true
same_type _ _ = false

abbrev pub is_for : RefType → ℕ → AccountMovement → Bool
is_for kind id m = same_type m.reference_type kind && m.reference_id == id

abbrev pub reverses : ℕ → Option ℕ → Bool
reverses k none = false
reverses k (some i) = i == k

unfoldable pub is_reversed : List AccountMovement → ℕ → Bool
is_reversed [] k = false
is_reversed (m ∷ ms) k = reverses k m.reversal_of || is_reversed ms k

abbrev pub is_original : Option ℕ → Bool
is_original none = true
is_original (some _) = false

abbrev pub is_live : (ℕ → Bool) → AccountMovement → Bool
is_live gone m = is_original m.reversal_of && not (gone m.id)

unfoldable pub live_for : (ℕ → Bool) → RefType → ℕ → List AccountMovement → List AccountMovement
live_for gone kind id [] = []
live_for gone kind id (m ∷ ms) =
    let rest = live_for gone kind id ms in
    if is_for kind id m && is_live gone m then m ∷ rest else rest

unfoldable pub unreversed_for_reference : RefType → ℕ → List AccountMovement → List AccountMovement
unreversed_for_reference kind id ms = live_for (is_reversed ms) kind id ms

unfoldable pub reverse_each : ℕ → List AccountMovement → Tx Books (Unit {0})
reverse_each user [] = pure tt
reverse_each user (m ∷ ms) = reverse_movement user m.id >> reverse_each user ms

unfoldable pub reverse_reference : ℕ → RefType → ℕ → Tx Books (Unit {0})
reverse_reference user kind id = do
  originals ← gets (λ (books : Books). unreversed_for_reference kind id books.movements)
  reverse_each user originals
