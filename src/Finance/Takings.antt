-- ===== src/Finance/Takings.antt =====
-- finance/service.py: the money that comes in with payments.
use text.Mathlib.Text.{◌==◌ as str_eq}
use inventory_management_sys.Base.{
  ℕ, String, Bool, false, ◌&&◌, ◌||◌, ◌==◌, Option, none, some, List, [], ◌∷◌, if◌then◌else◌,
}
use inventory_management_sys.Base.Int.{ℤ}
use inventory_management_sys.Base.Result.{business_rule, Tx, pure, gets, or_raise, ◌>>=◌, ◌>>◌}
use inventory_management_sys.Finance.{
  money_in, invoice_payment, FinancePaymentAccountMap, Books, Posting, post_movement,
}

-- Money in: one movement for each payment, to the account of its method.
abbrev pub has_mappings : ℕ → List FinancePaymentAccountMap → Bool
has_mappings branch [] = false
has_mappings branch (r ∷ rs) = r.branch_id == branch || has_mappings branch rs

unfoldable pub mapping_for :
    ℕ → String → List FinancePaymentAccountMap → Option FinancePaymentAccountMap
mapping_for branch method [] = none
mapping_for branch method (r ∷ rs) =
    if r.branch_id == branch && str_eq r.method method then some r else mapping_for branch method rs

abbrev pub taken : ℕ → ℕ → ℤ → Posting
taken invoice_id account_id amount = record {
  account_id = account_id;
  direction = money_in;
  amount = amount;
  reference_type = invoice_payment;
  reference_id = invoice_id;
  reversal_of = none;
}

unfoldable pub post_payment : ℕ → ℕ → ℕ → String → ℤ → Tx Books (Unit {0})
post_payment user branch invoice_id method amount = do
  found ← gets (λ (books : Books). mapping_for branch method books.mappings)
  mapping ←
      or_raise found (business_rule "No finance account is mapped for payments at this branch.")
  post_movement user (taken invoice_id mapping.account_id amount)

unfoldable pub post_payments : ℕ → ℕ → ℕ → List (String × ℤ) → Tx Books (Unit {0})
post_payments user branch invoice_id [] = pure tt
post_payments user branch invoice_id ((method, amount) ∷ lines) =
    post_payment user branch invoice_id method amount >> post_payments user branch invoice_id lines

unfoldable pub post_invoice_payments : ℕ → Option ℕ → ℕ → List (String × ℤ) → Tx Books (Unit {0})
post_invoice_payments user none invoice_id lines = pure tt
post_invoice_payments user (some branch) invoice_id lines = do
  mapped ← gets (λ (books : Books). has_mappings branch books.mappings)
  if mapped then post_payments user branch invoice_id lines else pure tt
