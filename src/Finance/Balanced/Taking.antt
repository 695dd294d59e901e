-- ===== src/Finance/Balanced/Taking.antt =====
-- Posting the payments of an invoice keeps the ledger netted.
use inventory_management_sys.Base.{
  ℕ, String, Bool, true, false, Option, none, some, List, [], ◌∷◌, if◌then◌else◌,
}
use inventory_management_sys.Base.Int.{ℤ}
use inventory_management_sys.Base.Result.{
  business_rule, Ensures, Triple, Triple-bind, pure, or_raise, ◌>>=◌,
}
use inventory_management_sys.Finance.{FinancePaymentAccountMap, Books, post_movement}
use inventory_management_sys.Finance.Takings.{
  has_mappings, mapping_for, taken, post_payment, post_payments, post_invoice_payments,
}
use inventory_management_sys.Finance.Reversal.{IsNetted}
use inventory_management_sys.Finance.Keeping.{post_movement-Netted}

module _ (user branch invoice_id : ℕ) where
  post_payment-Netted :
      (method : String) (amount : ℤ)
      → Triple IsNetted (post_payment user branch invoice_id method amount) (λ _. IsNetted)
  unfolding post_payment
  post_payment-Netted method amount = record {
    at = λ books k. go (mapping_for branch method books.mappings) books k;
  }
    where
      go :
          (o : Option FinancePaymentAccountMap) (books : Books)
          → IsNetted books
          → Ensures
              (λ _. IsNetted)
              ((or_raise o
                    (business_rule "No finance account is mapped for payments at this branch.")
                  >>= λ mapping. post_movement user (taken invoice_id mapping.account_id amount))
                books)
      go none books k = tt
      go (some mapping) books k =
          (post_movement-Netted user (taken invoice_id mapping.account_id amount)).at books k

  post_payments-Netted :
      (lines : List (String × ℤ))
      → Triple IsNetted (post_payments user branch invoice_id lines) (λ _. IsNetted)
  unfolding post_payments
  post_payments-Netted [] = record { at = λ books k. k }
  post_payments-Netted ((method, amount) ∷ lines) =
      Triple-bind (post_payment-Netted method amount) λ u. post_payments-Netted lines

pub post_invoice_payments-Netted :
    (user : ℕ) (branch : Option ℕ) (invoice_id : ℕ) (lines : List (String × ℤ))
    → Triple IsNetted (post_invoice_payments user branch invoice_id lines) (λ _. IsNetted)
unfolding post_invoice_payments
post_invoice_payments-Netted user none invoice_id lines = record { at = λ books k. k }
post_invoice_payments-Netted user (some branch) invoice_id lines = record {
  at = λ books k.
      go (has_mappings branch books.mappings) books k
        ((post_payments-Netted user branch invoice_id lines).at books k);
}
  where
    go :
        (c : Bool) (books : Books)
        → IsNetted books
        → Ensures (λ _. IsNetted) (post_payments user branch invoice_id lines books)
        → Ensures
            (λ _. IsNetted)
            ((if c then post_payments user branch invoice_id lines else pure tt) books)
    go true books k t = t
    go false books k t = k
