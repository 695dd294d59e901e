-- ===== src/Finance/Refunded.antt =====
-- Taking the payments of an invoice and taking them back.
use inventory_management_sys.Base.{
  ℕ, String, ◌≡◌, refl, ◌∙◌, Bool, true, false, ◌==◌, Option, none, some, List, [], ◌∷◌, arith,
  if◌then◌else◌,
}
use inventory_management_sys.Base.Int.{ℤ, pos, ◌+ℤ◌, ◌-ℤ◌, int_laws}
use inventory_management_sys.Base.Result.{
  business_rule, pure, Ensures, Ensures-map, Ensures-both, Ensures-bind, Triple, Triple-bind, ◌>>◌,
}
use inventory_management_sys.Base.Steps.{gets-Triple, or_raise-Triple}
use inventory_management_sys.Finance.{
  invoice_payment, FinancialAccount, Books, FinancePaymentAccountMap, posted_as, reverse_reference,
}
use inventory_management_sys.Finance.Takings.{
  has_mappings, mapping_for, taken, post_payment, post_payments, post_invoice_payments,
}
use inventory_management_sys.Finance.Netting.{net}
use inventory_management_sys.Finance.Reversal.{IsNetted}
use inventory_management_sys.Finance.Keeping.{guarded_post}
use inventory_management_sys.Finance.Balanced.Taking.{post_invoice_payments-Netted}
use inventory_management_sys.Finance.Balances.{balance, balance-more}
use inventory_management_sys.Finance.Restored.{reverse_reference-takes}

joined : (b c d q : ℤ) → b ≡ c +ℤ d → b +ℤ q ≡ c +ℤ (d +ℤ q)
joined b c d q e = grind (int_laws, e)

module _ (account : FinancialAccount) (user id : ℕ) where
  -- What is in the account beside the document.
  abbrev Beside : ℤ → Books → Type 0
  Beside c books =
      balance account books.movements ≡ c +ℤ net invoice_payment id account.id books.movements

  post_payment-Beside :
      (branch : ℕ) (method : String) (amount c : ℤ)
      → Triple (Beside c) (post_payment user branch id method amount) (λ _. Beside c)
  unfolding post_payment net
  post_payment-Beside branch method amount c =
      gets-Triple (λ (books : Books). mapping_for branch method books.mappings) _
        λ found.
          or_raise-Triple found
            (business_rule "No finance account is mapped for payments at this branch.") _
            λ (mapping : FinancePaymentAccountMap).
              guarded_post user (taken id mapping.account_id amount)
                (record { at = λ books e. more books mapping.account_id e })
    where
      more :
          (books : Books) (to : ℕ)
          → Beside c books
          → balance account (posted_as books.next_id user (taken id to amount) ∷ books.movements)
            ≡ c
              +ℤ net invoice_payment id account.id
                  (posted_as books.next_id user (taken id to amount) ∷ books.movements)
      more books to e =
          let same : (id == id) ≡ true = ground arith in
          balance-more account (posted_as books.next_id user (taken id to amount)) books.movements
          ∙ rw same (
              joined (balance account books.movements) c
                (net invoice_payment id account.id books.movements)
                (if to == account.id then amount else pos 0) e)

  post_payments-Beside :
      (branch : ℕ) (lines : List (String × ℤ)) (c : ℤ)
      → Triple (Beside c) (post_payments user branch id lines) (λ _. Beside c)
  unfolding post_payments
  post_payments-Beside branch [] c = record { at = λ books e. e }
  post_payments-Beside branch ((method, amount) ∷ lines) c =
      Triple-bind (post_payment-Beside branch method amount c)
        λ u. post_payments-Beside branch lines c

  post_invoice_payments-Beside :
      (branch : Option ℕ) (lines : List (String × ℤ)) (c : ℤ)
      → Triple (Beside c) (post_invoice_payments user branch id lines) (λ _. Beside c)
  unfolding post_invoice_payments
  post_invoice_payments-Beside none lines c = record { at = λ books e. e }
  post_invoice_payments-Beside (some branch) lines c =
      gets-Triple (λ (books : Books). has_mappings branch books.mappings) _ λ mapped. when mapped
    where
      when :
          (b : Bool)
          → Triple
              (Beside c)
              (if b then post_payments user branch id lines else pure tt)
              (λ _. Beside c)
      when true = post_payments-Beside branch lines c
      when false = record { at = λ books e. e }

  -- Taking payments for an invoice and then reversing what was taken leaves the balance of every
  -- account as it was, if both return. The ledger is to be one whose ids fall and where each
  -- document comes to what of it stands, and the invoice to have come to nothing in the account.
  pub take-reverse :
      (branch : Option ℕ) (lines : List (String × ℤ)) (books : Books)
      → IsNetted books
      → net invoice_payment id account.id books.movements ≡ pos 0
      → Ensures
          (λ _ after. balance account after.movements ≡ balance account books.movements)
          ((post_invoice_payments user branch id lines >> reverse_reference user invoice_payment id)
            books)
  take-reverse branch lines books k nothing =
      Ensures-bind {Q = λ u after. IsNetted after × Beside (balance account books.movements) after}
        (post_invoice_payments user branch id lines books)
        (λ u. reverse_reference user invoice_payment id)
        (Ensures-both (post_invoice_payments user branch id lines books) (λ u after k' e. (k', e))
          ((post_invoice_payments-Netted user branch id lines).at books k)
          ((post_invoice_payments-Beside branch lines (balance account books.movements)).at books (
            from_nothing (balance account books.movements)
              (net invoice_payment id account.id books.movements) nothing)))
        λ u. record {
          at = λ taken_books (k', e).
              Ensures-map (reverse_reference user invoice_payment id taken_books)
                (λ v after s.
                  s
                  ∙ left_over (balance account taken_books.movements)
                      (balance account books.movements)
                      (net invoice_payment id account.id taken_books.movements) e)
                ((reverse_reference-takes account user invoice_payment id
                    (balance account taken_books.movements)
                    (net invoice_payment id account.id taken_books.movements)).at
                  taken_books (k', refl, refl));
        }
    where
      from_nothing : (b d : ℤ) → d ≡ pos 0 → b ≡ b +ℤ d
      from_nothing b d e = grind (int_laws, e)

      left_over : (b c d : ℤ) → b ≡ c +ℤ d → b -ℤ d ≡ c
      left_over b c d e = grind (int_laws, e)
