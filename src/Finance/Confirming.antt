-- ===== src/Finance/Confirming.antt =====
-- When a confirmation of a handover goes through.
use inventory_management_sys.Base.{
  ℕ, String, ◌≡◌, refl, ◌∙◌, Bool, true, false, ◌&&◌, ◌||◌, not, inl, inr, Bool-cases, Option, none,
  some, arith,
}
use inventory_management_sys.Base.Int.{ℤ, pos, leb_ℤ, ltb_ℤ, eqb_ℤ}
use inventory_management_sys.Base.Table.{find_row}
use inventory_management_sys.Base.Result.{Result, ok, err}
use inventory_management_sys.Finance.{
  FinancialAccount, CashHandover, Books, account_key, Scope, outside, Posting, post_movement,
}
use inventory_management_sys.Finance.Documents.{is_empty}
use inventory_management_sys.Finance.Handing.{
  handover_key, require_handover, is_awaiting, received, post_received, confirm_handover,
  confirmed_as, save_handover,
}

abbrev pub returns : {A S : Type 0} → Result (A × S) → Bool
returns (ok _) = true
returns (err _) = false

abbrev takes_money : Option FinancialAccount → Bool
takes_money none = false
takes_money (some account) = account.is_active

-- The handover awaits confirmation at a branch of the user, the amount is not negative, a difference
-- has its reason, and money that arrives has an active account. That the handover was reversed is
-- no matter.
abbrev pub may_confirm : ℤ → String → Scope → Books → Option CashHandover → Bool
may_confirm amount reason scope books none = false
may_confirm amount reason scope books (some h) =
    not (outside scope (some h.branch_id))
    && is_awaiting h.status
    && not (ltb_ℤ amount (pos 0))
    && (not (not (eqb_ℤ amount h.amount) && is_empty reason))
    && (not (ltb_ℤ (pos 0) amount)
        || takes_money (find_row account_key h.to_account_id books.accounts))

positive_lem : (q : ℤ) → ltb_ℤ (pos 0) q ≡ true → leb_ℤ q (pos 0) ≡ false
positive_lem q h = ground arith

posts :
    (user : ℕ) (p : Posting) (books : Books)
    → ltb_ℤ (pos 0) p.amount ≡ true
    → returns (post_movement user p books)
      ≡ takes_money (find_row account_key p.account_id books.accounts)
unfolding post_movement
posts user p books positive = go (find_row account_key p.account_id books.accounts) refl
  where
    go :
        (o : Option FinancialAccount)
        → find_row account_key p.account_id books.accounts ≡ o
        → returns (post_movement user p books) ≡ takes_money o
    go none q = rw (positive_lem p.amount positive, q) refl
    go (some account) q = elim (Bool-cases account.is_active) [
      | inl opened ↦ rw (positive_lem p.amount positive, q, opened) refl
      | inr shut ↦ rw (positive_lem p.amount positive, q, shut) refl
    ]

post_received-returns :
    (user : ℕ) (amount : ℤ) (h : CashHandover) (books : Books)
    → returns (post_received user amount h books) ≡ (
        not (ltb_ℤ (pos 0) amount)
        || takes_money (find_row account_key h.to_account_id books.accounts))
unfolding post_received
post_received-returns user amount h books = elim (Bool-cases (ltb_ℤ (pos 0) amount)) [
  | inl some_money ↦ rw some_money (posts user (received amount h) books some_money)
  | inr nothing ↦ rw nothing refl
]

saved_after :
    (r : Result (Unit {0} × Books)) (h : CashHandover)
    → returns (elim r [ ok p ↦ save_handover h p.1 | err e ↦ err e ]) ≡ returns r
saved_after (ok p) h = refl
saved_after (err e) h = refl

-- A confirmation of a handover returns exactly when the handover is there at a branch of the user,
-- awaits its confirmation, the amount is not negative, an amount that differs has a reason, and
-- money that arrives has an active account. That the handover was reversed is no matter.
pub confirm_handover-returns :
    (user id : ℕ) (amount : ℤ) (reason : String) (scope : Scope) (books : Books)
    → returns (confirm_handover user id amount reason scope books)
      ≡ may_confirm amount reason scope books (find_row handover_key id books.handovers)
unfolding confirm_handover require_handover
confirm_handover-returns user id amount reason scope books =
    go (find_row handover_key id books.handovers) refl
  where
    go :
        (o : Option CashHandover)
        → find_row handover_key id books.handovers ≡ o
        → returns (confirm_handover user id amount reason scope books)
          ≡ may_confirm amount reason scope books o
    go none q = rw (returns, q) refl
    go (some h) q = elim (Bool-cases (outside scope (some h.branch_id))) [
      | inl y ↦ rw (returns, q, y) refl
      | inr n ↦ elim (Bool-cases (is_awaiting h.status)) [
        | inr y ↦ rw (returns, q, n, y) refl
        | inl w ↦ elim (Bool-cases (ltb_ℤ amount (pos 0))) [
          | inl y ↦ rw (returns, q, n, w, y) refl
          | inr p ↦ elim (Bool-cases (not (eqb_ℤ amount h.amount) && is_empty reason)) [
            | inl y ↦ rw (returns, q, n, w, p, y) refl
            | inr g ↦
                rw (returns, q, n, w, p, g)
                  (saved_after (post_received user amount h books)
                      (confirmed_as user amount reason h)
                    ∙ post_received-returns user amount h books)
          ]
        ]
      ]
    ]
