-- ===== src/Finance/Balanced/Recording.antt =====
-- Recording an expense, a transfer or a handover keeps the ledger netted.
use inventory_management_sys.Base.{
  ℕ, ◌+◌, Bool, true, false, ◌||◌, not, ◌==◌, Option, none, some, List, [], ◌∷◌, arith,
}
use inventory_management_sys.Base.Int.{pos, leb_ℤ}
use inventory_management_sys.Base.Result.{business_rule, raise_if, Ensures, Triple, Triple-bind}
use inventory_management_sys.Stock.Soundness.Reads.{raise_if-Triple}
use inventory_management_sys.Finance.{
  Expense, AccountTransfer, CashHandover, AccountMovement, Books, account_key, draw_id, Scope,
  outside, require_account,
}
use inventory_management_sys.Finance.Documents.{
  ExpenseCreate, category_key, is_empty, or_own, differs, check_category, create_expense,
  TransferCreate, new_expense, paid_out, add_expense, new_transfer, sent, arrived, add_transfer,
  create_transfer,
}
use inventory_management_sys.Finance.Handing.{
  HandoverCreate, new_handover, handed, add_handover, save_handover, create_handover,
}
use inventory_management_sys.Finance.Netting.{Below}
use inventory_management_sys.Finance.Reversal.{IsNetted}
use inventory_management_sys.Finance.Keeping.{post_movement-Netted}
use inventory_management_sys.Base.Steps.{or_raise-Triple, lookup-Triple}

later-Below : (n : ℕ) (ms : List AccountMovement) → Below n ms → Below (n + 1) ms
unfolding Below
later-Below n [] b = tt
later-Below n (m ∷ ms) (lt, t, b) = (omega arith, t, b)

draw_id-Netted : Triple IsNetted draw_id (λ _. IsNetted)
draw_id-Netted = record {
  at = λ books k. record {
    below = later-Below books.next_id books.movements k.below;
    stands = k.stands;
  };
}

pub require_account-keeps :
    {P : Books → Type 0} (id : ℕ) (scope : Scope) → Triple P (require_account id scope) (λ _. P)
unfolding require_account
require_account-keeps id scope =
    lookup-Triple account_key id (λ books. books.accounts) _ _
      λ account own.
        raise_if-Triple (outside scope account.branch_id) _ _ λ h. record { at = λ books k. k }

check_category-keeps : {P : Books → Type 0} (o : Option ℕ) → Triple P (check_category o) (λ _. P)
check_category-keeps none = record { at = λ books k. k }
check_category-keeps {P} (some id) =
    lookup-Triple category_key id (λ books. books.categories) _ _
      λ category own. record { at = λ books k. kept (not category.is_active) books k }
  where
    kept :
        (c : Bool) (books : Books)
        → P books
        → Ensures (λ _. P) (raise_if c (business_rule "That expense category is inactive.") books)
    kept true books k = tt
    kept false books k = k

-- The documents are beside the ledger.
add_expense-Netted : (e : Expense) → Triple IsNetted (add_expense e) (λ _. IsNetted)
add_expense-Netted e = record { at = λ books k. k }

add_transfer-Netted : (t : AccountTransfer) → Triple IsNetted (add_transfer t) (λ _. IsNetted)
add_transfer-Netted t = record { at = λ books k. k }

add_handover-Netted : (h : CashHandover) → Triple IsNetted (add_handover h) (λ _. IsNetted)
add_handover-Netted h = record { at = λ books k. k }

pub save_handover-Netted : (h : CashHandover) → Triple IsNetted (save_handover h) (λ _. IsNetted)
save_handover-Netted h = record { at = λ books k. k }

pub create_expense-Netted :
    (user : ℕ) (req : ExpenseCreate) (scope : Scope)
    → Triple IsNetted (create_expense user req scope) (λ _. IsNetted)
unfolding create_expense
create_expense-Netted user req scope = raise_if-Triple (leb_ℤ req.amount (pos 0)) _ _ λ h.
    Triple-bind (require_account-keeps req.account_id scope) λ account.
      raise_if-Triple (not account.is_active) _ _ λ h'.
        or_raise-Triple (or_own req.branch_id account.branch_id) _ _ λ branch.
          raise_if-Triple (outside scope (some branch)) _ _ λ u.
            raise_if-Triple (differs account.branch_id branch) _ _ λ v.
              Triple-bind (check_category-keeps req.category_id) λ w.
                Triple-bind draw_id-Netted λ id.
                  Triple-bind (add_expense-Netted (new_expense id branch req))
                    λ x. post_movement-Netted user (paid_out id req)

pub create_transfer-Netted :
    (user : ℕ) (req : TransferCreate) (scope : Scope)
    → Triple IsNetted (create_transfer user req scope) (λ _. IsNetted)
unfolding create_transfer
create_transfer-Netted user req scope =
    raise_if-Triple (req.from_account_id == req.to_account_id) _ _ λ h.
      raise_if-Triple (leb_ℤ req.amount (pos 0)) _ _ λ h'.
        Triple-bind (require_account-keeps req.from_account_id scope) λ src.
          Triple-bind (require_account-keeps req.to_account_id scope) λ dst.
            raise_if-Triple (not src.is_active || not dst.is_active) _ _ λ u.
              Triple-bind draw_id-Netted λ id.
                Triple-bind (add_transfer-Netted (new_transfer id req)) λ x.
                  Triple-bind (post_movement-Netted user (sent id req))
                    λ y. post_movement-Netted user (arrived id req)

pub create_handover-Netted :
    (user : ℕ) (req : HandoverCreate) (scope : Scope)
    → Triple IsNetted (create_handover user req scope) (λ _. IsNetted)
unfolding create_handover
create_handover-Netted user req scope =
    raise_if-Triple (req.from_account_id == req.to_account_id) _ _ λ h.
      raise_if-Triple (leb_ℤ req.amount (pos 0)) _ _ λ h'.
        raise_if-Triple (is_empty req.received_by_name) _ _ λ n.
          Triple-bind (require_account-keeps req.from_account_id scope) λ src.
            Triple-bind (require_account-keeps req.to_account_id scope) λ dst.
              raise_if-Triple (not src.is_active) _ _ λ u.
                or_raise-Triple (or_own req.branch_id src.branch_id) _ _ λ branch.
                  raise_if-Triple (outside scope (some branch)) _ _ λ v.
                    Triple-bind draw_id-Netted λ id.
                      Triple-bind (add_handover-Netted (new_handover id branch req))
                        λ x. post_movement-Netted user (handed id req)
