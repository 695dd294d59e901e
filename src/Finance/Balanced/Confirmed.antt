-- ===== src/Finance/Balanced/Confirmed.antt =====
-- Looking a cash handover up, and confirming one, keeps the ledger netted.
use inventory_management_sys.Base.{
  ℕ, String, ◌≡◌, Bool, true, false, ◌&&◌, not, some, if◌then◌else◌,
}
use inventory_management_sys.Base.Int.{ℤ, pos, ltb_ℤ, eqb_ℤ}
use inventory_management_sys.Base.Result.{Ensures, Triple, Triple-bind, given, pure}
use inventory_management_sys.Stock.Soundness.Reads.{raise_if-Triple}
use inventory_management_sys.Finance.{CashHandover, Books, Scope, outside, post_movement}
use inventory_management_sys.Finance.Documents.{is_empty}
use inventory_management_sys.Finance.Handing.{
  handover_key, received, confirmed_as, require_handover, is_awaiting, post_received,
  confirm_handover,
}
use inventory_management_sys.Finance.Reversal.{IsNetted}
use inventory_management_sys.Finance.Keeping.{post_movement-Netted}
use inventory_management_sys.Base.Steps.{lookup-Triple}
use inventory_management_sys.Finance.Balanced.Recording.{save_handover-Netted}

pub require_handover-keeps :
    {P : Books → Type 0} (id : ℕ) (scope : Scope)
    → Triple P (require_handover id scope) (λ h books. P books × (h.id ≡ id))
unfolding require_handover
require_handover-keeps id scope =
    lookup-Triple handover_key id (λ books. books.handovers) _ _
      λ h own.
        raise_if-Triple (outside scope (some h.branch_id)) _ _
          λ u. record { at = λ books k. (k, own) }

post_received-Netted :
    (user : ℕ) (amount : ℤ) (h : CashHandover)
    → Triple IsNetted (post_received user amount h) (λ _. IsNetted)
unfolding post_received
post_received-Netted user amount h = record {
  at = λ books k.
      go (ltb_ℤ (pos 0) amount) books ((post_movement-Netted user (received amount h)).at books k)
        k;
}
  where
    go :
        (c : Bool) (books : Books)
        → Ensures (λ _. IsNetted) (post_movement user (received amount h) books)
        → IsNetted books
        → Ensures
            (λ _. IsNetted)
            ((if c then post_movement user (received amount h) else pure tt) books)
    go true books t k = t
    go false books t k = k

pub confirm_handover-Netted :
    (user id : ℕ) (amount : ℤ) (reason : String) (scope : Scope)
    → Triple IsNetted (confirm_handover user id amount reason scope) (λ _. IsNetted)
unfolding confirm_handover
confirm_handover-Netted user id amount reason scope =
    Triple-bind (require_handover-keeps id scope) λ h. given λ own.
      raise_if-Triple (not (is_awaiting h.status)) _ _ λ u.
        raise_if-Triple (ltb_ℤ amount (pos 0)) _ _ λ v.
          raise_if-Triple (not (eqb_ℤ amount h.amount) && is_empty reason) _ _ λ w.
            Triple-bind (post_received-Netted user amount h)
              λ x. save_handover-Netted (confirmed_as user amount reason h)
