-- ===== src/Procurement/Service/Calls/Status.antt =====
-- The statuses of the orders follow the workflow.
use inventory_management_sys.Base.{
  ℕ, String, ◌≡◌, refl, ◌⊎◌, inl, inr, ◌∙◌, Bool, true, Bool-cases, Option, none, some, List, ◌==◌,
  arith,
}
use inventory_management_sys.Base.Result.{AppError, or_raise, Ensures, Triple, Triple-bind}
use inventory_management_sys.Procurement.Tables.{PurchaseOrder, Office, order_key}
use inventory_management_sys.Procurement.States.{
  PoStatus, PoAction, Checked, done, failed, assert_transition, target_status,
}
use inventory_management_sys.Procurement.States.Workflow.{Step, fixed}
use inventory_management_sys.Procurement.Service.{
  require_order, checked, is_approve, acted, act, notify_approvers, apply_action,
}
use inventory_management_sys.Base.Table.{find_row, set_row, find-set_row, find_row-key}

abbrev pub status_in : Option PurchaseOrder → Option PoStatus
status_in none = none
status_in (some po) = some po.status

abbrev pub status_of : ℕ → Office → Option PoStatus
status_of po_id office = status_in (find_row order_key po_id office.orders)

-- An order is there before and after with the same status or one a step further, or there is none.
abbrev pub Follows : Option PoStatus → Option PoStatus → Type 0
Follows none none = Unit
Follows (some s) (some t) = (t ≡ s) ⊎ Step s t
Follows _ _ = ⊥

pub Follows-same : (o : Option PoStatus) → Follows o o
Follows-same none = tt
Follows-same (some s) = inl refl

Follows-found :
    (o : Option PurchaseOrder) (po po' : PurchaseOrder)
    → o ≡ some po
    → Step po.status po'.status
    → Follows (status_in o) (some po'.status)
Follows-found o po po' e step = rw e (inr step)

-- Writing the order back a step further.
set_row-Follows :
    (k : ℕ) (orders : List PurchaseOrder) (po po' : PurchaseOrder)
    → find_row order_key po'.id orders ≡ some po
    → Step po.status po'.status
    → Follows
        (status_in (find_row order_key k orders))
        (status_in (find_row order_key k (set_row order_key po' orders)))
set_row-Follows k orders po po' found step =
    rw (find-set_row order_key k po' po orders found) (elim (Bool-cases (po'.id == k)) [
      | inl here ↦ rw here (
          Follows-found (find_row order_key k orders) po po' (cc (found, eq_of_test po'.id k here))
            step)
      | inr elsewhere ↦ rw elsewhere (Follows-same (status_in (find_row order_key k orders)))
    ])
  where
    eq_of_test : (i j : ℕ) → (i == j) ≡ true → i ≡ j
    eq_of_test i j e = ground arith

-- The order that a call has found, in the tables it found it in.
pub record Found (office : Office) (po_id : ℕ) (po : PurchaseOrder) (office' : Office)
    : Type 0 where
  pub same : office' ≡ office
  pub found : find_row order_key po_id office.orders ≡ some po
  pub id : po.id ≡ po_id

module _ (office : Office) (po_id : ℕ) where
  pub require_order-Found :
      Triple (λ office'. office' ≡ office) (require_order po_id) (Found office po_id)
  require_order-Found = record {
    at = λ office' e. rw e (go (find_row order_key po_id office.orders) refl);
  }
    where
      go :
          (o : Option PurchaseOrder)
          → find_row order_key po_id office.orders ≡ o
          → Ensures
              (Found office po_id)
              (or_raise o (AppError.not_found "Purchase order not found") office)
      go none e = tt
      go (some po) e = record {
        same = refl;
        found = e;
        id = find_row-key order_key po_id po office.orders e;
      }

  module _ (k : ℕ) where
    abbrev pub Ok : Office → Type 0
    Ok office' = Follows (status_of k office) (status_of k office')

    notify-Ok :
        (on : Bool) (po : PurchaseOrder) (office' : Office)
        → Ok office'
        → Ensures (λ _. Ok) (notify_approvers on po office')
    notify-Ok on po office' h = ground arith

    -- An order written back a step further, over unchanged orders.
    pub saved-Ok :
        (po po' : PurchaseOrder) (orders : List PurchaseOrder)
        → find_row order_key po_id office.orders ≡ some po
        → po'.id ≡ po_id
        → Step po.status po'.status
        → orders ≡ office.orders
        → Follows
            (status_of k office)
            (status_in (find_row order_key k (set_row order_key po' orders)))
    saved-Ok po po' orders found id step same =
        rw same (set_row-Follows k office.orders po po' (rw id found) step)

    acted-id :
        (po : PurchaseOrder) (a : PoAction) (t : PoStatus) (actor now : ℕ)
        → ((acted po a t actor now).id ≡ po.id) × ((acted po a t actor now).status ≡ t)
    acted-id po a t actor now = elim (Bool-cases (is_approve a)) [
      | inl yes_approve ↦ rw yes_approve (refl, refl)
      | inr other ↦ rw other (refl, refl)
    ]

    act-Ok :
        (on : Bool) (po : PurchaseOrder) (a : PoAction) (comment : Option String) (actor : ℕ)
        (target : Option PoStatus)
        → target_status po.status a ≡ target
        → Triple (Found office po_id po) (act on po a comment actor target) (λ _. Ok)
    act-Ok on po a comment actor none e = record { at = λ office' f. tt }
    act-Ok on po a comment actor (some target) e = record {
      at = λ office' f.
          let new = acted po a target actor office'.stock.now in
          let kept = acted-id po a target actor office'.stock.now in
          notify-Ok on new _ (
            saved-Ok po new office'.orders f.found (kept.0 ∙ f.id) (fixed a (rw kept.1 e))
              (rw f.same refl));
    }

    pub checked-keeps :
        {A : Type 0} (P : Office → Type 0) (c : Checked A)
        → Triple P (checked c) (λ a office'. P office' × (c ≡ done a))
    checked-keeps P (done a) = record { at = λ office' p. (p, refl) }
    checked-keeps P (failed e) = record { at = λ office' p. tt }

    pub apply_action-Ok :
        (on : Bool) (a : PoAction) (comment : Option String) (actor : ℕ)
        → Triple (λ office'. office' ≡ office) (apply_action on po_id a comment actor) (λ _. Ok)
    unfolding apply_action
    apply_action-Ok on a comment actor = Triple-bind require_order-Found λ po.
        Triple-bind (checked-keeps (Found office po_id po) (assert_transition po.status a)) λ u.
          record {
            at = λ office' (f, legal).
                (act-Ok on po a comment actor (target_status po.status a) refl).at office' f;
          }
