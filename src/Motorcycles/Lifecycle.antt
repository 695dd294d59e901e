-- ===== src/Motorcycles/Lifecycle.antt =====
-- What the transition table means for a unit over time.
use inventory_management_sys.Base.{◌≡◌, ◌↔◌, ◌⊎◌, inl, inr, true, [], arith}
use inventory_management_sys.Motorcycles.{
  SaleStatus, reserved, on_hold, sold, can_transition, allowed_next, is_terminal, is_reservable,
  is_sellable,
}

-- A history of a unit, each step allowed.
pub data History (s : SaleStatus) : SaleStatus → Type 0 where
  now_in : History s s
  then_to :
      {t : SaleStatus} → History s t → (u : SaleStatus) → can_transition t u ≡ true → History s u

-- The unit has been in one of the statuses that may be sold.
abbrev pub HasBeenSellable : {s t : SaleStatus} → History s t → Type 0
HasBeenSellable {s} now_in = is_sellable s ≡ true
HasBeenSellable {t} (then_to h u e) = (is_sellable u ≡ true) ⊎ HasBeenSellable h

before-sold : (t : SaleStatus) → can_transition t sold ≡ true → is_sellable t ≡ true
unfolding can_transition is_sellable
before-sold t e = ground arith

current-sellable : {s t : SaleStatus} (h : History s t) → is_sellable t ≡ true → HasBeenSellable h
current-sellable now_in e = e
current-sellable (then_to h u a) e = inl e

-- A unit that was on hold and is sold has been sellable in between.
pub on_hold-HasBeenSellable :
    {t : SaleStatus} (h : History on_hold t) → t ≡ sold → HasBeenSellable h
unfolding can_transition
on_hold-HasBeenSellable now_in e = absurd (ground arith)
on_hold-HasBeenSellable (then_to {t} h u a) e = inr (current-sellable h (before-sold t (rw e at a)))

-- The sets that the service checks are those of the transition table: a unit can be reserved or
-- sold exactly from them, and nothing leaves a status exactly when it is terminal.
pub sets_agree :
    (s : SaleStatus)
    → (is_reservable s ≡ can_transition s reserved)
      × (is_sellable s ≡ can_transition s sold)
      × ((is_terminal s ≡ true) ↔ (allowed_next s ≡ []))
unfolding can_transition is_reservable is_sellable is_terminal allowed_next
sets_agree s = (ground arith, ground arith, (λ h. ground arith, λ h. ground arith))
