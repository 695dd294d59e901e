-- ===== src/Procurement/States/Workflow.antt =====
-- The workflow as a relation, and what every path through it has in common.
use inventory_management_sys.Base.{◌≡◌, ◌↔◌, true, false, Bool, some, ◌⊎◌, inl, inr, arith}
use inventory_management_sys.Procurement.States.{
  PoStatus, draft, approved, sent, partially_received, received, PoAction, submit, approve, send,
  receive, is_receivable, is_terminal, can_transition, target_status,
}

-- One step of a purchase order. A receipt ends in one of two statuses, by the quantities.
pub data Step (s : PoStatus) : PoStatus → Type 0 where
  fixed : {t : PoStatus} (a : PoAction) → target_status s a ≡ some t → Step s t
  some_received : is_receivable s ≡ true → {t : PoStatus} → t ≡ partially_received → Step s t
  all_received : is_receivable s ≡ true → {t : PoStatus} → t ≡ received → Step s t

pub data Route (s : PoStatus) : PoStatus → Type 0 where
  start : Route s s
  then_step : {t u : PoStatus} → Route s t → Step t u → Route s u

-- The statuses that an order has only after its approval.
abbrev pub is_approved : PoStatus → Bool
is_approved approved = true
is_approved sent = true
is_approved partially_received = true
is_approved received = true
is_approved _ = false

-- The order has been in the status `a` on the way.
abbrev pub Visits : {s t : PoStatus} → PoStatus → Route s t → Type 0
Visits {s} a start = s ≡ a
Visits {t} a (then_step r st) = (t ≡ a) ⊎ Visits a r

Step-is_approved :
    {s t : PoStatus} → Step s t → is_approved t ≡ true → (t ≡ approved) ⊎ (is_approved s ≡ true)
unfolding target_status
Step-is_approved {s} {t} (fixed a e) h = ground arith
Step-is_approved {s} {t} (some_received r e) h = ground arith
Step-is_approved {s} {t} (all_received r e) h = ground arith

-- Every route of a new order to an approved, sent or (partially) received status visits the
-- status `approved`.
pub Route-Visits : {t : PoStatus} (r : Route draft t) → is_approved t ≡ true → Visits approved r
Route-Visits start h = ground arith
Route-Visits (then_step r st) h = elim (Step-is_approved st h) [
  | inl e ↦ inl e
  | inr p ↦ inr (Route-Visits r p)
]

-- No action is possible in a status exactly when the status is terminal.
pub is_terminal_iff :
    (s : PoStatus) → (is_terminal s ≡ true) ↔ ((a : PoAction) → can_transition s a ≡ false)
unfolding is_terminal can_transition
is_terminal_iff s =
    (λ h a. ground arith, λ f. grind (arith, f submit, f approve, f send, f receive))
