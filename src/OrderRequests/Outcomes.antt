-- ===== src/OrderRequests/Outcomes.antt =====
-- The outcomes that the lines give are statuses that the workflow allows, and what the workflow
-- says of cancellation.
use inventory_management_sys.Base.{◌≡◌, ◌↔◌, Bool, true, false, ◌&&◌, List, arith}
use inventory_management_sys.Base.Int.{ℤ, pos, ◌+ℤ◌, ◌≤ℤ◌, int_laws}
use inventory_management_sys.OrderRequests.{
  RequestStatus, pending, approved, partially_approved, partially_issued, issued, in_transit,
  partially_received, received, cancelled, completed, can_transition, is_cancellable,
  clamp_approved, approval_outcome, issue_outcome, receive_outcome, reconcile_variance, is_balanced,
}

-- A history of a request, each step allowed.
pub data History (s : RequestStatus) : RequestStatus → Type 0 where
  now_in : History s s
  then_to :
      {t : RequestStatus}
      → History s t
      → (u : RequestStatus) → can_transition t u ≡ true
      → History s u

-- Stock has left the source.
unfoldable pub has_left : RequestStatus → Bool
has_left partially_issued = true
has_left issued = true
has_left in_transit = true
has_left partially_received = true
has_left received = true
has_left completed = true
has_left _ = false

stays_left :
    (s t : RequestStatus) → has_left s ≡ true → can_transition s t ≡ true → has_left t ≡ true
unfolding has_left can_transition
stays_left s t h e = ground arith

-- A walk in the table from a status in which stock has left ends in such a status.
pub History-left : {s t : RequestStatus} → History s t → has_left s ≡ true → has_left t ≡ true
History-left now_in l = l
History-left (then_to {t} h u e) l = stays_left t u (History-left h l) e

-- The statuses from which a request may be cancelled are those of the table, and none of them is a
-- status in which stock has left.
pub is_cancellable_lem :
    (s : RequestStatus)
    → (is_cancellable s ≡ can_transition s cancelled) × ((is_cancellable s && has_left s) ≡ false)
unfolding is_cancellable can_transition has_left
is_cancellable_lem s = (ground arith, ground arith)

-- What the lines make of a pending request on approval, of an approved one on issue, and of one
-- that has been issued or partly received on receipt is a status that the table allows.
pub outcomes_allowed :
    (pairs : List (ℤ × ℤ)) (is_transfer : Bool)
    → (can_transition pending (approval_outcome pairs) ≡ true)
      × (can_transition approved (issue_outcome pairs is_transfer) ≡ true)
      × (can_transition partially_approved (issue_outcome pairs is_transfer) ≡ true)
      × (can_transition partially_issued (issue_outcome pairs is_transfer) ≡ true)
      × (can_transition issued (receive_outcome pairs) ≡ true)
      × (can_transition in_transit (receive_outcome pairs) ≡ true)
      × (can_transition partially_received (receive_outcome pairs) ≡ true)
unfolding can_transition approval_outcome issue_outcome receive_outcome
outcomes_allowed pairs is_transfer = (
  ground arith,
  ground arith,
  ground arith,
  ground arith,
  ground arith,
  ground arith,
  ground arith,
)

-- A line balances exactly when what came, what is missing and what is damaged are together what
-- was issued and came extra.
pub is_balanced_iff :
    (out extra came missing damaged : ℤ)
    → (is_balanced out extra came missing damaged ≡ true)
      ↔ (came +ℤ missing +ℤ damaged ≡ out +ℤ extra)
unfolding is_balanced reconcile_variance
is_balanced_iff out extra came missing damaged = (λ h. grind int_laws, λ h. grind int_laws)

-- For a request of a quantity that is not negative: the clamped approval is not negative and at
-- most the request, and clamping it again changes nothing.
pub clamp_approved_lem :
    (a r : ℤ)
    → pos 0 ≤ℤ r
    → (pos 0 ≤ℤ clamp_approved a r)
      × (clamp_approved a r ≤ℤ r)
      × (clamp_approved (clamp_approved a r) r ≡ clamp_approved a r)
unfolding clamp_approved
clamp_approved_lem a r h = (grind int_laws, grind int_laws, grind int_laws)
