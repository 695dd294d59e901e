-- ===== src/OrderRequests/Service/Statuses/Histories.antt =====
-- The requests through any calls: each follows the table of transitions.
use inventory_management_sys.Base.{
  ℕ, ◌≡◌, refl, inl, inr, Bool, true, ◌&&◌, ◌||◌, not, ◌==◌, Bool-cases, Option, none, some, List,
  ◌∷◌, arith,
}
use inventory_management_sys.Base.Table.{find_row}
use inventory_management_sys.Base.Result.{
  not_found, permission_denied, AppError, Result, ok, err, or_raise, gets, pure, raise_if, Ensures,
  Triple, Triple-bind, ◌>>=◌, ◌>>◌,
}
use inventory_management_sys.Stock.Tables.{Warehouse}
use inventory_management_sys.Stock.Soundness.Reads.{raise_if-Triple, Ensures-or_raise}
use inventory_management_sys.OrderRequests.{RequestStatus}
use inventory_management_sys.OrderRequests.Outcomes.{
  History, now_in, then_to, has_left, History-left,
}
use inventory_management_sys.OrderRequests.Tables.{RequestHeader, Depot, header_key}
use inventory_management_sys.OrderRequests.Service.{
  OrderRequestCreate, new_header, is_transfer_type, is_none, sends_outside, require_destination,
  add_request, create,
}
use inventory_management_sys.OrderRequests.Service.Calls.{
  RequestCall, creating, submitting, approving, rejecting, issuing, receiving, cancelling,
  completing, run, depot_after,
}
use inventory_management_sys.OrderRequests.Service.Statuses.{
  status_in, status_of, Follows, Follows-same, Same,
}
use inventory_management_sys.OrderRequests.Service.Statuses.Calls.{
  Ok, notify-Ok, submit-Ok, reject-Ok, approve-Ok, cancel-Ok, issue-Ok, receive-Ok, complete-Ok,
}

-- The id that is drawn for a new request is no request's.
abbrev pub Unused : RequestCall → Depot → Type 0
Unused (creating notify id line_ids user req) depot = find_row header_key id depot.headers ≡ none
Unused _ depot = Unit

module _ (depot : Depot) (k : ℕ) where
  module _ (notify : Bool) (id : ℕ) (line_ids : List ℕ) (user : ℕ) (req : OrderRequestCreate)
      (unused : find_row header_key id depot.headers ≡ none) where
    abbrev fresh : RequestHeader
    fresh = new_header id line_ids user req

    Follows-new : (o : Option RequestHeader) → o ≡ none → Follows (status_in o) (some fresh.status)
    Follows-new o e = rw e (elim (Bool-cases req.submit) [
      | inl now ↦ rw now (inr refl)
      | inr later ↦ rw later (inl refl)
    ])

    added-Follows :
        Follows (status_of k depot) (status_in (find_row header_key k (fresh ∷ depot.headers)))
    unfolding find_row
    added-Follows = elim (Bool-cases (id == k)) [
      | inl here ↦
          rw here (Follows-new (find_row header_key k depot.headers) (rw (← same_key here) unused))
      | inr elsewhere ↦
          rw elsewhere (Follows-same (status_in (find_row header_key k depot.headers)))
    ]
      where
        same_key : (id == k) ≡ true → id ≡ k
        same_key h = ground arith

    add_request-Ok : Triple (Same depot) (add_request notify id line_ids user req) (λ _. Ok depot k)
    unfolding add_request
    add_request-Ok = record {
      at = λ d same. notify-Ok depot k req.submit notify fresh _ (rw same added-Follows);
    }

    require_destination-Same :
        (o : Option ℕ) → Triple (Same depot) (require_destination o) (λ _. Same depot)
    require_destination-Same none = record { at = λ d same. same }
    require_destination-Same (some dest) = record {
      at = λ d same. go d same (d.stock.warehouses dest);
    }
      where
        go :
            (d : Depot)
            → Same depot d
            → (o : Option Warehouse)
            → Ensures
                (λ _. Same depot)
                ((or_raise o (not_found "Destination location not found") >>= λ w. pure w.branch_id)
                  d)
        go d same none = tt
        go d same (some w) = same

    gets-Same : {A : Type 0} (f : Depot → A) → Triple (Same depot) (gets f) (λ _. Same depot)
    gets-Same f = record { at = λ d same. same }

    or_raise-Same :
        {A : Type 0} (o : Option A) (e : AppError)
        → Triple (Same depot) (or_raise o e) (λ _. Same depot)
    or_raise-Same o e = record { at = λ d same. Ensures-or_raise o e d (Same depot) same }

    allowed-Ok :
        (branch : Option ℕ)
        → Triple
            (Same depot)
            (raise_if
                ((is_transfer_type req.purpose || sends_outside req.user_branch_ids branch)
                  && not req.may_transfer)
                (permission_denied
                  "You need the stock-transfer permission to raise an inter-location transfer")
              >> add_request notify id line_ids user req)
            (λ _. Ok depot k)
    allowed-Ok branch = raise_if-Triple _ _ _ λ allowed. add_request-Ok

    create-Ok : Triple (Same depot) (create notify id line_ids user req) (λ _. Ok depot k)
    unfolding create
    create-Ok =
        raise_if-Triple (is_transfer_type req.purpose && is_none req.destination_branch_id) _ _
          λ directed.
            Triple-bind (gets-Same (λ (d : Depot). d.stock.warehouses req.branch_id)) λ source.
              Triple-bind (or_raise-Same source (not_found "Source location not found"))
                λ w. Triple-bind (require_destination-Same req.destination_branch_id) allowed-Ok

  -- A call of the service that returns leaves every request, the one it is on and the others, in
  -- its status or in one that the table allows next, loses none, and makes at most a draft or a
  -- pending one. The id that is drawn for a new request is to be no request's.
  pub run-Follows_requests :
      (call : RequestCall)
      → Unused call depot
      → Ensures (λ _ after. Follows (status_of k depot) (status_of k after)) (run call depot)
  unfolding run
  run-Follows_requests (creating notify id line_ids user req) unused =
      (create-Ok notify id line_ids user req unused).at depot refl
  run-Follows_requests (submitting notify actor id is_admin) u =
      (submit-Ok depot k notify actor id is_admin).at depot refl
  run-Follows_requests (approving actor id approvals comments) u =
      (approve-Ok depot k actor id approvals comments).at depot refl
  run-Follows_requests (rejecting actor id reason) u =
      (reject-Ok depot k actor id reason).at depot refl
  run-Follows_requests (issuing actor id wanted) u =
      (issue-Ok depot k actor id wanted).at depot refl
  run-Follows_requests (receiving actor id receipts remarks) u =
      (receive-Ok depot k actor id receipts remarks).at depot refl
  run-Follows_requests (cancelling actor id is_admin reason) u =
      (cancel-Ok depot k actor id is_admin reason).at depot refl
  run-Follows_requests (completing actor id receipts remarks) u =
      (complete-Ok depot k actor id receipts remarks).at depot refl

  pub after-Follows :
      (r : Result (Unit {0} × Depot))
      → Ensures (λ _ after. Follows (status_of k depot) (status_of k after)) r
      → Follows (status_of k depot) (status_of k (depot_after depot r))
  after-Follows (ok (_, after)) f = f
  after-Follows (err e) f = Follows-same (status_of k depot)

-- The tables that calls lead to, each call drawing an unused id.
pub data Leads (depot : Depot) : Depot → Type 0 where
  at_start : Leads depot depot
  then_call :
      {after : Depot}
      → Leads depot after
      → (call : RequestCall) → Unused call after
      → Leads depot (depot_after after (run call after))

-- A request that is there has gone through the table, and stays.
abbrev pub Reached : Option RequestStatus → Option RequestStatus → Type 0
Reached (some s) (some t) = History s t
Reached (some s) none = ⊥
Reached none _ = Unit

Reached-Follows : (a b c : Option RequestStatus) → Reached a b → Follows b c → Reached a c
Reached-Follows none b c r f = tt
Reached-Follows (some s) none c r f = absurd r
Reached-Follows (some s) (some t) none r f = absurd f
Reached-Follows (some s) (some t) (some u) r (inl e) = rw e r
Reached-Follows (some s) (some t) (some u) r (inr step) = then_to r u step

Reached-same : (o : Option RequestStatus) → Reached o o
Reached-same none = tt
Reached-same (some s) = now_in

-- However calls go on, returning or raising, a request that is there stays, and its status goes
-- through a history of the table of transitions, if each new request draws an unused id.
pub Leads-Reached :
    {depot after : Depot} (k : ℕ)
    → Leads depot after
    → Reached (status_of k depot) (status_of k after)
Leads-Reached {depot} k at_start = Reached-same (status_of k depot)
Leads-Reached {depot} k (then_call {after = before} l call u) =
    Reached-Follows (status_of k depot) (status_of k before) _ (Leads-Reached k l)
      (after-Follows before k (run call before) (run-Follows_requests before k call u))

left_for_good :
    (a b : Option RequestStatus) (s : RequestStatus)
    → Reached a b
    → a ≡ some s
    → has_left s ≡ true
    → (t : RequestStatus) × (b ≡ some t) × (has_left t ≡ true)
left_for_good none b s r e h = absurd (ground arith)
left_for_good (some s') none s r e h = absurd r
left_for_good (some s') (some t) s r e h =
    let same : s' ≡ s = ground arith in (t, refl, History-left r (rw same h))

-- A request of which stock has left the source, in one of the statuses from partially issued to
-- completed, is there after any calls in one of these statuses still: it is never cancelled,
-- rejected or lost. Each new request is to draw an unused id.
pub Leads-left :
    {depot after : Depot} (k : ℕ) (s : RequestStatus)
    → Leads depot after
    → status_of k depot ≡ some s
    → has_left s ≡ true
    → (t : RequestStatus) × (status_of k after ≡ some t) × (has_left t ≡ true)
Leads-left {depot} {after} k s l e h =
    left_for_good (status_of k depot) (status_of k after) s (Leads-Reached k l) e h
