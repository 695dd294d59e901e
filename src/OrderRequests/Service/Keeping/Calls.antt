-- ===== src/OrderRequests/Service/Keeping/Calls.antt =====
-- Every call keeps the tables fine.
use inventory_management_sys.Base.{
  ℕ, String, ◌≡◌, refl, Bool, true, false, ◌&&◌, ◌||◌, not, ◌==◌, Option, none, some, List, [], ◌∷◌,
  All, arith, if◌then◌else◌,
}
use inventory_management_sys.Base.Int.{pos, ◌≤ℤ◌}
use inventory_management_sys.Base.Result.{
  AppError, not_found, permission_denied, Result, ok, err, or_raise, gets, pure, raise_if, Ensures,
  Triple, Triple-bind, given, ◌>>=◌, ◌>>◌,
}
use inventory_management_sys.Stock.Tables.{Warehouse}
use inventory_management_sys.Stock.Soundness.Reads.{raise_if-Triple, Ensures-or_raise}
use inventory_management_sys.OrderRequests.{RequestStatus, draft, pending, rejected, can_transition}
use inventory_management_sys.OrderRequests.Tables.{RequestHeader, Depot}
use inventory_management_sys.OrderRequests.Service.{
  LineCreate, OrderRequestCreate, new_lines, new_header, is_transfer_type, is_none, sends_outside,
  require_destination, notify_pending, add_request, create, submit, reject,
}
use inventory_management_sys.OrderRequests.Service.Calls.{
  RequestCall, creating, submitting, approving, rejecting, issuing, receiving, cancelling,
  completing, run, depot_after, run_all,
}
use inventory_management_sys.Stock.Places.{Place}
use inventory_management_sys.OrderRequests.Service.Keeping.{
  early, stage, LinesFine, HeaderFine, DepotFine, require-Fine, saved-Fine,
}
use inventory_management_sys.OrderRequests.Service.Keeping.Approving.{approve-Fine, cancel-Fine}
use inventory_management_sys.OrderRequests.Service.Keeping.Issuing.{issue-Fine}
use inventory_management_sys.OrderRequests.Service.Keeping.Receiving.{receive-Fine, complete-Fine}

-- The ids that are drawn for new lines stand for what is asked for at the source, of which the
-- payload asks for no negative quantity.
abbrev pub Placed : Place → ℕ → List ℕ → List LineCreate → Type 0
Placed place branch (id ∷ ids) (l ∷ ls) =
    ((place id).0 ≡ l.product_id)
    × ((place id).1 ≡ branch)
    × (pos 0 ≤ℤ l.requested_qty)
    × Placed place branch ids ls
Placed place branch _ _ = Unit

abbrev pub Draws : Place → RequestCall → Type 0
Draws place (creating notify id line_ids user req) = Placed place req.branch_id line_ids req.lines
Draws place _ = Unit

submittable-early : (s : RequestStatus) → not (can_transition s pending) ≡ false → stage s ≡ early
unfolding stage can_transition
submittable-early s e = ground arith

rejectable-early : (s : RequestStatus) → not (can_transition s rejected) ≡ false → stage s ≡ early
unfolding stage can_transition
rejectable-early s e = ground arith

new-early : (b : Bool) → stage (if b then pending else draft) ≡ early
unfolding stage
new-early b = ground arith

module _ (place : Place) where
  new_lines-Fine :
      (branch : ℕ) (ids : List ℕ) (ls : List LineCreate)
      → Placed place branch ids ls
      → LinesFine place branch early (new_lines ids ls)
  new_lines-Fine branch [] ls p = tt
  new_lines-Fine branch (id ∷ ids) [] p = tt
  new_lines-Fine branch (id ∷ ids) (l ∷ ls) (ep, ew, nonneg, ps) = (
    record {
      at_product = ep;
      at_branch = ew;
      requested_nonneg = nonneg;
      approved_nonneg = omega arith;
      approved_within = nonneg;
      issued_nonneg = omega arith;
      issued_within = omega arith;
      is_settled = refl;
    },
    new_lines-Fine branch ids ls ps,
  )

  notify-Fine :
      (b has_notifications : Bool) (h : RequestHeader) (depot : Depot)
      → DepotFine place depot
      → Ensures
          (λ _. DepotFine place)
          ((if b then notify_pending has_notifications h else pure tt) depot)
  notify-Fine true true h depot d = record { kept = d.kept; headers = d.headers }
  notify-Fine true false h depot d = d
  notify-Fine false on h depot d = d

  require_destination-Fine :
      (o : Option ℕ) → Triple (DepotFine place) (require_destination o) (λ _. DepotFine place)
  require_destination-Fine none = record { at = λ depot d. d }
  require_destination-Fine (some dest) = record {
    at = λ depot d. go depot d (depot.stock.warehouses dest);
  }
    where
      go :
          (depot : Depot)
          → DepotFine place depot
          → (o : Option Warehouse)
          → Ensures
              (λ _. DepotFine place)
              ((or_raise o (not_found "Destination location not found") >>= λ w. pure w.branch_id)
                depot)
      go depot d none = tt
      go depot d (some w) = d

  gets-Fine :
      {A : Type 0} (f : Depot → A) → Triple (DepotFine place) (gets f) (λ _. DepotFine place)
  gets-Fine f = record { at = λ depot d. d }

  or_raise-Fine :
      {A : Type 0} (o : Option A) (e : AppError)
      → Triple (DepotFine place) (or_raise o e) (λ _. DepotFine place)
  or_raise-Fine o e = record { at = λ depot d. Ensures-or_raise o e depot (DepotFine place) d }

  module _ (notify : Bool) (id : ℕ) (line_ids : List ℕ) (user : ℕ) (req : OrderRequestCreate)
      (p : Placed place req.branch_id line_ids req.lines) where
    add_request-Fine :
        Triple (DepotFine place) (add_request notify id line_ids user req) (λ _. DepotFine place)
    unfolding add_request
    add_request-Fine = record {
      at = λ depot d.
          let new : HeaderFine place (new_header id line_ids user req) =
            rw new-early (new_lines-Fine req.branch_id line_ids req.lines p) in
          notify-Fine req.submit notify (new_header id line_ids user req) _
            (record { kept = d.kept; headers = (new, d.headers) });
    }

    allowed-Fine :
        (branch : Option ℕ)
        → Triple
            (DepotFine place)
            (raise_if
                ((is_transfer_type req.purpose || sends_outside req.user_branch_ids branch)
                  && not req.may_transfer)
                (permission_denied
                  "You need the stock-transfer permission to raise an inter-location transfer")
              >> add_request notify id line_ids user req)
            (λ _. DepotFine place)
    allowed-Fine branch = raise_if-Triple _ _ _ λ allowed. add_request-Fine

    create-Fine :
        Triple (DepotFine place) (create notify id line_ids user req) (λ _. DepotFine place)
    unfolding create
    create-Fine =
        raise_if-Triple (is_transfer_type req.purpose && is_none req.destination_branch_id) _ _
          λ directed.
            Triple-bind (gets-Fine (λ (depot : Depot). depot.stock.warehouses req.branch_id))
              λ source.
                Triple-bind (or_raise-Fine source (not_found "Source location not found"))
                  λ w. Triple-bind (require_destination-Fine req.destination_branch_id) allowed-Fine

  submit-Fine :
      (notify : Bool) (actor id : ℕ) (is_admin : Bool)
      → Triple (DepotFine place) (submit notify actor id is_admin) (λ _. DepotFine place)
  unfolding submit stage
  submit-Fine notify actor id is_admin = Triple-bind (require-Fine id) λ h. given λ fine.
      raise_if-Triple (not is_admin && not (h.requested_by == actor)) _ _ λ own.
        raise_if-Triple (not (can_transition h.status pending)) _ _ λ can. record {
          at = λ depot d.
              notify-Fine true notify (record h { status = pending }) _
                (saved-Fine (record h { status = pending }) depot _
                  (rw (submittable-early h.status can) at fine) d refl refl);
        }

  reject-Fine :
      (actor id : ℕ) (reason : String)
      → Triple (DepotFine place) (reject actor id reason) (λ _. DepotFine place)
  unfolding reject stage
  reject-Fine actor id reason = Triple-bind (require-Fine id) λ h. given λ fine.
      raise_if-Triple (not (can_transition h.status rejected)) _ _ λ can. record {
        at = λ depot d.
            saved-Fine _ depot _ (rw (rejectable-early h.status can) at fine) d refl refl;
      }

  run-Fine :
      (call : RequestCall)
      → Draws place call
      → Triple (DepotFine place) (run call) (λ _. DepotFine place)
  unfolding run
  run-Fine (creating notify id line_ids user req) p = create-Fine notify id line_ids user req p
  run-Fine (submitting notify actor id is_admin) p = submit-Fine notify actor id is_admin
  run-Fine (approving actor id approvals comments) p =
      approve-Fine place actor id approvals comments
  run-Fine (rejecting actor id reason) p = reject-Fine actor id reason
  run-Fine (issuing actor id wanted) p = issue-Fine place actor id wanted
  run-Fine (receiving actor id receipts remarks) p = receive-Fine place actor id receipts remarks
  run-Fine (cancelling actor id is_admin reason) p = cancel-Fine place actor id is_admin reason
  run-Fine (completing actor id receipts remarks) p = complete-Fine place actor id receipts remarks

  after-Fine :
      (depot : Depot) (r : Result (Unit {0} × Depot))
      → DepotFine place depot
      → Ensures (λ _. DepotFine place) r
      → DepotFine place (depot_after depot r)
  after-Fine depot (ok (_, after)) d e = e
  after-Fine depot (err error) d e = d

  -- From tables that are fine, every sequence of calls of the service, returning or raising, leads
  -- to tables that are fine: the stock is sound, every hold of a line stands on the product and
  -- the location of that line, each line has 0 ≤ issued ≤ approved ≤ requested, a request before
  -- its first issue has issued nothing, each receipt balances with what was issued, and each issued
  -- line of a completed request has a receipt. The ids drawn for new lines are to stand for the
  -- product and the source location in the payload, and no payload requests less than nothing.
  pub run_all-Fine :
      (calls : List RequestCall) (depot : Depot)
      → All (Draws place) calls
      → DepotFine place depot
      → DepotFine place (run_all calls depot)
  unfolding run_all
  run_all-Fine [] depot p d = d
  run_all-Fine (call ∷ calls) depot (p, ps) d =
      run_all-Fine calls (depot_after depot (run call depot)) ps
        (after-Fine depot (run call depot) d ((run-Fine call p).at depot d))
