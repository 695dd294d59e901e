-- ===== src/OrderRequests/Service/Keeping/Approving.antt =====
-- `approve` and `cancel` keep the tables fine.
use inventory_management_sys.Base.{
  ℕ, String, ◌≡◌, refl, Bool, true, false, not, ◌&&◌, ◌==◌, inl, inr, Bool-cases, Option, List, [],
  ◌∷◌, map, arith, if◌then◌else◌,
}
use inventory_management_sys.Base.Int.{ℤ, pos, leb_ℤ}
use inventory_management_sys.Base.Dict.{Dict, get, dict_of}
use inventory_management_sys.Base.Result.{◌>>=◌, ◌>>◌, Triple, Triple-bind, given, pure}
use inventory_management_sys.Stock.Soundness.Reads.{raise_if-Triple}
use inventory_management_sys.OrderRequests.{
  RequestStatus, cancelled, can_transition, approval_outcome,
}
use inventory_management_sys.OrderRequests.Outcomes.{clamp_approved_lem}
use inventory_management_sys.OrderRequests.Tables.{
  RequestLine, RequestHeader, Depot, reserved, released, in_stock,
}
use inventory_management_sys.OrderRequests.Repository.{LineResult, refused, updated, reserve_line}
use inventory_management_sys.OrderRequests.Service.{ledger_entry}
use inventory_management_sys.OrderRequests.Service.Lines.{or_refuse, or_zero}
use inventory_management_sys.OrderRequests.Service.Approving.{
  approve_line, approved_pair, hold_line, hold_lines, is_pending, is_rejected, approve, is_approved,
  ledger_each, release_all, cancel,
}
use inventory_management_sys.Stock.Places.{Place}
use inventory_management_sys.OrderRequests.Stock.Taking.{reserve_line-Kept}
use inventory_management_sys.OrderRequests.Stock.Releasing.{release_reservations-Kept}
use inventory_management_sys.OrderRequests.Service.Keeping.{
  Stage, early, stage, LineFine, LinesFine, DepotFine, require-Fine, in_stock-keeps,
  ledger_entry-Fine, saved-Fine,
}

pub or_refuse-keeps : {P : Depot → Type 0} (r : LineResult) → Triple P (or_refuse r) (λ _. P)
or_refuse-keeps (refused message) = record { at = λ depot p. tt }
or_refuse-keeps (updated line) = record { at = λ depot p. p }

approved-early : (pairs : List (ℤ × ℤ)) → stage (approval_outcome pairs) ≡ early
unfolding approval_outcome stage
approved-early pairs = ground arith

pending-early : (s : RequestStatus) → not (is_pending s) ≡ false → stage s ≡ early
unfolding stage
pending-early s e = ground arith

cancellable-early : (s : RequestStatus) → not (can_transition s cancelled) ≡ false → stage s ≡ early
unfolding stage can_transition
cancellable-early s e = ground arith

module _ (place : Place) where
  approve_line-Fine :
      (approvals : Dict ℤ) (branch : ℕ) (line : RequestLine)
      → LineFine place branch early line
      → LineFine place branch early (approve_line approvals line)
  approve_line-Fine approvals branch line f =
      let clamped =
        clamp_approved_lem (or_zero (get line.id approvals)) line.requested_qty
          f.requested_nonneg in
      record {
        at_product = f.at_product;
        at_branch = f.at_branch;
        requested_nonneg = f.requested_nonneg;
        approved_nonneg = clamped.0;
        approved_within = clamped.1;
        issued_nonneg = f.issued_nonneg;
        issued_within = f.issued_within;
        is_settled = f.is_settled;
      }

  approve_lines-Fine :
      (approvals : Dict ℤ) (branch : ℕ) (lines : List RequestLine)
      → LinesFine place branch early lines
      → LinesFine place branch early (map (approve_line approvals) lines)
  approve_lines-Fine approvals branch [] fs = tt
  approve_lines-Fine approvals branch (line ∷ lines) (f, fs) =
      (approve_line-Fine approvals branch line f, approve_lines-Fine approvals branch lines fs)

  hold_line-Fine :
      (h : RequestHeader) (actor : ℕ) (line : RequestLine) (s : Stage)
      → LineFine place h.branch_id s line
      → Triple (DepotFine place) (hold_line h actor line) (λ _. DepotFine place)
  unfolding hold_line
  hold_line-Fine h actor line s f = record {
    at = λ depot d. elim (Bool-cases (leb_ℤ line.approved_qty (pos 0))) [
      | inl nothing ↦ rw nothing d
      | inr positive ↦ rw positive (held.at depot d)
    ];
  }
    where
      held :
          Triple
            (DepotFine place)
            (do
              result ← in_stock (reserve_line line h.branch_id line.approved_qty actor)
              or_refuse result
              ledger_entry h line reserved actor)
            (λ _. DepotFine place)
      held =
          Triple-bind
            (in_stock-keeps (
              reserve_line-Kept place line h.branch_id f.at_product f.at_branch line.approved_qty
                actor))
            λ result.
              Triple-bind (or_refuse-keeps result) λ line'. ledger_entry-Fine h line reserved actor

  hold_lines-Fine :
      (h : RequestHeader) (actor : ℕ) (s : Stage) (lines : List RequestLine)
      → LinesFine place h.branch_id s lines
      → Triple (DepotFine place) (hold_lines h actor lines) (λ _. DepotFine place)
  unfolding hold_lines
  hold_lines-Fine h actor s [] fs = record { at = λ depot d. d }
  hold_lines-Fine h actor s (line ∷ lines) (f, fs) =
      Triple-bind (hold_line-Fine h actor line s f) λ u. hold_lines-Fine h actor s lines fs

  pub approve-Fine :
      (actor id : ℕ) (approvals : List (ℕ × ℤ)) (comments : Option String)
      → Triple (DepotFine place) (approve actor id approvals comments) (λ _. DepotFine place)
  unfolding approve
  approve-Fine actor id approvals comments = Triple-bind (require-Fine id) λ h. given λ fine.
      raise_if-Triple (not (is_pending h.status)) _ _ λ waiting.
        let lines = map (approve_line (dict_of approvals)) h.lines in
        let early_lines : LinesFine place h.branch_id early lines =
          approve_lines-Fine (dict_of approvals) h.branch_id h.lines
            (rw (pending-early h.status waiting) at fine) in
        raise_if-Triple (is_rejected (approval_outcome (map approved_pair lines))) _ _ λ something.
          Triple-bind (hold_lines-Fine (record h { lines = lines }) actor early lines early_lines)
            λ u. record {
              at = λ depot d. saved-Fine _ depot _ (rw approved-early early_lines) d refl refl;
            }

  ledger_each-Fine :
      (h : RequestHeader) (actor : ℕ) (lines : List RequestLine)
      → Triple (DepotFine place) (ledger_each h actor lines) (λ _. DepotFine place)
  ledger_each-Fine h actor [] = record { at = λ depot d. d }
  ledger_each-Fine h actor (line ∷ lines) =
      Triple-bind (ledger_entry-Fine h line released actor) λ u. ledger_each-Fine h actor lines

  release_if-Fine :
      (b : Bool) (h : RequestHeader) (actor : ℕ)
      → Triple (DepotFine place) (if b then release_all h actor else pure tt) (λ _. DepotFine place)
  release_if-Fine true h actor =
      Triple-bind (in_stock-keeps (release_reservations-Kept place h.lines actor))
        λ u. ledger_each-Fine h actor h.lines
  release_if-Fine false h actor = record { at = λ depot d. d }

  pub cancel-Fine :
      (actor id : ℕ) (is_admin : Bool) (reason : Option String)
      → Triple (DepotFine place) (cancel actor id is_admin reason) (λ _. DepotFine place)
  unfolding cancel stage
  cancel-Fine actor id is_admin reason = Triple-bind (require-Fine id) λ h. given λ fine.
      raise_if-Triple (not is_admin && not (h.requested_by == actor)) _ _ λ own.
        raise_if-Triple (not (can_transition h.status cancelled)) _ _ λ can.
          Triple-bind (release_if-Fine (is_approved h.status) h actor) λ u. record {
            at = λ depot d.
                saved-Fine _ depot _ (rw (cancellable-early h.status can) at fine) d refl refl;
          }
