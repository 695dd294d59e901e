-- ===== src/OrderRequests/Service/Statuses/Calls.antt =====
-- Whatever calls are made, each request follows the table of transitions.
use inventory_management_sys.Base.{
  ℕ, String, ◌≡◌, refl, Bool, true, false, ◌&&◌, not, ◌==◌, Option, List, map, arith, if◌then◌else◌,
}
use inventory_management_sys.Base.Int.{ℤ, pos, leb_ℤ}
use inventory_management_sys.Base.Dict.{dict_of}
use inventory_management_sys.Base.Result.{pure, Ensures, Triple, Triple-bind, given}
use inventory_management_sys.Stock.Soundness.Reads.{raise_if-Triple}
use inventory_management_sys.OrderRequests.{
  RequestStatus, pending, rejected, issued, received, cancelled, completed, can_transition,
  approval_outcome, issue_outcome, receive_outcome, total_of,
}
use inventory_management_sys.OrderRequests.Tables.{RequestHeader, Depot}
use inventory_management_sys.OrderRequests.Service.{notify_pending, submit, reject}
use inventory_management_sys.OrderRequests.Service.Approving.{
  approve_line, approved_pair, is_pending, is_rejected, approve, is_approved, cancel,
}
use inventory_management_sys.OrderRequests.Service.Issuing.{issued_pair, is_transfer, issue}
use inventory_management_sys.OrderRequests.Service.Receiving.{
  LineReceipt, accounted, receive, all_reconciled, complete,
}
use inventory_management_sys.OrderRequests.Service.Statuses.{
  status_of, Follows, Same, require-FoundAs, saved-Follows,
}
use inventory_management_sys.OrderRequests.Service.Statuses.Moving.{
  hold_lines-Same, release_if-Same, issue_lines-Same, record_receipts-Same, complete_receipts-Same,
}

pending_to :
    (s : RequestStatus) (pairs : List (ℤ × ℤ))
    → not (is_pending s) ≡ false
    → can_transition s (approval_outcome pairs) ≡ true
unfolding can_transition approval_outcome
pending_to s pairs e = ground arith

issue_to :
    (s : RequestStatus) (pairs : List (ℤ × ℤ)) (b : Bool)
    → not (can_transition s issued) ≡ false
    → can_transition s (issue_outcome pairs b) ≡ true
unfolding can_transition issue_outcome
issue_to s pairs b e = ground arith

receive_to :
    (s : RequestStatus) (pairs : List (ℤ × ℤ))
    → not (can_transition s received) ≡ false
    → can_transition s (receive_outcome pairs) ≡ true
unfolding can_transition receive_outcome
receive_to s pairs e = ground arith

allowed_to : (b : Bool) → not b ≡ false → b ≡ true
allowed_to b e = ground arith

module _ (depot : Depot) (k : ℕ) where
  abbrev pub Ok : Depot → Type 0
  Ok after = Follows (status_of k depot) (status_of k after)

  pub notify-Ok :
      (b on : Bool) (h : RequestHeader) (after : Depot)
      → Ok after
      → Ensures (λ _. Ok) ((if b then notify_pending on h else pure tt) after)
  notify-Ok true true h after s = s
  notify-Ok true false h after s = s
  notify-Ok false on h after s = s

  pub submit-Ok :
      (notify : Bool) (actor id : ℕ) (is_admin : Bool)
      → Triple (Same depot) (submit notify actor id is_admin) (λ _. Ok)
  unfolding submit
  submit-Ok notify actor id is_admin = Triple-bind (require-FoundAs depot id) λ h. given λ found.
      raise_if-Triple (not is_admin && not (h.requested_by == actor)) _ _ λ own.
        raise_if-Triple (not (can_transition h.status pending)) _ _ λ can. record {
          at = λ d same.
              notify-Ok true notify (record h { status = pending }) _
                (saved-Follows depot k id h (record h { status = pending }) d.headers found refl
                  (allowed_to (can_transition h.status pending) can) same);
        }

  pub reject-Ok :
      (actor id : ℕ) (reason : String) → Triple (Same depot) (reject actor id reason) (λ _. Ok)
  unfolding reject
  reject-Ok actor id reason = Triple-bind (require-FoundAs depot id) λ h. given λ found.
      raise_if-Triple (not (can_transition h.status rejected)) _ _ λ can. record {
        at = λ d same.
            saved-Follows depot k id h _ d.headers found refl
              (allowed_to (can_transition h.status rejected) can) same;
      }

  pub approve-Ok :
      (actor id : ℕ) (approvals : List (ℕ × ℤ)) (comments : Option String)
      → Triple (Same depot) (approve actor id approvals comments) (λ _. Ok)
  unfolding approve
  approve-Ok actor id approvals comments = Triple-bind (require-FoundAs depot id) λ h.
      given λ found. raise_if-Triple (not (is_pending h.status)) _ _ λ waiting.
        let lines = map (approve_line (dict_of approvals)) h.lines in
        raise_if-Triple (is_rejected (approval_outcome (map approved_pair lines))) _ _ λ something.
          Triple-bind (hold_lines-Same depot (record h { lines = lines }) actor lines) λ u. record {
            at = λ d same.
                saved-Follows depot k id h _ d.headers found refl
                  (pending_to h.status (map approved_pair lines) waiting) same;
          }

  pub cancel-Ok :
      (actor id : ℕ) (is_admin : Bool) (reason : Option String)
      → Triple (Same depot) (cancel actor id is_admin reason) (λ _. Ok)
  unfolding cancel
  cancel-Ok actor id is_admin reason = Triple-bind (require-FoundAs depot id) λ h. given λ found.
      raise_if-Triple (not is_admin && not (h.requested_by == actor)) _ _ λ own.
        raise_if-Triple (not (can_transition h.status cancelled)) _ _ λ can.
          Triple-bind (release_if-Same depot h actor (is_approved h.status)) λ u. record {
            at = λ d same.
                saved-Follows depot k id h _ d.headers found refl
                  (allowed_to (can_transition h.status cancelled) can) same;
          }

  pub issue-Ok :
      (actor id : ℕ) (wanted : List (ℕ × ℤ)) → Triple (Same depot) (issue actor id wanted) (λ _. Ok)
  unfolding issue
  issue-Ok actor id wanted = Triple-bind (require-FoundAs depot id) λ h. given λ found.
      raise_if-Triple (not (can_transition h.status issued)) _ _ λ can.
        Triple-bind (issue_lines-Same depot h actor (dict_of wanted) h.lines) λ lines.
          raise_if-Triple (leb_ℤ (total_of (map issued_pair lines)) (pos 0)) _ _ λ something.
            record {
              at = λ d same.
                  saved-Follows depot k id h _ d.headers found refl
                    (issue_to h.status (map issued_pair lines) (is_transfer h) can) same;
            }

  pub receive-Ok :
      (actor id : ℕ) (receipts : List (ℕ × LineReceipt)) (remarks : Option String)
      → Triple (Same depot) (receive actor id receipts remarks) (λ _. Ok)
  unfolding receive
  receive-Ok actor id receipts remarks = Triple-bind (require-FoundAs depot id) λ h. given λ found.
      raise_if-Triple (not (can_transition h.status received)) _ _ λ can.
        Triple-bind (record_receipts-Same depot h actor (dict_of receipts)) λ lines. record {
          at = λ d same.
              saved-Follows depot k id h _ d.headers found refl
                (receive_to h.status (accounted lines) can) same;
        }

  pub complete-Ok :
      (actor id : ℕ) (receipts : List (ℕ × LineReceipt)) (remarks : String)
      → Triple (Same depot) (complete actor id receipts remarks) (λ _. Ok)
  unfolding complete
  complete-Ok actor id receipts remarks = Triple-bind (require-FoundAs depot id) λ h. given λ found.
      raise_if-Triple (not (can_transition h.status completed)) _ _ λ can.
        Triple-bind (complete_receipts-Same depot h actor receipts) λ h'. given λ same_id.
          raise_if-Triple (not (all_reconciled h'.lines)) _ _ λ all. record {
            at = λ d same.
                saved-Follows depot k id h _ d.headers found same_id
                  (allowed_to (can_transition h.status completed) can) same;
          }
