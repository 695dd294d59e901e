-- ===== src/OrderRequests/Service/Keeping/Receiving.antt =====
-- `receive` and `complete` keep the tables fine.
use inventory_management_sys.Base.{
  ℕ, String, ◌≡◌, refl, false, not, ◌⊎◌, Option, none, some, List, [], ◌∷◌, arith,
}
use inventory_management_sys.Base.Int.{ℤ, ◌-ℤ◌}
use inventory_management_sys.Base.Dict.{Dict, get, dict_of}
use inventory_management_sys.Base.Result.{Triple, Triple-bind, given}
use inventory_management_sys.Stock.Soundness.Reads.{raise_if-Triple}
use inventory_management_sys.OrderRequests.{
  RequestStatus, received, completed, can_transition, receive_outcome,
}
use inventory_management_sys.OrderRequests.Tables.{RequestLine, RequestHeader, received_event}
use inventory_management_sys.OrderRequests.Service.Lines.{or_zero}
use inventory_management_sys.OrderRequests.Service.Receiving.{
  LineReceipt, credit_line, credit_named, credit_lines, record_receipts, accounted, receive,
  all_reconciled, mark_received, complete_receipts, complete,
}
use inventory_management_sys.Stock.Places.{Place}
use inventory_management_sys.OrderRequests.Stock.Arriving.{receive_line-Kept}
use inventory_management_sys.OrderRequests.Service.Keeping.{
  under_way, arriving, stage, LinesFine, DepotFine, require-Fine, in_stock-keeps, ledger_entry-Fine,
  saved-Fine,
}
use inventory_management_sys.OrderRequests.Service.Keeping.Lines.{
  arrived-Fine, apply_receipts-Fine, closed-Fine,
}

receivable-stage :
    (s : RequestStatus)
    → not (can_transition s received) ≡ false
    → (stage s ≡ under_way) ⊎ (stage s ≡ arriving)
unfolding stage can_transition
receivable-stage s e = ground arith

completable-stage :
    (s : RequestStatus)
    → not (can_transition s completed) ≡ false
    → (stage s ≡ under_way) ⊎ (stage s ≡ arriving)
unfolding stage can_transition
completable-stage s e = ground arith

received-arriving : (pairs : List (ℤ × ℤ)) → stage (receive_outcome pairs) ≡ arriving
unfolding receive_outcome stage
received-arriving pairs = ground arith

module _ (place : Place) (h : RequestHeader) (actor : ℕ) where
  credit_line-Fine :
      (prior line : RequestLine) (dest : Option ℕ)
      → Triple (DepotFine place) (credit_line h actor prior line dest) (λ _. DepotFine place)
  credit_line-Fine prior line none = record { at = λ depot d. d }
  credit_line-Fine prior line (some dest) = in_stock-keeps (
      receive_line-Kept place h.id actor line dest
        (or_zero line.received_qty -ℤ or_zero prior.received_qty)
        (or_zero line.damaged_qty -ℤ or_zero prior.damaged_qty))

  credit_named-Fine :
      (prior line : RequestLine) (o : Option LineReceipt)
      → Triple (DepotFine place) (credit_named h actor prior line o) (λ _. DepotFine place)
  credit_named-Fine prior line none = record { at = λ depot d. d }
  credit_named-Fine prior line (some r) =
      Triple-bind (credit_line-Fine prior line h.destination_branch_id)
        λ u. ledger_entry-Fine h line received_event actor

  credit_lines-Fine :
      (receipts : Dict LineReceipt) (priors lines : List RequestLine)
      → Triple (DepotFine place) (credit_lines h actor receipts priors lines) (λ _. DepotFine place)
  unfolding credit_lines
  credit_lines-Fine receipts [] lines = record { at = λ depot d. d }
  credit_lines-Fine receipts (prior ∷ priors) [] = record { at = λ depot d. d }
  credit_lines-Fine receipts (prior ∷ priors) (line ∷ lines) =
      Triple-bind (credit_named-Fine prior line (get line.id receipts))
        λ u. credit_lines-Fine receipts priors lines

module _ (place : Place) where
  record_receipts-Fine :
      (h : RequestHeader) (actor : ℕ) (receipts : Dict LineReceipt)
      → LinesFine place h.branch_id arriving h.lines
      → Triple
          (DepotFine place)
          (record_receipts h actor receipts)
          (λ lines depot. DepotFine place depot × LinesFine place h.branch_id arriving lines)
  unfolding record_receipts
  record_receipts-Fine h actor receipts fs =
      Triple-bind (apply_receipts-Fine place h.branch_id receipts h.lines fs) λ lines. given λ fs'.
        Triple-bind
          (credit_lines-Fine place (record h { lines = lines }) actor receipts h.lines lines)
          λ u. record { at = λ depot d. (d, fs') }

  pub receive-Fine :
      (actor id : ℕ) (receipts : List (ℕ × LineReceipt)) (remarks : Option String)
      → Triple (DepotFine place) (receive actor id receipts remarks) (λ _. DepotFine place)
  unfolding receive
  receive-Fine actor id receipts remarks = Triple-bind (require-Fine id) λ h. given λ fine.
      raise_if-Triple (not (can_transition h.status received)) _ _ λ can.
        Triple-bind
          (record_receipts-Fine h actor (dict_of receipts)
            (arrived-Fine place h.branch_id h.status h.lines (receivable-stage h.status can) fine))
          λ lines. given λ fine'. record {
            at = λ depot d.
                saved-Fine _ depot _ (rw (received-arriving (accounted lines)) fine') d refl refl;
          }

  -- The lines with the given receipts, on the same location.
  abbrev Arrived : ℕ → RequestHeader → Type 0
  Arrived branch h' = (h'.branch_id ≡ branch) × LinesFine place branch arriving h'.lines

  complete_receipts-Fine :
      (h : RequestHeader) (actor : ℕ) (receipts : List (ℕ × LineReceipt))
      → LinesFine place h.branch_id arriving h.lines
      → Triple
          (DepotFine place)
          (complete_receipts h actor receipts)
          (λ h' depot. DepotFine place depot × Arrived h.branch_id h')
  complete_receipts-Fine h actor [] fs = record { at = λ depot d. (d, (refl, fs)) }
  complete_receipts-Fine h actor (r ∷ rs) fs =
      Triple-bind (record_receipts-Fine h actor (dict_of (r ∷ rs)) fs) λ lines.
        given λ fs'. record {
          at = λ depot d. (d, marked h.received_by actor depot.stock.now lines fs');
        }
    where
      marked :
          (o : Option ℕ) (actor now : ℕ) (lines : List RequestLine)
          → LinesFine place h.branch_id arriving lines
          → Arrived h.branch_id (mark_received o actor now (record h { lines = lines }))
      marked none actor now lines f = (refl, f)
      marked (some u) actor now lines f = (refl, f)

  pub complete-Fine :
      (actor id : ℕ) (receipts : List (ℕ × LineReceipt)) (remarks : String)
      → Triple (DepotFine place) (complete actor id receipts remarks) (λ _. DepotFine place)
  unfolding complete stage
  complete-Fine actor id receipts remarks = Triple-bind (require-Fine id) λ h. given λ fine.
      raise_if-Triple (not (can_transition h.status completed)) _ _ λ can.
        Triple-bind
          (complete_receipts-Fine h actor receipts
            (arrived-Fine place h.branch_id h.status h.lines (completable-stage h.status can) fine))
          λ h'. given λ (same, fine'). raise_if-Triple (not (all_reconciled h'.lines)) _ _ λ all.
            record {
              at = λ depot d.
                  saved-Fine _ depot _ (rw same (closed-Fine place h.branch_id h'.lines all fine'))
                    d refl refl;
            }
