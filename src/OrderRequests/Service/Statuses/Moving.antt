-- ===== src/OrderRequests/Service/Statuses/Moving.antt =====
-- The loops over the lines of a request leave the headers alone.
use inventory_management_sys.Base.{
  ℕ, ◌≡◌, refl, inl, inr, Bool, true, false, Bool-cases, Option, none, some, List, [], ◌∷◌,
  if◌then◌else◌, not,
}
use inventory_management_sys.Base.Int.{ℤ, pos, ◌-ℤ◌, leb_ℤ, ltb_ℤ}
use inventory_management_sys.Base.Dict.{Dict, get, dict_of}
use inventory_management_sys.Base.Result.{pure, Triple, Triple-bind, ◌>>=◌, ◌>>◌}
use inventory_management_sys.Stock.Soundness.Reads.{raise_if-Triple}
use inventory_management_sys.OrderRequests.Tables.{
  RequestLine, RequestHeader, consumed, issued_event, released, reserved, Depot, in_stock,
}
use inventory_management_sys.OrderRequests.Repository.{
  release_reservations, reserve_line, issue_line, transfer_line, receive_line,
}
use inventory_management_sys.OrderRequests.Service.{ledger_entry}
use inventory_management_sys.OrderRequests.Service.Lines.{or_refuse, or_zero}
use inventory_management_sys.OrderRequests.Service.Approving.{
  hold_line, hold_lines, ledger_each, release_all,
}
use inventory_management_sys.OrderRequests.Service.Issuing.{
  issue_qty, take_line, issue_one, issue_lines,
}
use inventory_management_sys.OrderRequests.Service.Receiving.{
  LineReceipt, received_as, line_balances, apply_receipt, apply_receipts, credit_line, credit_named,
  credit_lines, record_receipts, mark_received, complete_receipts,
}
use inventory_management_sys.OrderRequests.Service.Keeping.Approving.{or_refuse-keeps}
use inventory_management_sys.OrderRequests.Service.Statuses.{Same, in_stock-Same}

module _ (depot : Depot) (h : RequestHeader) (actor : ℕ) where
  hold_line-Same :
      (line : RequestLine) → Triple (Same depot) (hold_line h actor line) (λ _. Same depot)
  unfolding hold_line
  hold_line-Same line = record {
    at = λ depot' same. elim (Bool-cases (leb_ℤ line.approved_qty (pos 0))) [
      | inl nothing ↦ rw nothing same
      | inr positive ↦ rw positive (held.at depot' same)
    ];
  }
    where
      held :
          Triple
            (Same depot)
            (do
              result ← in_stock (reserve_line line h.branch_id line.approved_qty actor)
              or_refuse result
              ledger_entry h line reserved actor)
            (λ _. Same depot)
      held =
          Triple-bind (in_stock-Same depot (reserve_line line h.branch_id line.approved_qty actor))
            λ result. Triple-bind (or_refuse-keeps result) λ line'. record { at = λ d same. same }

  pub hold_lines-Same :
      (lines : List RequestLine) → Triple (Same depot) (hold_lines h actor lines) (λ _. Same depot)
  unfolding hold_lines
  hold_lines-Same [] = record { at = λ d same. same }
  hold_lines-Same (line ∷ lines) = Triple-bind (hold_line-Same line) λ u. hold_lines-Same lines

  ledger_each-Same :
      (lines : List RequestLine) → Triple (Same depot) (ledger_each h actor lines) (λ _. Same depot)
  ledger_each-Same [] = record { at = λ d same. same }
  ledger_each-Same (line ∷ lines) = Triple-bind (released_entry line) λ u. ledger_each-Same lines
    where
      released_entry :
          (line : RequestLine)
          → Triple (Same depot) (ledger_entry h line released actor) (λ _. Same depot)
      released_entry line = record { at = λ d same. same }

  pub release_if-Same :
      (b : Bool)
      → Triple (Same depot) (if b then release_all h actor else pure tt) (λ _. Same depot)
  release_if-Same true =
      Triple-bind (in_stock-Same depot (release_reservations h.lines actor))
        λ u. ledger_each-Same h.lines
  release_if-Same false = record { at = λ d same. same }

  take_line-Same :
      (line : RequestLine) (qty : ℤ) (dest : Option ℕ)
      → Triple (Same depot) (take_line h actor line qty dest) (λ _. Same depot)
  take_line-Same line qty none = in_stock-Same depot (issue_line h.id actor line h.branch_id qty)
  take_line-Same line qty (some d) =
      in_stock-Same depot (transfer_line h.id actor line h.branch_id d qty)

  issue_one-Same :
      (line : RequestLine) (qty : ℤ)
      → Triple (Same depot) (issue_one h actor line qty) (λ _. Same depot)
  unfolding issue_one
  issue_one-Same line qty = record {
    at = λ d same. elim (Bool-cases (ltb_ℤ (pos 0) qty)) [
      | inl positive ↦ rw positive (taking.at d same)
      | inr nothing ↦ rw nothing same
    ];
  }
    where
      taking :
          Triple
            (Same depot)
            (do
              result ← take_line h actor line qty h.destination_branch_id
              line' ← or_refuse result
              ledger_entry h line' consumed actor
              ledger_entry h line' issued_event actor
              pure line')
            (λ _. Same depot)
      taking =
          Triple-bind (take_line-Same line qty h.destination_branch_id)
            λ result. Triple-bind (or_refuse-keeps result) λ line'. record { at = λ d same. same }

  pub issue_lines-Same :
      (wanted : Dict ℤ) (lines : List RequestLine)
      → Triple (Same depot) (issue_lines h actor wanted lines) (λ _. Same depot)
  unfolding issue_lines
  issue_lines-Same wanted [] = record { at = λ d same. same }
  issue_lines-Same wanted (line ∷ lines) =
      Triple-bind (issue_one-Same line (issue_qty wanted line)) λ line'.
        Triple-bind (issue_lines-Same wanted lines) λ lines'. record { at = λ d same. same }

  credit_line-Same :
      (prior line : RequestLine) (dest : Option ℕ)
      → Triple (Same depot) (credit_line h actor prior line dest) (λ _. Same depot)
  credit_line-Same prior line none = record { at = λ d same. same }
  credit_line-Same prior line (some dest) = in_stock-Same depot (
      receive_line h.id actor line dest (or_zero line.received_qty -ℤ or_zero prior.received_qty)
        (or_zero line.damaged_qty -ℤ or_zero prior.damaged_qty))

  credit_named-Same :
      (prior line : RequestLine) (o : Option LineReceipt)
      → Triple (Same depot) (credit_named h actor prior line o) (λ _. Same depot)
  credit_named-Same prior line none = record { at = λ d same. same }
  credit_named-Same prior line (some r) =
      Triple-bind (credit_line-Same prior line h.destination_branch_id)
        λ u. record { at = λ d same. same }

  pub credit_lines-Same :
      (receipts : Dict LineReceipt) (priors lines : List RequestLine)
      → Triple (Same depot) (credit_lines h actor receipts priors lines) (λ _. Same depot)
  unfolding credit_lines
  credit_lines-Same receipts [] lines = record { at = λ d same. same }
  credit_lines-Same receipts (prior ∷ priors) [] = record { at = λ d same. same }
  credit_lines-Same receipts (prior ∷ priors) (line ∷ lines) =
      Triple-bind (credit_named-Same prior line (get line.id receipts))
        λ u. credit_lines-Same receipts priors lines

module _ (depot : Depot) where
  apply_receipt-Same :
      (line : RequestLine) (o : Option LineReceipt)
      → Triple (Same depot) (apply_receipt line o) (λ _. Same depot)
  apply_receipt-Same line none = record { at = λ d same. same }
  apply_receipt-Same line (some r) =
      raise_if-Triple (not (line_balances (received_as line r))) _ _
        λ e. record { at = λ d same. same }

  apply_receipts-Same :
      (receipts : Dict LineReceipt) (lines : List RequestLine)
      → Triple (Same depot) (apply_receipts receipts lines) (λ _. Same depot)
  unfolding apply_receipts
  apply_receipts-Same receipts [] = record { at = λ d same. same }
  apply_receipts-Same receipts (line ∷ lines) =
      Triple-bind (apply_receipt-Same line (get line.id receipts)) λ line'.
        Triple-bind (apply_receipts-Same receipts lines) λ lines'. record { at = λ d same. same }

  pub record_receipts-Same :
      (h : RequestHeader) (actor : ℕ) (receipts : Dict LineReceipt)
      → Triple (Same depot) (record_receipts h actor receipts) (λ _. Same depot)
  unfolding record_receipts
  record_receipts-Same h actor receipts =
      Triple-bind (apply_receipts-Same receipts h.lines) λ lines.
        Triple-bind
          (credit_lines-Same depot (record h { lines = lines }) actor receipts h.lines lines)
          λ u. record { at = λ d same. same }

  pub complete_receipts-Same :
      (h : RequestHeader) (actor : ℕ) (receipts : List (ℕ × LineReceipt))
      → Triple
          (Same depot)
          (complete_receipts h actor receipts)
          (λ h' d. Same depot d × (h'.id ≡ h.id))
  complete_receipts-Same h actor [] = record { at = λ d same. (same, refl) }
  complete_receipts-Same h actor (r ∷ rs) =
      Triple-bind (record_receipts-Same h actor (dict_of (r ∷ rs))) λ lines. record {
        at = λ d same. (same, marked h.received_by d.stock.now (record h { lines = lines }));
      }
    where
      marked :
          (o : Option ℕ) (now : ℕ) (h' : RequestHeader) → (mark_received o actor now h').id ≡ h'.id
      marked none now h' = refl
      marked (some u) now h' = refl
