-- ===== src/OrderRequests/Service/Keeping/Lines.antt =====
-- The lines of a request on their way from one stage to the next: as a receipt and a completion leave
-- them.
use inventory_management_sys.Base.{
  ℕ, ◌≡◌, Bool, true, false, ◌&&◌, not, inl, inr, ◌⊎◌, Option, none, some, List, [], ◌∷◌, All-map,
  arith,
}
use inventory_management_sys.Base.Dict.{Dict, get}
use inventory_management_sys.Base.Result.{Triple, Triple-bind, given}
use inventory_management_sys.Stock.Soundness.Reads.{raise_if-Triple}
use inventory_management_sys.OrderRequests.{RequestStatus}
use inventory_management_sys.OrderRequests.Tables.{RequestLine}
use inventory_management_sys.OrderRequests.Service.Receiving.{
  LineReceipt, received_as, line_balances, apply_receipt, apply_receipts, is_reconciled,
  all_reconciled,
}
use inventory_management_sys.Stock.Places.{Place}
use inventory_management_sys.OrderRequests.Service.Keeping.{
  under_way, arriving, closed, stage, balances_received, is_unreceived, LineFine, LinesFine,
  DepotFine,
}

unreceived-balances :
    (line : RequestLine) → is_unreceived line ≡ true → balances_received line ≡ true
unreceived-balances line h = ground arith

module _ (place : Place) (branch : ℕ) where
  arrive-Fine :
      (line : RequestLine)
      → LineFine place branch under_way line
      → LineFine place branch arriving line
  arrive-Fine line f = record {
    at_product = f.at_product;
    at_branch = f.at_branch;
    requested_nonneg = f.requested_nonneg;
    approved_nonneg = f.approved_nonneg;
    approved_within = f.approved_within;
    issued_nonneg = f.issued_nonneg;
    issued_within = f.issued_within;
    is_settled = unreceived-balances line f.is_settled;
  }

  pub arrived-Fine :
      (s : RequestStatus) (lines : List RequestLine)
      → (stage s ≡ under_way) ⊎ (stage s ≡ arriving)
      → LinesFine place branch (stage s) lines
      → LinesFine place branch arriving lines
  arrived-Fine s lines (inl going) fs =
      All-map (LineFine place branch under_way) (LineFine place branch arriving) arrive-Fine lines
        (rw going at fs)
  arrived-Fine s lines (inr come) fs = rw come at fs

  received_as-Fine :
      (line : RequestLine) (r : LineReceipt)
      → not (line_balances (received_as line r)) ≡ false
      → LineFine place branch arriving line
      → LineFine place branch arriving (received_as line r)
  received_as-Fine line r e f = record {
    at_product = f.at_product;
    at_branch = f.at_branch;
    requested_nonneg = f.requested_nonneg;
    approved_nonneg = f.approved_nonneg;
    approved_within = f.approved_within;
    issued_nonneg = f.issued_nonneg;
    issued_within = f.issued_within;
    is_settled = is_true (line_balances (received_as line r)) e;
  }
    where
      is_true : (b : Bool) → not b ≡ false → b ≡ true
      is_true b e = ground arith

  apply_receipt-Fine :
      (line : RequestLine) (o : Option LineReceipt)
      → LineFine place branch arriving line
      → Triple
          (DepotFine place)
          (apply_receipt line o)
          (λ line' depot. DepotFine place depot × LineFine place branch arriving line')
  apply_receipt-Fine line none f = record { at = λ depot d. (d, f) }
  apply_receipt-Fine line (some r) f =
      raise_if-Triple (not (line_balances (received_as line r))) _ _
        λ e. record { at = λ depot d. (d, received_as-Fine line r e f) }

  pub apply_receipts-Fine :
      (receipts : Dict LineReceipt) (lines : List RequestLine)
      → LinesFine place branch arriving lines
      → Triple
          (DepotFine place)
          (apply_receipts receipts lines)
          (λ lines' depot. DepotFine place depot × LinesFine place branch arriving lines')
  unfolding apply_receipts
  apply_receipts-Fine receipts [] fs = record { at = λ depot d. (d, tt) }
  apply_receipts-Fine receipts (line ∷ lines) (f, fs) =
      Triple-bind (apply_receipt-Fine line (get line.id receipts) f) λ line'. given λ f'.
        Triple-bind (apply_receipts-Fine receipts lines fs)
          λ lines'. record { at = λ depot (d, fs'). (d, (f', fs')) }

  close-Fine :
      (line : RequestLine)
      → is_reconciled line ≡ true
      → LineFine place branch arriving line
      → LineFine place branch closed line
  close-Fine line e f = record {
    at_product = f.at_product;
    at_branch = f.at_branch;
    requested_nonneg = f.requested_nonneg;
    approved_nonneg = f.approved_nonneg;
    approved_within = f.approved_within;
    issued_nonneg = f.issued_nonneg;
    issued_within = f.issued_within;
    is_settled = both (balances_received line) (is_reconciled line) f.is_settled e;
  }
    where
      both : (a b : Bool) → a ≡ true → b ≡ true → (a && b) ≡ true
      both a b p q = ground arith

  pub closed-Fine :
      (lines : List RequestLine)
      → not (all_reconciled lines) ≡ false
      → LinesFine place branch arriving lines
      → LinesFine place branch closed lines
  closed-Fine [] e fs = tt
  closed-Fine (line ∷ lines) e (f, fs) =
      let (one, rest) = split (is_reconciled line) (all_reconciled lines) e in
      (close-Fine line one f, closed-Fine lines rest fs)
    where
      split : (a b : Bool) → not (a && b) ≡ false → (a ≡ true) × (not b ≡ false)
      split a b e = ground arith
