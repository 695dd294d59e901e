-- ===== src/OrderRequests/Service/Receiving.antt =====
-- order_requests/service.py: `receive` and `complete`.
use inventory_management_sys.Base.{
  ℕ, String, Bool, true, false, ◌&&◌, ◌||◌, not, Option, none, some, List, [], ◌∷◌, if◌then◌else◌,
}
use inventory_management_sys.Base.Int.{ℤ, pos, ◌+ℤ◌, ◌-ℤ◌, leb_ℤ, ltb_ℤ}
use inventory_management_sys.Base.Dict.{Dict, get, dict_of}
use inventory_management_sys.Base.Result.{business_rule, Tx, pure, raise_if, gets, ◌>>=◌, ◌>>◌}
use inventory_management_sys.OrderRequests.{
  received, completed, can_transition, receive_outcome, is_balanced,
}
use inventory_management_sys.OrderRequests.Tables.{
  RequestLine, RequestHeader, received_event, Depot, in_stock, save_header,
}
use inventory_management_sys.OrderRequests.Repository.{receive_line}
use inventory_management_sys.OrderRequests.Service.{require, audit, ledger_entry}
use inventory_management_sys.OrderRequests.Service.Lines.{or_zero, or_other}

-- Receipt: each named line has its quantities written, if they balance.
pub record LineReceipt : Type 0 where
  pub received_qty : Option ℤ
  pub missing_qty : Option ℤ
  pub damaged_qty : Option ℤ
  pub extra_qty : Option ℤ

abbrev pub received_as : RequestLine → LineReceipt → RequestLine
received_as line r = record line {
  received_qty = some (or_other r.received_qty (or_zero line.received_qty));
  missing_qty = some (or_other r.missing_qty (or_zero line.missing_qty));
  damaged_qty = some (or_other r.damaged_qty (or_zero line.damaged_qty));
  extra_qty = some (or_other r.extra_qty (or_zero line.extra_qty));
}

abbrev pub line_balances : RequestLine → Bool
line_balances line =
    is_balanced line.issued_qty (or_zero line.extra_qty) (or_zero line.received_qty)
      (or_zero line.missing_qty) (or_zero line.damaged_qty)

-- `_apply_receipts`, for one line.
abbrev pub apply_receipt : RequestLine → Option LineReceipt → Tx Depot RequestLine
apply_receipt line none = pure line
apply_receipt line (some r) = do
  raise_if (not (line_balances (received_as line r)))
      (business_rule "Receipt quantities do not reconcile.")
  pure (received_as line r)

unfoldable pub apply_receipts : Dict LineReceipt → List RequestLine → Tx Depot (List RequestLine)
apply_receipts receipts [] = pure []
apply_receipts receipts (line ∷ lines) = do
  line' ← apply_receipt line (get line.id receipts)
  lines' ← apply_receipts receipts lines
  pure (line' ∷ lines')

-- For a transfer, the destination is credited with what the receipt adds to the prior one.
abbrev pub credit_line :
    RequestHeader → ℕ → RequestLine → RequestLine → Option ℕ → Tx Depot (Unit {0})
credit_line h actor prior line none = pure tt
credit_line h actor prior line (some dest) = in_stock (
    receive_line h.id actor line dest (or_zero line.received_qty -ℤ or_zero prior.received_qty)
      (or_zero line.damaged_qty -ℤ or_zero prior.damaged_qty))

abbrev pub credit_named :
    RequestHeader → ℕ → RequestLine → RequestLine → Option LineReceipt → Tx Depot (Unit {0})
credit_named h actor prior line none = pure tt
credit_named h actor prior line (some r) = do
  credit_line h actor prior line h.destination_branch_id
  ledger_entry h line received_event actor

unfoldable pub credit_lines :
    RequestHeader → ℕ → Dict LineReceipt → List RequestLine → List RequestLine → Tx Depot (Unit {0})
credit_lines h actor receipts (prior ∷ priors) (line ∷ lines) = do
  credit_named h actor prior line (get line.id receipts)
  credit_lines h actor receipts priors lines
credit_lines h actor receipts _ _ = pure tt

-- `_record_receipts`
unfoldable pub record_receipts : RequestHeader → ℕ → Dict LineReceipt → Tx Depot (List RequestLine)
record_receipts h actor receipts = do
  lines ← apply_receipts receipts h.lines
  credit_lines (record h { lines = lines }) actor receipts h.lines lines
  pure lines

-- What is accounted for of each issued line, and what was issued and came extra.
abbrev pub accounted_pair : RequestLine → ℤ × ℤ
accounted_pair line = (
  elim line.received_qty [
    | none ↦ pos 0
    | some q ↦ q +ℤ or_zero line.missing_qty +ℤ or_zero line.damaged_qty
  ],
  line.issued_qty +ℤ or_zero line.extra_qty,
)

abbrev pub accounted : List RequestLine → List (ℤ × ℤ)
accounted [] = []
accounted (line ∷ lines) =
    let rest = accounted lines in
    if ltb_ℤ (pos 0) line.issued_qty then accounted_pair line ∷ rest else rest

unfoldable pub receive : ℕ → ℕ → List (ℕ × LineReceipt) → Option String → Tx Depot (Unit {0})
receive actor request_id receipts remarks = do
  h ← require request_id
  raise_if (not (can_transition h.status received))
      (business_rule "Only an issued / in-transit transfer can be received")
  lines ← record_receipts h actor (dict_of receipts)
  now ← gets (λ (depot : Depot). depot.stock.now)
  let outcome = receive_outcome (accounted lines)
  let h' = record h {
    lines = lines;
    status = outcome;
    received_by = some actor;
    received_date = some now;
    completion_remarks =
        or_other (elim remarks [ none ↦ none | some c ↦ some (some c) ]) h.completion_remarks;
  }
  save_header h'
  audit h' actor "received" (some h.status) outcome

-- Completion: every issued line has a receipt that balances.
abbrev pub is_reconciled : RequestLine → Bool
is_reconciled line =
    leb_ℤ line.issued_qty (pos 0)
    || elim line.received_qty [ none ↦ false | some q ↦ line_balances line ]

abbrev pub all_reconciled : List RequestLine → Bool
all_reconciled [] = true
all_reconciled (line ∷ lines) = is_reconciled line && all_reconciled lines

-- `if header.received_by is None:`
abbrev pub mark_received : Option ℕ → ℕ → ℕ → RequestHeader → RequestHeader
mark_received none actor now h = record h { received_by = some actor; received_date = some now }
mark_received (some u) actor now h = h

abbrev pub complete_receipts : RequestHeader → ℕ → List (ℕ × LineReceipt) → Tx Depot RequestHeader
complete_receipts h actor [] = pure h
complete_receipts h actor (r ∷ rs) = do
  lines ← record_receipts h actor (dict_of (r ∷ rs))
  now ← gets (λ (depot : Depot). depot.stock.now)
  pure (mark_received h.received_by actor now (record h { lines = lines }))

unfoldable pub complete : ℕ → ℕ → List (ℕ × LineReceipt) → String → Tx Depot (Unit {0})
complete actor request_id receipts remarks = do
  h ← require request_id
  raise_if (not (can_transition h.status completed))
      (business_rule "Only a received / issued transfer can be completed")
  h' ← complete_receipts h actor receipts
  raise_if (not (all_reconciled h'.lines)) (business_rule "Receipt quantities do not reconcile.")
  now ← gets (λ (depot : Depot). depot.stock.now)
  let h'' = record h' {
    status = completed;
    completed_by = some actor;
    completed_date = some now;
    completion_remarks = some remarks;
  }
  save_header h''
  audit h'' actor "completed" (some h.status) completed
