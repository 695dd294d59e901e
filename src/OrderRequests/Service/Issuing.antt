-- ===== src/OrderRequests/Service/Issuing.antt =====
-- order_requests/service.py: `issue`.
use inventory_management_sys.Base.{
  ℕ, Bool, true, false, not, Option, none, some, List, [], ◌∷◌, map, if◌then◌else◌,
}
use inventory_management_sys.Base.Int.{ℤ, pos, ◌-ℤ◌, leb_ℤ, ltb_ℤ, min_ℤ, max_ℤ}
use inventory_management_sys.Base.Dict.{Dict, get, dict_of}
use inventory_management_sys.Base.Result.{business_rule, Tx, pure, raise_if, gets, ◌>>=◌, ◌>>◌}
use inventory_management_sys.OrderRequests.{issued, can_transition, issue_outcome, total_of}
use inventory_management_sys.OrderRequests.Tables.{
  RequestLine, RequestHeader, consumed, issued_event, Depot, in_stock, save_header,
}
use inventory_management_sys.OrderRequests.Repository.{LineResult, issue_line, transfer_line}
use inventory_management_sys.OrderRequests.Service.{require, audit, ledger_entry}
use inventory_management_sys.OrderRequests.Service.Lines.{or_refuse, or_other}

-- Issue: of each line what is wanted, at most what is still owed.
abbrev pub owed : RequestLine → ℤ
owed line = line.approved_qty -ℤ line.issued_qty

abbrev pub issue_qty : Dict ℤ → RequestLine → ℤ
issue_qty wanted line =
    max_ℤ (pos 0) (min_ℤ (or_other (get line.id wanted) (owed line)) (owed line))

abbrev pub take_line : RequestHeader → ℕ → RequestLine → ℤ → Option ℕ → Tx Depot LineResult
take_line h actor line qty none = in_stock (issue_line h.id actor line h.branch_id qty)
take_line h actor line qty (some dest) =
    in_stock (transfer_line h.id actor line h.branch_id dest qty)

unfoldable pub issue_one : RequestHeader → ℕ → RequestLine → ℤ → Tx Depot RequestLine
issue_one h actor line qty =
    if ltb_ℤ (pos 0) qty
    then (do
      result ← take_line h actor line qty h.destination_branch_id
      line' ← or_refuse result
      ledger_entry h line' consumed actor
      ledger_entry h line' issued_event actor
      pure line')
    else pure line

unfoldable pub issue_lines :
    RequestHeader → ℕ → Dict ℤ → List RequestLine → Tx Depot (List RequestLine)
issue_lines h actor wanted [] = pure []
issue_lines h actor wanted (line ∷ lines) = do
  line' ← issue_one h actor line (issue_qty wanted line)
  lines' ← issue_lines h actor wanted lines
  pure (line' ∷ lines')

abbrev pub issued_pair : RequestLine → ℤ × ℤ
issued_pair line = (line.issued_qty, line.approved_qty)

abbrev pub is_transfer : RequestHeader → Bool
is_transfer h = elim h.destination_branch_id [ none ↦ false | some d ↦ true ]

unfoldable pub issue : ℕ → ℕ → List (ℕ × ℤ) → Tx Depot (Unit {0})
issue actor request_id wanted = do
  h ← require request_id
  raise_if (not (can_transition h.status issued))
      (business_rule "Only approved requests can be issued")
  lines ← issue_lines h actor (dict_of wanted) h.lines
  let pairs = map issued_pair lines
  raise_if (leb_ℤ (total_of pairs) (pos 0)) (business_rule "Nothing to issue")
  now ← gets (λ (depot : Depot). depot.stock.now)
  let outcome = issue_outcome pairs (is_transfer h)
  let h' = record h {
    lines = lines;
    status = outcome;
    issued_by = some actor;
    issued_date = some now;
  }
  save_header h'
  audit h' actor "issued" (some h.status) outcome
