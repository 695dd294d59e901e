-- ===== src/OrderRequests/Service/Keeping/Issuing.antt =====
-- `issue` keeps the tables fine.
use inventory_management_sys.Base.{
  ℕ, ◌≡◌, refl, Bool, true, false, not, inl, inr, Bool-cases, Option, none, some, List, [], ◌∷◌,
  map, arith,
}
use inventory_management_sys.Base.Int.{ℤ, pos, ◌+ℤ◌, ◌≤ℤ◌, leb_ℤ, ltb_ℤ}
use inventory_management_sys.Base.Dict.{Dict, dict_of}
use inventory_management_sys.Base.Result.{Triple, Triple-bind, given, pure, ◌>>=◌, ◌>>◌}
use inventory_management_sys.Stock.Repository.{find}
use inventory_management_sys.Stock.Soundness.Reads.{raise_if-Triple}
use inventory_management_sys.OrderRequests.{issued, can_transition, issue_outcome, total_of}
use inventory_management_sys.OrderRequests.Tables.{
  RequestLine, RequestHeader, consumed, issued_event,
}
use inventory_management_sys.OrderRequests.Repository.{
  LineResult, refused, updated, issue_line, transfer_line,
}
use inventory_management_sys.OrderRequests.Service.{ledger_entry}
use inventory_management_sys.OrderRequests.Service.Lines.{or_refuse}
use inventory_management_sys.OrderRequests.Service.Issuing.{
  owed, issue_qty, take_line, issue_one, issue_lines, issued_pair, is_transfer, issue,
}
use inventory_management_sys.Stock.Places.{Place}
use inventory_management_sys.OrderRequests.Stock.Taking.{issue_line-Kept, transfer_line-Kept}
use inventory_management_sys.OrderRequests.Service.Keeping.{
  under_way, stage, LineFine, LinesFine, DepotFine, require-Fine, in_stock-Fine, saved-Fine,
}
use inventory_management_sys.OrderRequests.Service.Keeping.Opened.{
  Taken, take_from-Taken, both_keep, opened-Fine, at_most_owed, more-Fine,
}

not_zero : (qty : ℤ) → ltb_ℤ (pos 0) qty ≡ true → leb_ℤ qty (pos 0) ≡ false
not_zero qty h = ground arith

issued-under_way :
    (pairs : List (ℤ × ℤ)) (to_branch : Bool) → stage (issue_outcome pairs to_branch) ≡ under_way
unfolding issue_outcome stage
issued-under_way pairs to_branch = ground arith

module _ (place : Place) (h : RequestHeader) (actor : ℕ) where
  take_line-Fine :
      (line : RequestLine) (qty : ℤ) (dest : Option ℕ)
      → LineFine place h.branch_id under_way line
      → ltb_ℤ (pos 0) qty ≡ true
      → Triple
          (DepotFine place)
          (take_line h actor line qty dest)
          (λ r depot. DepotFine place depot × Taken line qty r)
  unfolding issue_line transfer_line
  take_line-Fine line qty none f positive = in_stock-Fine (
      both_keep line qty
        (issue_line-Kept place line h.branch_id f.at_product f.at_branch h.id actor qty)
        (λ db.
          rw (not_zero qty positive)
            (take_from-Taken line qty _ actor (find line.product_id h.branch_id db.inventory) db)))
  take_line-Fine line qty (some dest) f positive = in_stock-Fine (
      both_keep line qty
        (transfer_line-Kept place line h.branch_id f.at_product f.at_branch h.id actor dest qty)
        (λ db.
          rw (not_zero qty positive)
            (take_from-Taken line qty _ actor (find line.product_id h.branch_id db.inventory) db)))

  or_refuse-Fine :
      (line : RequestLine) (qty : ℤ) (r : LineResult)
      → Taken line qty r
      → LineFine place h.branch_id under_way (record line { issued_qty = line.issued_qty +ℤ qty })
      → Triple
          (DepotFine place)
          (or_refuse r)
          (λ line' depot. DepotFine place depot × LineFine place h.branch_id under_way line')
  or_refuse-Fine line qty (refused message) t f = record { at = λ depot d. tt }
  or_refuse-Fine line qty (updated line') t f = record { at = λ depot d. (d, rw t f) }

  issue_one-Fine :
      (line : RequestLine) (qty : ℤ)
      → qty ≤ℤ owed line
      → LineFine place h.branch_id under_way line
      → Triple
          (DepotFine place)
          (issue_one h actor line qty)
          (λ line' depot. DepotFine place depot × LineFine place h.branch_id under_way line')
  unfolding issue_one
  issue_one-Fine line qty le f = record {
    at = λ depot d. elim (Bool-cases (ltb_ℤ (pos 0) qty)) [
      | inl positive ↦ rw positive ((taking positive).at depot d)
      | inr nothing ↦ rw nothing (d, f)
    ];
  }
    where
      taking :
          ltb_ℤ (pos 0) qty ≡ true
          → Triple
              (DepotFine place)
              (do
                result ← take_line h actor line qty h.destination_branch_id
                line' ← or_refuse result
                ledger_entry h line' consumed actor
                ledger_entry h line' issued_event actor
                pure line')
              (λ line' depot. DepotFine place depot × LineFine place h.branch_id under_way line')
      taking positive =
          Triple-bind (take_line-Fine line qty h.destination_branch_id f positive) λ result.
            given λ t.
              Triple-bind
                (or_refuse-Fine line qty result t
                  (more-Fine place h.branch_id line qty (ground arith) le f))
                λ line'. record {
                  at = λ depot (d, f'). (record { kept = d.kept; headers = d.headers }, f');
                }

  issue_lines-Fine :
      (wanted : Dict ℤ) (lines : List RequestLine)
      → LinesFine place h.branch_id under_way lines
      → Triple
          (DepotFine place)
          (issue_lines h actor wanted lines)
          (λ lines' depot. DepotFine place depot × LinesFine place h.branch_id under_way lines')
  unfolding issue_lines
  issue_lines-Fine wanted [] fs = record { at = λ depot d. (d, tt) }
  issue_lines-Fine wanted (line ∷ lines) (f, fs) =
      Triple-bind
        (issue_one-Fine line (issue_qty wanted line) (at_most_owed place h.branch_id wanted line f)
          f)
        λ line'. given λ f'.
          Triple-bind (issue_lines-Fine wanted lines fs)
            λ lines'. record { at = λ depot (d, fs'). (d, (f', fs')) }

module _ (place : Place) where
  pub issue-Fine :
      (actor id : ℕ) (wanted : List (ℕ × ℤ))
      → Triple (DepotFine place) (issue actor id wanted) (λ _. DepotFine place)
  unfolding issue
  issue-Fine actor id wanted = Triple-bind (require-Fine id) λ h. given λ fine.
      raise_if-Triple (not (can_transition h.status issued)) _ _ λ can.
        Triple-bind
          (issue_lines-Fine place h actor (dict_of wanted) h.lines
            (opened-Fine place h.branch_id h.status h.lines can fine))
          λ lines. given λ fine'.
            raise_if-Triple (leb_ℤ (total_of (map issued_pair lines)) (pos 0)) _ _ λ something.
              record {
                at = λ depot d.
                    saved-Fine _ depot _
                      (rw (issued-under_way (map issued_pair lines) (is_transfer h)) fine') d refl
                      refl;
              }
