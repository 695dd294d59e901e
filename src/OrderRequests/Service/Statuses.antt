-- ===== src/OrderRequests/Service/Statuses.antt =====
-- What the calls of the order-request service read and write of the requests: which steps leave
-- the headers alone, and what writing one back does to the statuses.
pub mod Moving
pub mod Calls
pub mod Histories
use inventory_management_sys.Base.{
  ℕ, ◌≡◌, refl, ◌⊎◌, inl, inr, Bool, true, false, Bool-cases, Option, none, some, List, [], ◌∷◌,
  ◌==◌, arith, if◌then◌else◌, not, ◌&&◌, ◌∙◌,
}
use inventory_management_sys.Base.Int.{ℤ, pos, ◌-ℤ◌, leb_ℤ, ltb_ℤ}
use inventory_management_sys.Base.Dict.{Dict, get, dict_of}
use inventory_management_sys.Base.Table.{find_row, set_row, find-set_row, find_row-key}
use inventory_management_sys.Base.Result.{
  AppError, Tx, Result, ok, err, or_raise, pure, Ensures, Triple, Triple-bind, given, ◌>>=◌, ◌>>◌,
}
use inventory_management_sys.Stock.Tables.{Db}
use inventory_management_sys.Stock.Soundness.Reads.{raise_if-Triple}
use inventory_management_sys.OrderRequests.{RequestStatus, draft, pending, can_transition}
use inventory_management_sys.OrderRequests.Tables.{
  RequestLine, RequestHeader, TransferEvent, consumed, issued_event, released, reserved,
  received_event, Depot, header_key, in_stock,
}
use inventory_management_sys.OrderRequests.Repository.{
  LineResult, refused, updated, release_reservations, reserve_line, issue_line, transfer_line,
  receive_line,
}
use inventory_management_sys.OrderRequests.Service.{require, ledger_entry}
use inventory_management_sys.OrderRequests.Service.Lines.{or_refuse, or_zero}
use inventory_management_sys.OrderRequests.Service.Approving.{
  hold_line, hold_lines, ledger_each, release_all,
}
use inventory_management_sys.OrderRequests.Service.Issuing.{
  issue_qty, take_line, issue_one, issue_lines,
}
use inventory_management_sys.OrderRequests.Service.Receiving.{
  LineReceipt, received_as, line_balances, apply_receipt, apply_receipts, credit_line, credit_named,
  credit_lines, record_receipts, mark_received, complete_receipts,
}

abbrev pub status_in : Option RequestHeader → Option RequestStatus
status_in none = none
status_in (some h) = some h.status

abbrev pub status_of : ℕ → Depot → Option RequestStatus
status_of k depot = status_in (find_row header_key k depot.headers)

-- A request keeps its status or makes a step that the table allows, or it is new.
abbrev pub Follows : Option RequestStatus → Option RequestStatus → Type 0
Follows none none = Unit
Follows none (some t) = (t ≡ draft) ⊎ (t ≡ pending)
Follows (some s) (some t) = (t ≡ s) ⊎ (can_transition s t ≡ true)
Follows (some s) none = ⊥

pub Follows-same : (o : Option RequestStatus) → Follows o o
Follows-same none = tt
Follows-same (some s) = inl refl

Follows-found :
    (o : Option RequestHeader) (h h' : RequestHeader)
    → o ≡ some h
    → can_transition h.status h'.status ≡ true
    → Follows (status_in o) (some h'.status)
Follows-found o h h' e step = rw e (inr step)

-- Writing a request back a step further.
set_row-Follows :
    (k : ℕ) (headers : List RequestHeader) (h h' : RequestHeader)
    → find_row header_key h'.id headers ≡ some h
    → can_transition h.status h'.status ≡ true
    → Follows
        (status_in (find_row header_key k headers))
        (status_in (find_row header_key k (set_row header_key h' headers)))
set_row-Follows k headers h h' found step =
    rw (find-set_row header_key k h' h headers found) (elim (Bool-cases (h'.id == k)) [
      | inl here ↦ rw here (
          Follows-found (find_row header_key k headers) h h' (cc (found, eq_of_test h'.id k here))
            step)
      | inr elsewhere ↦ rw elsewhere (Follows-same (status_in (find_row header_key k headers)))
    ])
  where
    eq_of_test : (i j : ℕ) → (i == j) ≡ true → i ≡ j
    eq_of_test i j e = ground arith

module _ (depot : Depot) where
  abbrev pub Same : Depot → Type 0
  Same depot' = depot'.headers ≡ depot.headers

  abbrev pub FoundAs : ℕ → RequestHeader → Type 0
  FoundAs id h = find_row header_key id depot.headers ≡ some h

  pub require-FoundAs : (id : ℕ) → Triple Same (require id) (λ h depot'. Same depot' × FoundAs id h)
  require-FoundAs id = record {
    at = λ depot' same. go depot' same (find_row header_key id depot'.headers) refl;
  }
    where
      go :
          (depot' : Depot)
          → Same depot'
          → (o : Option RequestHeader) → find_row header_key id depot'.headers ≡ o
          → Ensures
              (λ h depot'. Same depot' × FoundAs id h)
              (or_raise o (AppError.not_found "Order request not found") depot')
      go depot' same none e = tt
      go depot' same (some h) e = (same, rw same at e)

  pub in_stock-Same : {A : Type 0} (m : Tx Db A) → Triple Same (in_stock m) (λ _. Same)
  in_stock-Same {A} m = record { at = λ depot' same. go depot' same (m depot'.stock) }
    where
      go :
          (depot' : Depot)
          → Same depot'
          → (r : Result (A × Db))
          → Ensures
              (λ _. Same)
              (elim r [ ok (a, db) ↦ ok (a, record depot' { stock = db }) | err e ↦ err e ])
      go depot' same (ok (a, db)) = same
      go depot' same (err e) = tt

  -- A header that was found, written back a step further.
  pub saved-Follows :
      (k id : ℕ) (h h' : RequestHeader) (headers : List RequestHeader)
      → FoundAs id h
      → h'.id ≡ h.id
      → can_transition h.status h'.status ≡ true
      → headers ≡ depot.headers
      → Follows
          (status_of k depot)
          (status_in (find_row header_key k (set_row header_key h' headers)))
  saved-Follows k id h h' headers found same_id step same = rw same (
      set_row-Follows k depot.headers h h'
        (rw (same_id ∙ find_row-key header_key id h depot.headers found) found) step)
