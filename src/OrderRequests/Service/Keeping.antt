-- ===== src/OrderRequests/Service/Keeping.antt =====
-- What the order-request service keeps of its tables: the stock is sound, and every line of every
-- request fits the stage that the request is in.
pub mod Approving
pub mod Issuing
pub mod Receiving
pub mod Lines
pub mod Opened
pub mod Calls
use inventory_management_sys.Base.{
  ℕ, String, ◌≡◌, refl, Bool, true, false, ◌&&◌, Option, none, some, List, [], ◌∷◌, All, arith,
}
use inventory_management_sys.Base.Int.{ℤ, pos, ◌≤ℤ◌}
use inventory_management_sys.Base.Table.{find_row, set_row, find_row-All, All-set_row}
use inventory_management_sys.Base.Result.{
  AppError, Tx, Result, ok, err, or_raise, Ensures, Ensures-map, Triple, pure,
}
use inventory_management_sys.Stock.Tables.{Db}
use inventory_management_sys.OrderRequests.{
  RequestStatus, partially_issued, issued, in_transit, partially_received, received, completed,
}
use inventory_management_sys.OrderRequests.Tables.{
  RequestLine, RequestHeader, TransferEvent, Depot, header_key, in_stock, save_header,
}
use inventory_management_sys.OrderRequests.Service.{require, ledger_entry}
use inventory_management_sys.OrderRequests.Service.Receiving.{line_balances, is_reconciled}
use inventory_management_sys.Stock.Places.{Place}
use inventory_management_sys.OrderRequests.Stock.Taking.{Kept}

-- Before any issue; between issue and receipt; between the first receipt and completion; after.
pub data Stage : Type 0 where
  early under_way arriving closed : Stage

unfoldable pub stage : RequestStatus → Stage
stage partially_issued = under_way
stage issued = under_way
stage in_transit = under_way
stage partially_received = arriving
stage received = arriving
stage completed = closed
stage _ = early

-- The most that may have been issued of a line.
abbrev pub limit : Stage → RequestLine → ℤ
limit early line = pos 0
limit _ line = line.approved_qty

-- A line that has a receipt balances.
abbrev pub balances_received : RequestLine → Bool
balances_received line = elim line.received_qty [ none ↦ true | some q ↦ line_balances line ]

abbrev pub is_unreceived : RequestLine → Bool
is_unreceived line = elim line.received_qty [ none ↦ true | some q ↦ false ]

abbrev pub settled : Stage → RequestLine → Bool
settled early line = is_unreceived line
settled under_way line = is_unreceived line
settled arriving line = balances_received line
settled closed line = balances_received line && is_reconciled line

pub record LineFine (place : Place) (branch : ℕ) (s : Stage) (line : RequestLine) : Type 0 where
  pub at_product : (place line.id).0 ≡ line.product_id
  pub at_branch : (place line.id).1 ≡ branch
  pub requested_nonneg : pos 0 ≤ℤ line.requested_qty
  pub approved_nonneg : pos 0 ≤ℤ line.approved_qty
  pub approved_within : line.approved_qty ≤ℤ line.requested_qty
  pub issued_nonneg : pos 0 ≤ℤ line.issued_qty
  pub issued_within : line.issued_qty ≤ℤ limit s line
  pub is_settled : settled s line ≡ true

abbrev pub LinesFine : Place → ℕ → Stage → List RequestLine → Type 0
LinesFine place branch s lines = All (LineFine place branch s) lines

abbrev pub HeaderFine : Place → RequestHeader → Type 0
HeaderFine place h = LinesFine place h.branch_id (stage h.status) h.lines

pub record DepotFine (place : Place) (depot : Depot) : Type 0 where
  pub kept : Kept place depot.stock
  pub headers : All (HeaderFine place) depot.headers

module _ {place : Place} where
  -- The header that `require` returns is fine.
  pub require-Fine :
      (id : ℕ)
      → Triple
          (DepotFine place)
          (require id)
          (λ h depot. DepotFine place depot × HeaderFine place h)
  require-Fine id = record {
    at = λ depot d. go depot d (find_row header_key id depot.headers) refl;
  }
    where
      go :
          (depot : Depot)
          → DepotFine place depot
          → (o : Option RequestHeader) → find_row header_key id depot.headers ≡ o
          → Ensures
              (λ h depot. DepotFine place depot × HeaderFine place h)
              (or_raise o (AppError.not_found "Order request not found") depot)
      go depot d none e = tt
      go depot d (some h) e =
          (d, find_row-All header_key (HeaderFine place) id h depot.headers e d.headers)

  -- What a transaction on the stock returns, and that it keeps the stock.
  pub in_stock-Fine :
      {A : Type 0} {Q : A → Type 0} {m : Tx Db A}
      → Triple (Kept place) m (λ a db. Kept place db × Q a)
      → Triple (DepotFine place) (in_stock m) (λ a depot. DepotFine place depot × Q a)
  in_stock-Fine {A} {Q} {m} t = record {
    at = λ depot d. go depot d (m depot.stock) (t.at depot.stock d.kept);
  }
    where
      go :
          (depot : Depot)
          → DepotFine place depot
          → (r : Result (A × Db)) → Ensures (λ a db. Kept place db × Q a) r
          → Ensures
              (λ a depot. DepotFine place depot × Q a)
              (elim r [ ok (a, db) ↦ ok (a, record depot { stock = db }) | err e ↦ err e ])
      go depot d (ok (a, db)) (k, q) = (record { kept = k; headers = d.headers }, q)
      go depot d (err e) s = tt

  pub in_stock-keeps :
      {A : Type 0} {m : Tx Db A}
      → Triple (Kept place) m (λ _. Kept place)
      → Triple (DepotFine place) (in_stock m) (λ _. DepotFine place)
  in_stock-keeps {A} {m} t = record {
    at = λ depot d.
        Ensures-map (in_stock m depot) (λ a depot' p. p.0)
          ((in_stock-Fine {Q = λ _. Unit}
              (record { at = λ db k. Ensures-map (m db) (λ a db' k'. (k', tt)) (t.at db k) })).at
            depot d);
  }

  pub ledger_entry-Fine :
      (h : RequestHeader) (line : RequestLine) (event : TransferEvent) (user : ℕ)
      → Triple (DepotFine place) (ledger_entry h line event user) (λ _. DepotFine place)
  ledger_entry-Fine h line event user = record {
    at = λ depot d. record { kept = d.kept; headers = d.headers };
  }

  pub saved-Fine :
      (h : RequestHeader) (depot depot' : Depot)
      → HeaderFine place h
      → DepotFine place depot
      → depot'.stock ≡ depot.stock
      → depot'.headers ≡ set_row header_key h depot.headers
      → DepotFine place depot'
  saved-Fine h depot depot' fine d es eh = record {
    kept = rw es d.kept;
    headers = rw eh (All-set_row header_key (HeaderFine place) h depot.headers fine d.headers);
  }
