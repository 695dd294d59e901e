-- ===== src/OrderRequests/Service/Leftover.antt =====
-- `receive` and `complete` leave every hold as it is.
use inventory_management_sys.Base.{
  ℕ, String, ◌≡◌, refl, ◌+◌, ◌&&◌, ◌||◌, not, inl, inr, Bool-cases, Option, none, some, List, [],
  ◌∷◌,
}
use inventory_management_sys.Base.Int.{ℤ, pos, ◌+ℤ◌, ◌-ℤ◌, eqb_ℤ, ltb_ℤ}
use inventory_management_sys.Base.Dict.{Dict, get, dict_of}
use inventory_management_sys.Base.Table.{find_row}
use inventory_management_sys.Base.Result.{
  not_found, Tx, Result, ok, err, or_raise, Ensures, Triple, Triple-bind, ◌>>=◌, ◌>>◌,
}
use inventory_management_sys.Stock.Tables.{Inventory, InventoryReservation, Db}
use inventory_management_sys.Stock.Repository.{find, save}
use inventory_management_sys.Stock.Context.{get_or_create_locked, or_create}
use inventory_management_sys.Stock.Soundness.Reads.{raise_if-Triple}
use inventory_management_sys.OrderRequests.{received, completed, can_transition}
use inventory_management_sys.OrderRequests.Tables.{
  RequestLine, RequestHeader, Depot, header_key, in_stock,
}
use inventory_management_sys.OrderRequests.Repository.{
  credit_good, credit_damaged, check_row, receive_line,
}
use inventory_management_sys.OrderRequests.Service.{require}
use inventory_management_sys.OrderRequests.Service.Lines.{or_zero}
use inventory_management_sys.OrderRequests.Service.Receiving.{
  LineReceipt, received_as, line_balances, apply_receipt, apply_receipts, credit_line, credit_named,
  credit_lines, record_receipts, receive, all_reconciled, complete_receipts, complete,
}

module _ (holds : List InventoryReservation) where
  abbrev InDb : Db → Type 0
  InDb db = db.reservations ≡ holds

  abbrev pub InDepot : Depot → Type 0
  InDepot depot = depot.stock.reservations ≡ holds

  module _ (request_id user : ℕ) (line : RequestLine) (dest : ℕ) where
    credit_good-holds :
        (q : ℤ) (inv : Inventory)
        → Triple InDb (credit_good request_id user line dest q inv) (λ _. InDb)
    unfolding credit_good
    credit_good-holds q inv = record {
      at = λ db h. elim (Bool-cases (eqb_ℤ q (pos 0))) [
        | inl nothing ↦ rw nothing h
        | inr something ↦ rw something h
      ];
    }

    credit_damaged-holds :
        (q : ℤ) (inv : Inventory)
        → Triple InDb (credit_damaged request_id user line dest q inv) (λ _. InDb)
    unfolding credit_damaged
    credit_damaged-holds q inv = record {
      at = λ db h. elim (Bool-cases (eqb_ℤ q (pos 0))) [
        | inl nothing ↦ rw nothing h
        | inr something ↦ rw something h
      ];
    }

    get_or_create-holds : Triple InDb (get_or_create_locked line.product_id dest) (λ _. InDb)
    unfolding get_or_create_locked
    get_or_create-holds = record { at = λ db h. go db h (find line.product_id dest db.inventory) }
      where
        go :
            (db : Db)
            → InDb db
            → (o : Option Inventory) → Ensures (λ _. InDb) (or_create line.product_id dest o db)
        go db h none = h
        go db h (some inv) = h

    credited :
        (q d : ℤ)
        → Triple InDb
            (do
              inv ← get_or_create_locked line.product_id dest
              check_row inv q d
              good ← credit_good request_id user line dest q inv
              both ← credit_damaged request_id user line dest d good
              save (record both { version = both.version + 1 }))
            (λ _. InDb)
    credited q d = Triple-bind get_or_create-holds λ inv.
        raise_if-Triple
          (ltb_ℤ (inv.qty_on_hand +ℤ q) (pos 0) || ltb_ℤ (inv.qty_damaged +ℤ d) (pos 0)) _ _
          λ fits.
            Triple-bind (credit_good-holds q inv)
              λ good. Triple-bind (credit_damaged-holds d good) λ both. record { at = λ db h. h }

    receive_line-holds :
        (q d : ℤ) → Triple InDb (receive_line request_id user line dest q d) (λ _. InDb)
    unfolding receive_line
    receive_line-holds q d = record {
      at = λ db h. elim (Bool-cases (eqb_ℤ q (pos 0) && eqb_ℤ d (pos 0))) [
        | inl nothing ↦ rw nothing h
        | inr something ↦ rw something ((credited q d).at db h)
      ];
    }

  in_stock-holds :
      {A : Type 0} {m : Tx Db A}
      → Triple InDb m (λ _. InDb)
      → Triple InDepot (in_stock m) (λ _. InDepot)
  in_stock-holds {A} {m} t = record {
    at = λ depot h. go depot (m depot.stock) (t.at depot.stock h);
  }
    where
      go :
          (depot : Depot) (r : Result (A × Db))
          → Ensures (λ _. InDb) r
          → Ensures
              (λ _. InDepot)
              (elim r [ ok (a, db) ↦ ok (a, record depot { stock = db }) | err e ↦ err e ])
      go depot (ok (a, db)) h = h
      go depot (err e) h = tt

  module _ (h : RequestHeader) (actor : ℕ) where
    credit_line-holds :
        (prior line : RequestLine) (dest : Option ℕ)
        → Triple InDepot (credit_line h actor prior line dest) (λ _. InDepot)
    credit_line-holds prior line none = record { at = λ depot i. i }
    credit_line-holds prior line (some dest) = in_stock-holds (
        receive_line-holds h.id actor line dest
          (or_zero line.received_qty -ℤ or_zero prior.received_qty)
          (or_zero line.damaged_qty -ℤ or_zero prior.damaged_qty))

    credit_named-holds :
        (prior line : RequestLine) (o : Option LineReceipt)
        → Triple InDepot (credit_named h actor prior line o) (λ _. InDepot)
    credit_named-holds prior line none = record { at = λ depot i. i }
    credit_named-holds prior line (some r) =
        Triple-bind (credit_line-holds prior line h.destination_branch_id)
          λ u. record { at = λ depot i. i }

    credit_lines-holds :
        (receipts : Dict LineReceipt) (priors lines : List RequestLine)
        → Triple InDepot (credit_lines h actor receipts priors lines) (λ _. InDepot)
    unfolding credit_lines
    credit_lines-holds receipts [] lines = record { at = λ depot i. i }
    credit_lines-holds receipts (prior ∷ priors) [] = record { at = λ depot i. i }
    credit_lines-holds receipts (prior ∷ priors) (line ∷ lines) =
        Triple-bind (credit_named-holds prior line (get line.id receipts))
          λ u. credit_lines-holds receipts priors lines

  apply_receipt-holds :
      (line : RequestLine) (o : Option LineReceipt)
      → Triple InDepot (apply_receipt line o) (λ _. InDepot)
  apply_receipt-holds line none = record { at = λ depot i. i }
  apply_receipt-holds line (some r) =
      raise_if-Triple (not (line_balances (received_as line r))) _ _
        λ e. record { at = λ depot i. i }

  apply_receipts-holds :
      (receipts : Dict LineReceipt) (lines : List RequestLine)
      → Triple InDepot (apply_receipts receipts lines) (λ _. InDepot)
  unfolding apply_receipts
  apply_receipts-holds receipts [] = record { at = λ depot i. i }
  apply_receipts-holds receipts (line ∷ lines) =
      Triple-bind (apply_receipt-holds line (get line.id receipts)) λ line'.
        Triple-bind (apply_receipts-holds receipts lines) λ lines'. record { at = λ depot i. i }

  record_receipts-holds :
      (h : RequestHeader) (actor : ℕ) (receipts : Dict LineReceipt)
      → Triple InDepot (record_receipts h actor receipts) (λ _. InDepot)
  unfolding record_receipts
  record_receipts-holds h actor receipts =
      Triple-bind (apply_receipts-holds receipts h.lines) λ lines.
        Triple-bind (credit_lines-holds (record h { lines = lines }) actor receipts h.lines lines)
          λ u. record { at = λ depot i. i }

  complete_receipts-holds :
      (h : RequestHeader) (actor : ℕ) (receipts : List (ℕ × LineReceipt))
      → Triple InDepot (complete_receipts h actor receipts) (λ _. InDepot)
  complete_receipts-holds h actor [] = record { at = λ depot i. i }
  complete_receipts-holds h actor (r ∷ rs) =
      Triple-bind (record_receipts-holds h actor (dict_of (r ∷ rs)))
        λ lines. record { at = λ depot i. i }

  require-holds : (id : ℕ) → Triple InDepot (require id) (λ _. InDepot)
  require-holds id = record { at = λ depot i. go depot i (find_row header_key id depot.headers) }
    where
      go :
          (depot : Depot)
          → InDepot depot
          → (o : Option RequestHeader)
          → Ensures (λ _. InDepot) (or_raise o (not_found "Order request not found") depot)
      go depot i none = tt
      go depot i (some h) = i

  receive-InDepot :
      (actor id : ℕ) (receipts : List (ℕ × LineReceipt)) (remarks : Option String)
      → Triple InDepot (receive actor id receipts remarks) (λ _. InDepot)
  unfolding receive
  receive-InDepot actor id receipts remarks = Triple-bind (require-holds id) λ h.
      raise_if-Triple (not (can_transition h.status received)) _ _ λ can.
        Triple-bind (record_receipts-holds h actor (dict_of receipts))
          λ lines. record { at = λ depot i. i }

  complete-InDepot :
      (actor id : ℕ) (receipts : List (ℕ × LineReceipt)) (remarks : String)
      → Triple InDepot (complete actor id receipts remarks) (λ _. InDepot)
  unfolding complete
  complete-InDepot actor id receipts remarks = Triple-bind (require-holds id) λ h.
      raise_if-Triple (not (can_transition h.status completed)) _ _ λ can.
        Triple-bind (complete_receipts-holds h actor receipts) λ h'.
          raise_if-Triple (not (all_reconciled h'.lines)) _ _ λ all. record { at = λ depot i. i }

-- Whatever is received and however a request is completed, each reservation is afterwards as it
-- was: what a line holds beyond what was issued is not given back.
pub holds_left :
    (depot : Depot) (actor id : ℕ) (receipts : List (ℕ × LineReceipt)) (note : Option String)
    (remarks : String)
    → Ensures
        (λ _ after. after.stock.reservations ≡ depot.stock.reservations)
        (receive actor id receipts note depot)
      × Ensures
          (λ _ after. after.stock.reservations ≡ depot.stock.reservations)
          (complete actor id receipts remarks depot)
holds_left depot actor id receipts note remarks = (
  (receive-InDepot depot.stock.reservations actor id receipts note).at depot refl,
  (complete-InDepot depot.stock.reservations actor id receipts remarks).at depot refl,
)
