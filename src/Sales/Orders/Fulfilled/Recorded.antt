-- ===== src/Sales/Orders/Fulfilled/Recorded.antt =====
-- The notes of deliveries through the calls on sales orders.
use inventory_management_sys.Base.{
  ℕ, String, Bool, true, false, not, inl, inr, Bool-cases, Option, none, some, List, [], ◌∷◌, All,
  arith, if◌then◌else◌,
}
use inventory_management_sys.Base.Int.{ℤ, pos, ◌≤ℤ◌, leb_ℤ}
use inventory_management_sys.Base.Dict.{Dict, dict_of}
use inventory_management_sys.Base.Table.{find_row}
use inventory_management_sys.Base.Result.{
  AppError, Tx, Result, ok, err, or_raise, pure, Ensures, Triple, Triple-bind, given,
}
use inventory_management_sys.Stock.Context.{Wiring}
use inventory_management_sys.Stock.Tables.{Db}
use inventory_management_sys.Stock.Soundness.Reads.{raise_if-Triple}
use inventory_management_sys.Sales.{is_deliverable, is_cancellable}
use inventory_management_sys.Sales.Tables.{
  SalesOrderLine, DeliveryNoteLine, DeliveryNote, Shop, on_shelf, so_key,
}
use inventory_management_sys.Sales.Orders.{
  require_so, fail_with, reserve_so_line, reserve_lines, release_lines, is_so_draft,
  is_open_reserved, confirm_sales_order, cancel_sales_order,
}
use inventory_management_sys.Sales.Orders.Delivering.{
  deliver_qty, issue_from_location, deliver_one, put_first, Delivered, deliver_lines, is_nothing,
  create_delivery,
}
use inventory_management_sys.Sales.Orders.Calls.{
  SalesCall, confirming, cancelling, delivering, sell,
}

abbrev pub NoteLinesFine : List DeliveryNoteLine → Type 0
NoteLinesFine lines = All (λ (line : DeliveryNoteLine). pos 0 ≤ℤ line.qty) lines

-- No delivery has a negative quantity.
abbrev pub Recorded : Shop → Type 0
Recorded shop = All (λ (note : DeliveryNote). NoteLinesFine note.lines) shop.deliveries

abbrev pub Records : {A : Type 0} → Tx Shop A → Type 0
Records m = Triple Recorded m (λ _. Recorded)

pub on_shelf-Recorded : {A : Type 0} (m : Tx Db A) → Records (on_shelf m)
on_shelf-Recorded {A} m = record { at = λ shop k. go shop k (m shop.stock) }
  where
    go :
        (shop : Shop)
        → Recorded shop
        → (r : Result (A × Db))
        → Ensures
            (λ _. Recorded)
            (elim r [ ok (a, db) ↦ ok (a, record shop { stock = db }) | err e ↦ err e ])
    go shop k (ok (a, db)) = k
    go shop k (err e) = tt

or_raise-Recorded : {A : Type 0} (o : Option A) (e : AppError) → Records (or_raise o e)
or_raise-Recorded none e = record { at = λ shop k. tt }
or_raise-Recorded (some a) e = record { at = λ shop k. k }

require_so-Recorded : (id : ℕ) → Records (require_so id)
require_so-Recorded id = record {
  at = λ shop k. (or_raise-Recorded (find_row so_key id shop.orders) _).at shop k;
}

fail_with-Recorded : (o : Option String) → Records (fail_with o)
fail_with-Recorded none = record { at = λ shop k. k }
fail_with-Recorded (some message) = record { at = λ shop k. tt }

reserve_lines-Recorded :
    (location user : ℕ) (lines : List SalesOrderLine) → Records (reserve_lines location user lines)
unfolding reserve_lines
reserve_lines-Recorded location user [] = record { at = λ shop k. k }
reserve_lines-Recorded location user (line ∷ lines) =
    Triple-bind (on_shelf-Recorded (reserve_so_line line location user)) λ problem.
      Triple-bind (fail_with-Recorded problem) λ u.
        Triple-bind (reserve_lines-Recorded location user lines)
          λ lines'. record { at = λ shop k. k }

release_lines-Recorded :
    (user : ℕ) (lines : List SalesOrderLine) → Records (release_lines user lines)
unfolding release_lines
release_lines-Recorded user [] = record { at = λ shop k. k }
release_lines-Recorded user (line ∷ lines) =
    Triple-bind (on_shelf-Recorded _)
      λ u. Triple-bind (release_lines-Recorded user lines) λ lines'. record { at = λ shop k. k }

module _ (wiring : Wiring) (user note_id : ℕ) (location : Option ℕ) where
  issue-Recorded :
      (line : SalesOrderLine) (q : ℤ) (o : Option ℕ)
      → Records (issue_from_location wiring user note_id line q o)
  issue-Recorded line q none = record { at = λ shop k. tt }
  issue-Recorded line q (some w) = on_shelf-Recorded _

  deliver_one-Recorded :
      (line : SalesOrderLine) (q : ℤ)
      → Triple Recorded
          (deliver_one wiring user note_id location line q)
          (λ one shop. Recorded shop × NoteLinesFine one.1)
  deliver_one-Recorded line q = record {
    at = λ shop k. elim (Bool-cases (leb_ℤ q (pos 0))) [
      | inl nothing ↦ rw nothing (k, tt)
      | inr positive ↦ rw positive (
          (Triple-bind {R = λ one shop. Recorded shop × NoteLinesFine one.1}
              (issue-Recorded line q location)
              λ u. record { at = λ shop k. (k, (ground arith, tt)) }).at
            shop k)
    ];
  }

  put_first-Fine :
      (one : SalesOrderLine × List DeliveryNoteLine) (rest : Delivered)
      → NoteLinesFine one.1
      → NoteLinesFine rest.1
      → NoteLinesFine (put_first one rest).1
  put_first-Fine (line, []) (lines, notes) h hs = hs
  put_first-Fine (line, note ∷ _) (lines, notes) (h, _) hs = (h, hs)

  deliver_lines-Recorded :
      (wanted : Dict ℤ) (lines : List SalesOrderLine)
      → Triple Recorded
          (deliver_lines wiring user note_id location wanted lines)
          (λ delivered shop. Recorded shop × NoteLinesFine delivered.1)
  unfolding deliver_lines
  deliver_lines-Recorded wanted [] = record { at = λ shop k. (k, tt) }
  deliver_lines-Recorded wanted (line ∷ lines) =
      Triple-bind (deliver_one-Recorded line (deliver_qty wanted line)) λ one. given λ h.
        Triple-bind (deliver_lines-Recorded wanted lines)
          λ rest. record { at = λ shop (k, hs). (k, put_first-Fine one rest h hs) }

released-Recorded :
    (b : Bool) (user : ℕ) (lines : List SalesOrderLine)
    → Records (if b then release_lines user lines else pure lines)
released-Recorded true user lines = release_lines-Recorded user lines
released-Recorded false user lines = record { at = λ shop k. k }

pub sell-Recorded : (call : SalesCall) → Triple Recorded (sell call) (λ _. Recorded)
unfolding sell confirm_sales_order cancel_sales_order create_delivery
sell-Recorded (confirming user so_id) = Triple-bind (require_so-Recorded so_id) λ so.
    raise_if-Triple (not (is_so_draft so.status)) _ _ λ a.
      Triple-bind (or_raise-Recorded so.location_id _) λ w.
        Triple-bind (reserve_lines-Recorded w user so.lines) λ lines. record { at = λ shop k. k }
sell-Recorded (cancelling user so_id reason) = Triple-bind (require_so-Recorded so_id) λ so.
    raise_if-Triple (not (is_cancellable so.status)) _ _ λ a.
      Triple-bind (released-Recorded (is_open_reserved so.status) user so.lines)
        λ lines. record { at = λ shop k. k }
sell-Recorded (delivering wiring user note_id so_id wanted) =
    Triple-bind (require_so-Recorded so_id) λ so.
      raise_if-Triple (not (is_deliverable so.status)) _ _ λ a.
        Triple-bind
          (deliver_lines-Recorded wiring user note_id so.location_id (dict_of wanted) so.lines)
          λ delivered.
            given λ h.
              raise_if-Triple (is_nothing delivered.1) _ _ λ b. record { at = λ shop k. (h, k) }
