-- ===== src/Procurement/Service/Calls/Goods.antt =====
-- The goods that a receipt brings keep the stock sound and no line over what is ordered.
use inventory_management_sys.Base.{
  ℕ, ◌≡◌, refl, Bool, true, false, Option, none, some, List, [], ◌∷◌, map, All, arith,
}
use inventory_management_sys.Base.Int.{ℤ, pos, ◌≤ℤ◌, int_laws}
use inventory_management_sys.Base.Dict.{get}
use inventory_management_sys.Base.Table.{All-set_row}
use inventory_management_sys.Base.Result.{
  AppError, internal, Tx, Result, ok, err, or_raise, Ensures, Triple, Triple-bind, given,
}
use inventory_management_sys.Stock.Tables.{Db}
use inventory_management_sys.Stock.Invariant.{IsSound}
use inventory_management_sys.Stock.Ledger.{on_hand}
use inventory_management_sys.Stock.Posting.{
  flow-Sound, get_or_create_locked-Locked, add_on_hand-Shifts, found_nonneg,
}
use inventory_management_sys.Stock.Context.{add_on_hand}
use inventory_management_sys.Procurement.Tables.{
  PurchaseOrder, PurchaseOrderLine, Office, line_key, on_stock,
}
use inventory_management_sys.Procurement.States.{Checked, done, failed}
use inventory_management_sys.Procurement.Receiving.{LineState, LineReceipt, by_id, apply_receipt}
use inventory_management_sys.Procurement.Receiving.Outcome.Tallies.{Holds}
use inventory_management_sys.Procurement.Service.{checked}
use inventory_management_sys.Procurement.Service.Receipt.{
  ReceiveRequest, line_state, lines_by_id, receipt_of, book_line, post_line, post_lines,
  received_order, close_order, receive_goods,
}
use inventory_management_sys.Procurement.Service.Calls.Bounds.{
  Sized, apply_receipt-Sized, mapped, get-line_state,
}

abbrev pub Within : PurchaseOrderLine → Type 0
Within line = line.received_qty ≤ℤ line.ordered_qty

-- The stock tables are sound, and no line of an order has received more than is ordered.
pub record Kept (office : Office) : Type 0 where
  pub sound : IsSound office.stock
  pub within : All Within office.lines

pub or_raise-given :
    {A : Type 0} {P : Office → Type 0} (o : Option A) (e : AppError)
    → Triple P (or_raise o e) (λ a office. P office × (o ≡ some a))
or_raise-given none e = record { at = λ s p. tt }
or_raise-given (some a) e = record { at = λ s p. (p, refl) }

pub checked-given :
    {A : Type 0} {P : Office → Type 0} (c : Checked A)
    → Triple P (checked c) (λ a office. P office × (c ≡ done a))
checked-given (done a) = record { at = λ s p. (p, refl) }
checked-given (failed e) = record { at = λ s p. tt }

on_stock-Kept :
    {A : Type 0} (m : Tx Db A)
    → Triple IsSound m (λ _. IsSound)
    → Triple Kept (on_stock m) (λ _. Kept)
on_stock-Kept {A} m t = record {
  at = λ office k. go office k (m office.stock) (t.at office.stock k.sound);
}
  where
    go :
        (office : Office)
        → Kept office
        → (r : Result (A × Db)) → Ensures (λ _. IsSound) r
        → Ensures
            (λ _. Kept)
            (elim r [ ok (a, db) ↦ ok (a, record office { stock = db }) | err e ↦ err e ])
    go office k (ok (a, db)) s = record { sound = s; within = k.within }
    go office k (err e) s = tt

book_line-IsSound :
    (user : ℕ) (po : PurchaseOrder) (line : PurchaseOrderLine) (q : ℤ)
    → pos 0 ≤ℤ q
    → Triple IsSound (book_line user po line q) (λ _. IsSound)
unfolding book_line
book_line-IsSound user po line q h =
    Triple-bind (get_or_create_locked-Locked line.product_id po.warehouse_id) λ inv. record {
      at = λ db l.
          flow-Sound line.product_id po.warehouse_id inv (add_on_hand q inv) q _ l.found l.sound
            (add_on_hand-Shifts q inv)
            (record { of_product = refl; of_warehouse = refl; of_quantity = refl; flow = refl })
            (omega
              (int_laws, found_nonneg on_hand line.product_id po.warehouse_id l.found l.sound));
    }

same_ordered :
    (o : Option PurchaseOrderLine) (m : Option LineState) (line : PurchaseOrderLine) (l : LineState)
    → m ≡ mapped o
    → o ≡ some line
    → m ≡ some l
    → l.ordered_qty ≡ line.ordered_qty
same_ordered o m line l e f g = grind (arith, e, f, g)

module _ (user : ℕ) (po : PurchaseOrder) (lines : List PurchaseOrderLine) where
  post_line-Kept :
      (lr : LineReceipt)
      → Sized (by_id (map line_state lines)) lr
      → Triple Kept (post_line user po (lines_by_id lines) lr) (λ _. Kept)
  unfolding post_line
  post_line-Kept lr (l, state, fits, positive) =
      Triple-bind (or_raise-given (get lr.line_id (lines_by_id lines)) (internal "KeyError"))
        λ line. given λ found.
          let same =
            same_ordered (get lr.line_id (lines_by_id lines))
              (get lr.line_id (by_id (map line_state lines))) line l
              (get-line_state lr.line_id lines) found state in
          Triple-bind
            (on_stock-Kept (book_line user po line lr.received_now)
              (book_line-IsSound user po line lr.received_now positive))
            λ u. record {
              at = λ office k. record {
                sound = k.sound;
                within =
                    All-set_row line_key Within
                      (record line { received_qty = lr.new_received_total }) office.lines
                      (rw (← same) fits) k.within;
              };
            }

  post_lines-Kept :
      (lrs : List LineReceipt)
      → All (Sized (by_id (map line_state lines))) lrs
      → Triple Kept (post_lines user po (lines_by_id lines) lrs) (λ _. Kept)
  unfolding post_lines
  post_lines-Kept [] a = record { at = λ office k. k }
  post_lines-Kept (lr ∷ lrs) (s, a) = Triple-bind (post_line-Kept lr s) λ u. post_lines-Kept lrs a

  pub receive_goods-Kept :
      (req : ReceiveRequest) → Triple Kept (receive_goods user po req lines) (λ _. Kept)
  unfolding receive_goods
  receive_goods-Kept req =
      Triple-bind (checked-given (apply_receipt (map line_state lines) (receipt_of req))) λ o.
        given λ e.
          Triple-bind
            (post_lines-Kept o.lines (
              Holds-done _ (apply_receipt (map line_state lines) (receipt_of req)) o e
                (apply_receipt-Sized (map line_state lines) (receipt_of req))))
            λ u. record {
              at = λ office k.
                  close-Kept o.fully_received (received_order po o.resulting_status) _
                    (record { sound = k.sound; within = k.within });
            }
    where
      Holds-done :
          {A : Type 0} (Q : A → Type 0) (c : Checked A) (a : A) → c ≡ done a → Holds Q c → Q a
      Holds-done Q c a e h = rw e at h

      close-Kept :
          (fully : Bool) (po' : PurchaseOrder) (office : Office)
          → Kept office
          → Ensures (λ _. Kept) (close_order fully po' user office)
      close-Kept true po' office k = record { sound = k.sound; within = k.within }
      close-Kept false po' office k = k
