-- ===== src/Sales/Invoices/Calls.antt =====
-- sales/api.py, each call in its own transaction: paying or voiding an invoice, taking goods back,
-- moving a credit note, selling one motorcycle or several, and the calls on orders of Orders/Calls,
-- with the calls on motorcycles and on money that go over the same tables. The other routes of that
-- file that write are no calls here: quotations, new orders, the confirmation of a delivery, the
-- invoices of orders, new credit notes and the checkout of the point of sale.
use inventory_management_sys.Base.{
  ℕ, String, Bool, true, false, ◌&&◌, not, Option, none, some, List, [], ◌∷◌, all,
}
use inventory_management_sys.Base.Int.{ℤ, pos, ltb_ℤ, leb_ℤ}
use inventory_management_sys.Base.Result.{business_rule, Tx, Result, ok, err, raise_if, ◌>>◌}
use inventory_management_sys.Finance.{Scope}
use inventory_management_sys.Finance.Calls.{MoneyCall, account_for}
use inventory_management_sys.Sales.Orders.Calls.{SalesCall, sell}
use inventory_management_sys.Motorcycles.Units.Calls.{UnitCall, ride}
use inventory_management_sys.Sales.Invoices.Settling.{
  ReturnLine, CreditNoteStatus, Trade, on_books, in_room, in_shop, Lines, all_positive,
  record_payment,
}
use inventory_management_sys.Sales.Invoices.Voiding.{
  void_invoice, ReturnCreate, create_return, credit_note_transition,
}
use inventory_management_sys.Sales.Invoices.Bikes.{
  BikeSaleLineIn, BikeSaleIn, sell_bike, BulkBikeSaleIn, sell_bikes_bulk,
}

-- A credit note is approved, applied or cancelled; to make a draft of it is refused by its table.
pub data TradeCall : Type 0 where
  paying : ℕ → Option ℕ → ℕ → Lines → TradeCall
  voiding_sale : ℕ → ℕ → String → TradeCall
  returning : ℕ → ReturnCreate → TradeCall
  crediting : ℕ → CreditNoteStatus → TradeCall
  selling_bike : ℕ → Scope → BikeSaleIn → TradeCall
  selling_bikes : ℕ → Scope → BulkBikeSaleIn → TradeCall
  with_orders : SalesCall → TradeCall
  with_units : UnitCall → TradeCall
  with_money : MoneyCall → TradeCall

abbrev pub is_positive_line : ReturnLine → Bool
is_positive_line line = ltb_ℤ (pos 0) line.qty

abbrev pub is_filled : {A : Type 0} → List A → Bool
is_filled [] = false
is_filled (x ∷ xs) = true

-- `PaymentCreate`: at least one payment, each of a positive amount.
abbrev pub is_payment : Lines → Bool
is_payment lines = is_filled lines && all_positive lines

-- `ReturnCreate`: at least one line, each of a positive quantity.
abbrev pub is_return : ReturnCreate → Bool
is_return req = is_filled req.lines && all is_positive_line req.lines

-- A price that is given is not negative.
abbrev pub is_priced : BikeSaleLineIn → Bool
is_priced line = is_price line.price
  where
    is_price : Option ℤ → Bool
    is_price none = true
    is_price (some p) = leb_ℤ (pos 0) p

-- What the payloads are checked for before the call. That a reason is not empty, `void_invoice` asks
-- itself.
unfoldable pub is_valid : TradeCall → Bool
is_valid (paying user branch invoice_id lines) = is_payment lines
is_valid (returning user req) = is_return req
is_valid (selling_bike user scope req) = is_priced req.line && all_positive req.payments
is_valid (selling_bikes user scope req) =
    is_filled req.lines && (all is_priced req.lines && all_positive req.payments)
is_valid _ = true

unfoldable pub handle : TradeCall → Tx Trade (Unit {0})
handle (paying user branch invoice_id lines) = record_payment user branch invoice_id lines
handle (voiding_sale user invoice_id reason) = void_invoice user invoice_id reason
handle (returning user req) = create_return user req
handle (crediting cn_id new) = credit_note_transition cn_id new
handle (selling_bike user scope req) = sell_bike user scope req
handle (selling_bikes user scope req) = sell_bikes_bulk user scope req
handle (with_orders call) = in_shop (sell call)
handle (with_units call) = in_room (ride call)
handle (with_money call) = on_books (account_for call)

unfoldable pub trade : TradeCall → Tx Trade (Unit {0})
trade call = do raise_if (not (is_valid call)) (business_rule "Unprocessable payload"); handle call

abbrev pub trade_after : Trade → Result (Unit {0} × Trade) → Trade
trade_after t (ok (_, after)) = after
trade_after t (err _) = t

unfoldable pub trade_all : List TradeCall → Trade → Trade
trade_all [] t = t
trade_all (call ∷ calls) t = trade_all calls (trade_after t (trade call t))
