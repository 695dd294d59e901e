-- ===== src/Sales/Invoices/Histories.antt =====
-- Any of the calls of Calls, one after the other.
use inventory_management_sys.Base.{
  ℕ, ◌≡◌, refl, Bool, true, false, ◌||◌, not, Option, none, some, List, [], ◌∷◌, All, arith,
}
use inventory_management_sys.Base.Int.{ℤ, pos, ◌+ℤ◌, ◌≤ℤ◌, leb_ℤ, int_laws}
use inventory_management_sys.Base.Table.{find_row}
use inventory_management_sys.Base.Result.{
  not_found, raise_if, or_raise, Result, ok, err, Ensures, Triple, Triple-bind, given,
}
use inventory_management_sys.Stock.Soundness.Reads.{raise_if-Triple}
use inventory_management_sys.Finance.{is_member, Scope}
use inventory_management_sys.Finance.Documents.{or_own}
use inventory_management_sys.Finance.Balanced.{account_for-Netted}
use inventory_management_sys.Motorcycles.Units.{MotorcycleUnit, Showroom, unit_key, require_unit}
use inventory_management_sys.Motorcycles.Units.Selling.{given_or}
use inventory_management_sys.Motorcycles.Units.Registry.{ride-Fine}
use inventory_management_sys.Motorcycles.Units.Registry.Single.{Kept, sell_unit-Fine}
use inventory_management_sys.Motorcycles.{allowed_next}
use inventory_management_sys.Sales.Orders.Fulfilled.{sell-Fine}
use inventory_management_sys.Sales.Orders.Fulfilled.Recorded.{sell-Recorded}
use inventory_management_sys.Sales.Invoices.Settling.{Trade, with_invoices, Lines, all_positive}
use inventory_management_sys.Sales.Invoices.Bikes.{
  BulkBikeSaleIn, BikeSaleLineIn, Prepared, prepare, prepare_all, prices, new_bike_invoice,
  sell_each, pay_now, sell_prepared, sell_bike, sell_bikes_bulk, not_assigned, offers_sale,
  require_customer, bike_invoice, first_branch,
}
use inventory_management_sys.Sales.Invoices.Calls.{
  TradeCall, paying, voiding_sale, returning, crediting, selling_bike, selling_bikes, with_units,
  with_orders, with_money, is_valid, handle, trade, trade_after, trade_all,
}
use inventory_management_sys.Sales.Invoices.Keeping.{
  InvoiceFine, TradeFine, on_books-Fine, in_room-Fine, in_shop-Fine,
}
use inventory_management_sys.Sales.Invoices.Conserved.{
  Keeps, beside, add_invoice-Fine, record_payment-Fine,
}
use inventory_management_sys.Sales.Invoices.Conserved.Undoing.{
  void_invoice-Fine, create_return-Fine, credit_note_transition-Fine,
}

-- What is prepared has a positive price.
abbrev WithPrice : Prepared → Trade → Type 0
WithPrice p s = TradeFine s × (pos 0 ≤ℤ p.price)

require_unit-keeps : (id : ℕ) (P : Showroom → Type 0) → Triple P (require_unit id) (λ _. P)
require_unit-keeps id P = record { at = λ room k. go room k (find_row unit_key id room.units) }
  where
    go :
        (room : Showroom)
        → P room
        → (o : Option MotorcycleUnit)
        → Ensures (λ _. P) (or_raise o (not_found "Motorcycle unit not found") room)
    go room k none = tt
    go room k (some u) = k

prepare-Fine :
    (scope : Scope) (branch : Option ℕ) (line : BikeSaleLineIn)
    → Triple TradeFine (prepare scope branch line) WithPrice
unfolding prepare
prepare-Fine scope branch line =
    Triple-bind (in_room-Fine (require_unit-keeps line.unit_id (Kept (All InvoiceFine)))) λ u.
      raise_if-Triple (not_assigned scope u.branch_id || not_assigned scope branch) _ _ λ a.
        raise_if-Triple (not (offers_sale (allowed_next u.status))) _ _ λ b.
          raise_if-Triple (leb_ℤ (given_or line.price (given_or u.selling_price (pos 0))) (pos 0)) _
            _ λ c. record { at = λ s f. (f, ground arith) }

abbrev WithPrices : List Prepared → Trade → Type 0
WithPrices ps s = TradeFine s × (pos 0 ≤ℤ prices ps)

prepare_all-Fine :
    (scope : Scope) (branch : Option ℕ) (seen : List ℕ) (lines : List BikeSaleLineIn)
    → Triple TradeFine (prepare_all scope branch seen lines) WithPrices
unfolding prepare_all
prepare_all-Fine scope branch seen [] = record { at = λ s f. (f, omega arith) }
prepare_all-Fine scope branch seen (line ∷ lines) =
    raise_if-Triple (is_member line.unit_id seen) _ _ λ a.
      Triple-bind (prepare-Fine scope branch line) λ p. given λ hp.
        Triple-bind (prepare_all-Fine scope branch (line.unit_id ∷ seen) lines)
          λ ps. record { at = λ s (f, h). (f, sum_nonneg p.price (prices ps) hp h) }
  where
    sum_nonneg : (a b : ℤ) → pos 0 ≤ℤ a → pos 0 ≤ℤ b → pos 0 ≤ℤ a +ℤ b
    sum_nonneg a b ha hb = grind (int_laws, ha, hb)

bike_invoice-Fine :
    (id customer : ℕ) (branch : Option ℕ) (total : ℤ)
    → pos 0 ≤ℤ total
    → InvoiceFine (bike_invoice id customer branch total)
bike_invoice-Fine id customer branch total h = record {
  paid_nonneg = omega arith;
  paid_most = grind (int_laws, h);
  credit_nonneg = omega arith;
  rate_nonneg = omega arith;
}

new_bike_invoice-Fine :
    (customer : ℕ) (branch : Option ℕ) (total : ℤ)
    → pos 0 ≤ℤ total
    → Keeps (new_bike_invoice customer branch total)
unfolding new_bike_invoice
new_bike_invoice-Fine customer branch total h = record {
  at = λ s f.
      let i = bike_invoice s.next_id customer branch total in
      beside (with_invoices (λ is. i ∷ is) s) _
        ((add_invoice-Fine i (bike_invoice-Fine s.next_id customer branch total h)).at s f) refl
        refl refl refl;
}

sell_each-Fine :
    (user invoice_id customer : ℕ) (ps : List Prepared)
    → Keeps (sell_each user invoice_id customer ps)
unfolding sell_each
sell_each-Fine user invoice_id customer [] = record { at = λ s f. f }
sell_each-Fine user invoice_id customer (p ∷ ps) =
    Triple-bind (in_room-Fine (sell_unit-Fine (All InvoiceFine) user p.bike.id _))
      λ u. sell_each-Fine user invoice_id customer ps

pay_now-Fine :
    (user : ℕ) (branch : Option ℕ) (invoice_id : ℕ) (lines : Lines)
    → all_positive lines ≡ true
    → Keeps (pay_now user branch invoice_id lines)
pay_now-Fine user branch invoice_id [] e = record { at = λ s f. f }
pay_now-Fine user branch invoice_id (l ∷ ls) e =
    record_payment-Fine user branch invoice_id (l ∷ ls) e

sell_prepared-Fine :
    (user : ℕ) (req : BulkBikeSaleIn) (ps : List Prepared)
    → all_positive req.payments ≡ true
    → pos 0 ≤ℤ prices ps
    → Keeps (sell_prepared user req ps)
unfolding sell_prepared
sell_prepared-Fine user req ps e h =
    let customer = given_or req.customer_id req.walk_in in
    let branch = or_own req.branch_id (first_branch ps) in
    Triple-bind (new_bike_invoice-Fine customer branch (prices ps) h) λ id.
      Triple-bind (sell_each-Fine user id customer ps)
        λ u. pay_now-Fine user branch id req.payments e

require_customer-Fine : (o : Option ℕ) → Keeps (require_customer o)
require_customer-Fine none = record { at = λ s f. f }
require_customer-Fine (some id) = record { at = λ s f. go s f (s.room.customer_exists id) }
  where
    go :
        (s : Trade)
        → TradeFine s
        → (b : Bool)
        → Ensures (λ _. TradeFine) (raise_if (not b) (not_found "Customer not found") s)
    go s f true = f
    go s f false = tt

handle-Fine : (call : TradeCall) → is_valid call ≡ true → Keeps (handle call)
unfolding handle is_valid sell_bike sell_bikes_bulk
handle-Fine (paying user branch invoice_id lines) e =
    record_payment-Fine user branch invoice_id lines (ground (arith, e))
handle-Fine (voiding_sale user invoice_id reason) e = void_invoice-Fine user invoice_id reason
handle-Fine (returning user req) e = create_return-Fine user req (ground (arith, e))
handle-Fine (crediting cn_id new) e = credit_note_transition-Fine cn_id new
handle-Fine (selling_bike user scope req) e =
    Triple-bind (require_customer-Fine req.customer_id) λ u.
      Triple-bind (prepare-Fine scope req.branch_id req.line)
        λ p. given λ h. sell_prepared-Fine user _ (p ∷ []) (ground (arith, e)) (grind (int_laws, h))
handle-Fine (selling_bikes user scope req) e =
    Triple-bind (require_customer-Fine req.customer_id) λ u.
      Triple-bind (prepare_all-Fine scope req.branch_id [] req.lines)
        λ ps. given λ h. sell_prepared-Fine user req ps (ground (arith, e)) h
handle-Fine (with_orders call) e = in_shop-Fine (λ place. sell-Fine place call) (sell-Recorded call)
handle-Fine (with_units call) e = in_room-Fine (ride-Fine (All InvoiceFine) call)
handle-Fine (with_money call) e = on_books-Fine (account_for-Netted call)

-- From tables where the stock is sound, the holds of order lines stand on the product and the
-- location of their line, each order has delivered what its status says, the ledger of accounts is
-- netted, every motorcycle is in order, no invoice is paid by less than nothing or by more than its
-- total and one ten-thousandth, and no delivery, credit or rate is negative, every sequence of
-- calls, returning or raising, leads to such tables. A call pays or voids an invoice, takes goods
-- back, approves, applies or cancels a credit note, sells one motorcycle or several, confirms,
-- cancels or delivers an order, or is one on motorcycles or on the ledger of accounts. Quotations, new
-- orders, the confirmation of a delivery, the invoicing of orders, new credit notes and the
-- checkout of the point of sale are not among them.
pub trade_all-Fine :
    (calls : List TradeCall) (t : Trade) → TradeFine t → TradeFine (trade_all calls t)
unfolding trade_all trade
trade_all-Fine [] t f = f
trade_all-Fine (call ∷ calls) t f = trade_all-Fine calls (trade_after t (trade call t)) (
    after (trade call t)
      ((raise_if-Triple (not (is_valid call)) _ _ λ e. handle-Fine call (ground arith)).at t f))
  where
    after :
        (r : Result (Unit {0} × Trade)) → Ensures (λ _. TradeFine) r → TradeFine (trade_after t r)
    after (ok (u, t')) k = k
    after (err e) k = f
