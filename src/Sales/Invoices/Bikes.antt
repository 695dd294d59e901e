-- ===== src/Sales/Invoices/Bikes.antt =====
-- sales/service.py: selling motorcycles, one or several on an invoice. Bikes are priced in the
-- currency of billing. The split of the price in net and tax is left out, and so are the
-- notifications; a sale without a customer is to the walk-in customer, who is there already.
use inventory_management_sys.Base.{
  ℕ, Bool, false, ◌||◌, not, ◌+◌, Option, none, some, List, [], ◌∷◌,
}
use inventory_management_sys.Base.Int.{ℤ, pos, ◌+ℤ◌, leb_ℤ}
use inventory_management_sys.Base.Result.{
  not_found, business_rule, permission_denied, Tx, pure, raise_if, gets, modify, ◌>>=◌, ◌>>◌,
}
use inventory_management_sys.Finance.{Scope, outside, is_member}
use inventory_management_sys.Finance.Documents.{or_own}
use inventory_management_sys.Motorcycles.{SaleStatus, allowed_next}
use inventory_management_sys.Motorcycles.Units.{MotorcycleUnit, require_unit}
use inventory_management_sys.Motorcycles.Units.Selling.{is_sold, given_or, sell_unit}
use inventory_management_sys.Sales.{inv_sent}
use inventory_management_sys.Sales.Invoices.{Invoice}
use inventory_management_sys.Sales.Invoices.Settling.{
  Trade, in_room, add_invoice, Lines, record_payment,
}

pub record BikeSaleLineIn : Type 0 where
  pub unit_id : ℕ
  pub price : Option ℤ
  pub assembly_required : Bool

pub record BulkBikeSaleIn : Type 0 where
  pub customer_id : Option ℕ
  pub walk_in : ℕ
  pub branch_id : Option ℕ
  pub lines : List BikeSaleLineIn
  pub payments : Lines

-- A branch that is given has to be one of the user's.
abbrev pub not_assigned : Scope → Option ℕ → Bool
not_assigned scope none = false
not_assigned scope (some b) = outside scope (some b)

abbrev pub offers_sale : List SaleStatus → Bool
offers_sale [] = false
offers_sale (s ∷ ss) = is_sold s || offers_sale ss

abbrev pub require_customer : Option ℕ → Tx Trade (Unit {0})
require_customer none = pure tt
require_customer (some id) = do
  there ← gets (λ (trade : Trade). trade.room.customer_exists id)
  raise_if (not there) (not_found "Customer not found")

-- A unit that may be sold, with its price.
pub record Prepared : Type 0 where
  pub bike : MotorcycleUnit
  pub price : ℤ
  pub assembly_required : Bool

unfoldable pub prepare : Scope → Option ℕ → BikeSaleLineIn → Tx Trade Prepared
prepare scope branch line = do
  u ← in_room (require_unit line.unit_id)
  raise_if (not_assigned scope u.branch_id || not_assigned scope branch)
      (permission_denied "You are not assigned to that branch.")
  raise_if (not (offers_sale (allowed_next u.status))) (business_rule "Bike cannot be sold.")
  let price = given_or line.price (given_or u.selling_price (pos 0))
  raise_if (leb_ℤ price (pos 0)) (business_rule "A selling price is required for this bike.")
  pure (record { bike = u; price = price; assembly_required = line.assembly_required })

-- The lines in order; `seen` are the units of those before.
unfoldable pub prepare_all :
    Scope → Option ℕ → List ℕ → List BikeSaleLineIn → Tx Trade (List Prepared)
prepare_all scope branch seen [] = pure []
prepare_all scope branch seen (line ∷ lines) = do
  raise_if (is_member line.unit_id seen) (business_rule "A bike is listed more than once.")
  p ← prepare scope branch line
  ps ← prepare_all scope branch (line.unit_id ∷ seen) lines
  pure (p ∷ ps)

abbrev pub prices : List Prepared → ℤ
prices [] = pos 0
prices (p ∷ ps) = p.price +ℤ prices ps

abbrev pub first_branch : List Prepared → Option ℕ
first_branch [] = none
first_branch (p ∷ ps) = p.bike.branch_id

-- The price is the payable, at a rate of one.
abbrev pub bike_invoice : ℕ → ℕ → Option ℕ → ℤ → Invoice
bike_invoice id customer branch total = record {
  id = id;
  sales_order_id = none;
  delivery_note_id = none;
  customer_id = customer;
  branch_id = branch;
  status = inv_sent;
  grand_total = total;
  fx_rate = pos 1000000;
  grand_total_zmw = total;
  amount_paid = pos 0;
  credit_total = pos 0;
  voided_at = none;
  voided_by = none;
  void_reason = none;
}

unfoldable pub new_bike_invoice : ℕ → Option ℕ → ℤ → Tx Trade ℕ
new_bike_invoice customer branch total = do
  id ← gets (λ (trade : Trade). trade.next_id)
  add_invoice (bike_invoice id customer branch total)
  modify (λ (trade : Trade). record trade { next_id = id + 1 })
  pure id

unfoldable pub sell_each : ℕ → ℕ → ℕ → List Prepared → Tx Trade (Unit {0})
sell_each user invoice_id customer [] = pure tt
sell_each user invoice_id customer (p ∷ ps) = do
  in_room (
      sell_unit user p.bike.id (record {
        invoice_id = invoice_id;
        customer_id = some customer;
        price_charged = some p.price;
        assembly_required = p.assembly_required;
      }))
  sell_each user invoice_id customer ps

abbrev pub pay_now : ℕ → Option ℕ → ℕ → Lines → Tx Trade (Unit {0})
pay_now user branch invoice_id [] = pure tt
pay_now user branch invoice_id (line ∷ lines) = record_payment user branch invoice_id (line ∷ lines)

-- What `sell_bike` and `sell_bikes_bulk` do from the checked lines on.
unfoldable pub sell_prepared : ℕ → BulkBikeSaleIn → List Prepared → Tx Trade (Unit {0})
sell_prepared user req prepared = do
  let customer = given_or req.customer_id req.walk_in
  let branch = or_own req.branch_id (first_branch prepared)
  invoice_id ← new_bike_invoice customer branch (prices prepared)
  sell_each user invoice_id customer prepared
  pay_now user branch invoice_id req.payments

unfoldable pub sell_bikes_bulk : ℕ → Scope → BulkBikeSaleIn → Tx Trade (Unit {0})
sell_bikes_bulk user scope req = do
  require_customer req.customer_id
  prepared ← prepare_all scope req.branch_id [] req.lines
  sell_prepared user req prepared

pub record BikeSaleIn : Type 0 where
  pub line : BikeSaleLineIn
  pub customer_id : Option ℕ
  pub walk_in : ℕ
  pub branch_id : Option ℕ
  pub payments : Lines

unfoldable pub sell_bike : ℕ → Scope → BikeSaleIn → Tx Trade (Unit {0})
sell_bike user scope req = do
  require_customer req.customer_id
  p ← prepare scope req.branch_id req.line
  sell_prepared user
      (record {
        customer_id = req.customer_id;
        walk_in = req.walk_in;
        branch_id = req.branch_id;
        lines = [];
        payments = req.payments;
      })
      (p ∷ [])
