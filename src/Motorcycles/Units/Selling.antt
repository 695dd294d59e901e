-- ===== src/Motorcycles/Units/Selling.antt =====
-- motorcycles/service.py: what changes the sale status of a unit, and moving it. Texts arrive
-- stripped, so that a blank one is empty.
use text.Mathlib.Text.{◌==◌ as str_eq}
use inventory_management_sys.Base.{
  ℕ, String, Bool, true, false, ◌&&◌, not, ◌==◌, ◌+◌, Option, none, some, List, [], ◌∷◌,
  if◌then◌else◌,
}
use inventory_management_sys.Base.Int.{ℤ}
use inventory_management_sys.Base.Table.{find_row}
use inventory_management_sys.Base.Result.{
  not_found, business_rule, Tx, pure, raise_if, gets, or_raise, ◌>>=◌, ◌>>◌,
}
use inventory_management_sys.Motorcycles.{
  SaleStatus, unassembled, assembled, reserved, on_hold, sold, can_transition, is_reservable,
  is_sellable,
}
use inventory_management_sys.Motorcycles.Units.{
  PaymentStatus, unpaid, partial, paid, MotorcycleUnit, Showroom, require_unit, save_unit,
  add_event, dangles,
}
use inventory_management_sys.Sales.{InvoiceStatus, inv_partially_paid, inv_paid}
use inventory_management_sys.Sales.Invoices.{Invoice, invoice_key}

abbrev pub has_own_action : SaleStatus → Bool
has_own_action reserved = true
has_own_action sold = true
has_own_action _ = false

abbrev pub is_on_hold : SaleStatus → Bool
is_on_hold on_hold = true
is_on_hold _ = false

abbrev pub is_assembled : SaleStatus → Bool
is_assembled assembled = true
is_assembled _ = false

abbrev pub is_reserved : SaleStatus → Bool
is_reserved reserved = true
is_reserved _ = false

abbrev pub is_sold : SaleStatus → Bool
is_sold sold = true
is_sold _ = false

abbrev pub is_unassembled : SaleStatus → Bool
is_unassembled unassembled = true
is_unassembled _ = false

module _ {A : Type 0} where
  abbrev pub is_given : Option A → Bool
  is_given none = false
  is_given (some _) = true

  abbrev pub given_or : Option A → A → A
  given_or none a = a
  given_or (some b) a = b

-- Putting on hold drops the customer, and so does a reservation that falls through.
abbrev pub released : SaleStatus → String → MotorcycleUnit → MotorcycleUnit
released new reason u =
    if is_on_hold new
    then record u { hold_reason = some reason; customer_id = none; reserved_ref = none }
    else (if is_reserved u.status && is_assembled new
        then record u { customer_id = none; reserved_ref = none }
        else u)

abbrev pub moved_to : SaleStatus → String → ℕ → MotorcycleUnit → MotorcycleUnit
moved_to new reason today u =
    let r = released new reason u in
    record r {
      assembled_date =
          if is_assembled new && not (is_given u.assembled_date)
          then some today
          else u.assembled_date;
      status = new;
      version = u.version + 1;
    }

-- An absent reason is the empty one.
unfoldable pub transition : ℕ → ℕ → SaleStatus → String → Tx Showroom (Unit {0})
transition user unit_id new reason = do
  u ← require_unit unit_id
  raise_if (has_own_action new) (
      business_rule "Use the reserve / sell action to set the customer and sales-document linkage.")
  raise_if (not (can_transition u.status new)) (business_rule "Cannot move unit.")
  raise_if (is_on_hold new && str_eq reason "")
      (business_rule "A hold reason is required to put a unit on hold.")
  today ← gets (λ (room : Showroom). room.today)
  save_unit (moved_to new reason today u)
  add_event u.id "status_change" (some u.status) (some new) user

abbrev pub reserved_for : ℕ → Option ℕ → MotorcycleUnit → MotorcycleUnit
reserved_for customer order u = record u {
  status = reserved;
  reserved_ref = order;
  customer_id = some customer;
  version = u.version + 1;
}

unfoldable pub reserve_unit : ℕ → ℕ → ℕ → Option ℕ → Tx Showroom (Unit {0})
reserve_unit user unit_id customer order = do
  u ← require_unit unit_id
  raise_if (not (is_reservable u.status))
      (business_rule "A unit in this status cannot be reserved.")
  room ← gets (λ (room : Showroom). room)
  raise_if (room.out_on_loan u.id) (business_rule "This unit is out on loan.")
  raise_if (room.on_open_consignment u.id) (business_rule "This unit is out on consignment.")
  raise_if (not (room.customer_exists customer)) (not_found "Customer not found")
  raise_if (dangles room.has_sales_order order) (not_found "Sales order not found")
  save_unit (reserved_for customer order u)
  add_event u.id "reserved" (some u.status) (some reserved) user

pub record SellIn : Type 0 where
  pub invoice_id : ℕ
  pub customer_id : Option ℕ
  pub price_charged : Option ℤ
  pub assembly_required : Bool

abbrev pub payment_of : InvoiceStatus → PaymentStatus
payment_of inv_paid = paid
payment_of inv_partially_paid = partial
payment_of _ = unpaid

abbrev pub sold_on : Invoice → SellIn → MotorcycleUnit → MotorcycleUnit
sold_on i req u = record u {
  assembly_pending = not (is_given u.assembled_date) && req.assembly_required;
  status = sold;
  sold_ref = some i.id;
  reserved_ref = none;
  customer_id = some (given_or req.customer_id i.customer_id);
  price_charged = if is_given req.price_charged then req.price_charged else u.selling_price;
  payment_status = payment_of i.status;
  version = u.version + 1;
}

unfoldable pub sell_unit : ℕ → ℕ → SellIn → Tx Showroom (Unit {0})
sell_unit user unit_id req = do
  u ← require_unit unit_id
  raise_if (not (is_sellable u.status)) (business_rule "A unit in this status cannot be sold.")
  room ← gets (λ (room : Showroom). room)
  raise_if (room.out_on_loan u.id) (business_rule "This unit is out on loan.")
  raise_if (room.on_open_consignment u.id) (business_rule "This unit is out on consignment.")
  found ← gets (λ (room : Showroom). find_row invoice_key req.invoice_id room.invoices)
  i ← or_raise found (not_found "Invoice not found")
  save_unit (sold_on i req u)
  add_event u.id "sold" (some u.status) (some sold) user

abbrev pub refers_to : ℕ → Option ℕ → Bool
refers_to id none = false
refers_to id (some k) = k == id

-- `unit_by_sold_ref`: one row of those that match.
unfoldable pub unit_by_sold_ref : ℕ → List MotorcycleUnit → Option MotorcycleUnit
unit_by_sold_ref invoice_id [] = none
unit_by_sold_ref invoice_id (u ∷ us) =
    if refers_to invoice_id u.sold_ref then some u else unit_by_sold_ref invoice_id us

abbrev pub unsold : MotorcycleUnit → MotorcycleUnit
unsold u = record u {
  status = if is_given u.assembled_date then assembled else unassembled;
  assembly_pending = false;
  sold_ref = none;
  customer_id = none;
  price_charged = none;
  payment_status = unpaid;
  version = u.version + 1;
}

abbrev pub revert_unit : ℕ → Option MotorcycleUnit → Tx Showroom (Unit {0})
revert_unit user none = pure tt
revert_unit user (some u) = do
  save_unit (unsold u)
  add_event u.id "sale_voided" (some u.status) (some (unsold u).status) user

unfoldable pub revert_sale_for_invoice : ℕ → ℕ → Tx Showroom (Unit {0})
revert_sale_for_invoice user invoice_id = do
  found ← gets (λ (room : Showroom). unit_by_sold_ref invoice_id room.units)
  revert_unit user found

abbrev pub assembled_now : ℕ → MotorcycleUnit → MotorcycleUnit
assembled_now today u = record u {
  status = if is_unassembled u.status then assembled else u.status;
  assembled_date = some (given_or u.assembled_date today);
  assembly_pending = false;
  version = u.version + 1;
}

unfoldable pub mark_assembled : ℕ → ℕ → Tx Showroom (Unit {0})
mark_assembled user unit_id = do
  u ← require_unit unit_id
  raise_if (is_given u.assembled_date && not u.assembly_pending)
      (business_rule "Unit is already assembled.")
  today ← gets (λ (room : Showroom). room.today)
  save_unit (assembled_now today u)
  add_event u.id "assembled" (some u.status) (some (assembled_now today u).status) user

abbrev pub same_ref : Option ℕ → Option ℕ → Bool
same_ref none none = true
same_ref (some a) (some b) = a == b
same_ref _ _ = false

abbrev pub relocated : ℕ → Option ℕ → MotorcycleUnit → MotorcycleUnit
relocated branch warehouse u = record u {
  branch_id = some branch;
  warehouse_id = if is_given warehouse then warehouse else u.warehouse_id;
  version = u.version + 1;
}

unfoldable pub transfer_unit : ℕ → ℕ → ℕ → Option ℕ → Tx Showroom (Unit {0})
transfer_unit user unit_id branch warehouse = do
  u ← require_unit unit_id
  raise_if (is_sold u.status) (business_rule "A sold unit cannot be transferred.")
  raise_if (same_ref u.branch_id (some branch) && same_ref warehouse u.warehouse_id)
      (business_rule "Destination is the same as the current location.")
  save_unit (relocated branch warehouse u)
  add_event u.id "transfer" none none user
