-- ===== src/Sales/Invoices/Examples.antt =====
-- Two motorcycles that are sold on one invoice, paid in cash, and the sale voided.
use inventory_management_sys.Base.{
  ℕ, String, ◌≡◌, refl, true, false, none, some, List, [], ◌∷◌, arith,
}
use inventory_management_sys.Base.Int.{pos, ◌+ℤ◌, ◌-ℤ◌, ◌*ℤ◌, ltb_ℤ, int_laws}
use inventory_management_sys.Base.Table.{find_row, set_row}
use inventory_management_sys.Base.Result.{Ensures, ◌>>◌}
use inventory_management_sys.Stock.Tables.{Db}
use inventory_management_sys.Stock.Repository.{find}
use inventory_management_sys.Stock.Ledger.{stock, ledger, held}
use inventory_management_sys.Stock.Invariant.{IsSound}
use inventory_management_sys.Finance.{
  FinancialAccount, Books, invoice_payment, post_movement, reverse_reference,
}
use inventory_management_sys.Finance.Takings.{
  mapping_for, has_mappings, post_payment, post_payments, post_invoice_payments,
}
use inventory_management_sys.Finance.Netting.{net, net_live, Below}
use inventory_management_sys.Finance.Reversal.{IsNetted}
use inventory_management_sys.Finance.Balances.{balance}
use inventory_management_sys.Finance.Confirming.{returns}
use inventory_management_sys.Finance.Refunded.{take-reverse}
use inventory_management_sys.Motorcycles.{allowed_next, can_transition, is_sellable}
use inventory_management_sys.Motorcycles.Units.{
  MotorcycleUnit, Showroom, unit_key, UnitCreate, new_unit, create_unit,
}
use inventory_management_sys.Motorcycles.Units.Selling.{
  sold_on, sell_unit, unit_by_sold_ref, revert_sale_for_invoice,
}
use inventory_management_sys.Motorcycles.Units.Calls.{UnitCall, creating, ride, ride_all}
use inventory_management_sys.Motorcycles.Units.Keeping.{RoomFine}
use inventory_management_sys.Motorcycles.Units.Registry.{ride_all-Fine, revert_sale-others}
use inventory_management_sys.Sales.{inv_paid, is_payable}
use inventory_management_sys.Sales.Invoices.{Invoice, invoice_key, to_zmw, invoice_balance_zmw}
use inventory_management_sys.Sales.Invoices.Settling.{
  Trade, Lines, amounts_of, all_positive, record_payment,
}
use inventory_management_sys.Sales.Invoices.Voiding.{void_invoice}
use inventory_management_sys.Sales.Invoices.Bikes.{
  bike_invoice, prepare, prepare_all, new_bike_invoice, sell_each, sell_prepared, sell_bikes_bulk,
}
use inventory_management_sys.Sales.Invoices.Calls.{
  TradeCall, selling_bikes, is_valid, handle, trade, trade_all,
}
use inventory_management_sys.Sales.Invoices.Keeping.{InvoiceFine, TradeFine}
use inventory_management_sys.Sales.Invoices.Histories.{trade_all-Fine}
use inventory_management_sys.Sales.Invoices.Reconciled.{Booked}
use inventory_management_sys.Sales.Invoices.Paying.{
  record_payment-Booked, LeavesStatus, record_payment-pays,
}
use inventory_management_sys.Sales.Invoices.Voided.{IsVoided, void_invoice-IsVoided}

abbrev empty_room : Showroom
empty_room = record {
  units = [];
  events = [];
  invoices = [];
  has_model = λ m. true;
  variant_model = λ v. none;
  has_colour = λ c. true;
  has_supplier = λ s. true;
  customer_exists = λ c. true;
  has_sales_order = λ o. true;
  out_on_loan = λ u. false;
  on_open_consignment = λ u. false;
  strip = λ text. text;
  lower = λ text. text;
  sql_lower = λ text. text;
  today = 5;
  next_unit_id = 1;
}

abbrev bike : String → UnitCreate
bike chassis = record {
  chassis_number = chassis;
  model_id = 4;
  variant_id = none;
  colour_id = none;
  supplier_id = none;
  branch_id = some 1;
  warehouse_id = none;
  selling_price = some (pos 150000);
  assembly_required = false;
}

abbrev two_received : List UnitCall
two_received = creating 1 (bike "A1") ∷ creating 1 (bike "B2") ∷ []

abbrev stocked : Showroom
stocked = ride_all two_received empty_room

ride_all-Fine_example : RoomFine stocked
ride_all-Fine_example = ride_all-Fine two_received empty_room tt

abbrev nothing_stored : Db
nothing_stored = record {
  products = λ p. none;
  warehouses = λ w. none;
  inventory = [];
  movements = [];
  reservations = [];
  audit_logs = [];
  sales_daily = [];
  notifications = [];
  now = 7;
  today = 1;
}

nothing_stored-IsSound : IsSound nothing_stored
unfolding stock ledger held find
nothing_stored-IsSound = record {
  books = λ b p w. refl;
  holds = λ p w. refl;
  nonneg = λ b p w. ground arith;
  hold_nonneg = tt;
}

abbrev till : FinancialAccount
till = record { id = 1; branch_id = some 1; opening_balance = pos 0; is_active = true }

abbrev ledger_of_till : Books
ledger_of_till = record {
  accounts = till ∷ [];
  movements = [];
  expenses = [];
  transfers = [];
  handovers = [];
  categories = [];
  mappings = record { branch_id = 1; method = "cash"; account_id = 1 } ∷ [];
  next_id = 1;
  now = 9;
}

ledger_of_till-IsNetted : IsNetted ledger_of_till
unfolding net net_live Below
ledger_of_till-IsNetted = record { below = tt; stands = λ kind id account. refl }

abbrev opened : Trade
opened = record {
  shop = record { stock = nothing_stored; orders = []; deliveries = []; sales_audit = [] };
  books = ledger_of_till;
  room = stocked;
  receipts = [];
  payments = [];
  returns = [];
  credit_notes = [];
  next_id = 7;
  now = 9;
}

opened-Fine : TradeFine opened
unfolding ride_all ride create_unit
opened-Fine = record {
  place = λ id. (1, 1);
  shelf = record { shelved = record { sound = nothing_stored-IsSound; stands = tt }; orders = tt };
  netted = ledger_of_till-IsNetted;
  room_fine = (ride_all-Fine two_received empty_room tt, tt);
  delivered = tt;
  credits = tt;
}

abbrev both_bikes : List TradeCall
both_bikes =
    selling_bikes 1 none (record {
      customer_id = some 9;
      walk_in = 8;
      branch_id = none;
      lines =
          record { unit_id = 1; price = none; assembly_required = true }
          ∷ record { unit_id = 2; price = none; assembly_required = true }
          ∷ [];
      payments = [];
    })
    ∷ []

abbrev sold_both : Trade
sold_both = trade_all both_bikes opened

trade_all-Fine_example : TradeFine sold_both
trade_all-Fine_example = trade_all-Fine both_bikes opened opened-Fine

abbrev bill : Invoice
bill = bike_invoice 7 9 (some 1) (pos 300000)

bill_there : find_row invoice_key 7 sold_both.room.invoices ≡ some bill
unfolding trade_all trade handle is_valid all_positive sell_bikes_bulk prepare_all prepare
    sell_prepared new_bike_invoice sell_each sell_unit allowed_next can_transition is_sellable
    ride_all ride create_unit find_row set_row ◌+ℤ◌
bill_there = refl

till_is_mapped : has_mappings 1 sold_both.books.mappings ≡ true
unfolding trade_all trade handle is_valid all_positive sell_bikes_bulk prepare_all prepare
    sell_prepared new_bike_invoice sell_each sell_unit allowed_next can_transition is_sellable
    ride_all ride create_unit find_row set_row
till_is_mapped = refl

abbrev first_part : Lines
first_part = ("cash", pos 100000) ∷ []

record_payment-Booked_example :
    Ensures (λ _. Booked sold_both bill first_part) (record_payment 1 none 7 first_part sold_both)
record_payment-Booked_example =
    record_payment-Booked 1 none bill first_part sold_both 1 bill_there refl till_is_mapped

abbrev in_full : Lines
in_full = ("cash", pos 100000) ∷ ("cash", pos 200000) ∷ []

bill-Fine : InvoiceFine bill
bill-Fine = record {
  paid_nonneg = ground arith;
  paid_most = grind (int_laws);
  credit_nonneg = ground arith;
  rate_nonneg = ground arith;
}

due : ltb_ℤ (pos 0) (invoice_balance_zmw bill) ≡ true
unfolding to_zmw ◌-ℤ◌ ◌*ℤ◌
due = refl

exactly_due : amounts_of in_full ≡ invoice_balance_zmw bill
unfolding to_zmw amounts_of ◌-ℤ◌ ◌*ℤ◌ ◌+ℤ◌
exactly_due = refl

till_takes : returns (post_invoice_payments 1 (some 1) 7 in_full sold_both.books) ≡ true
unfolding trade_all trade handle is_valid all_positive sell_bikes_bulk prepare_all prepare
    sell_prepared new_bike_invoice sell_each sell_unit allowed_next can_transition is_sellable
    ride_all ride create_unit find_row set_row post_invoice_payments post_payments post_payment
    mapping_for post_movement
till_takes = refl

record_payment-pays_example : LeavesStatus 7 inv_paid (record_payment 1 none 7 in_full sold_both)
unfolding is_payable
record_payment-pays_example =
    record_payment-pays 1 none bill in_full sold_both bill-Fine bill_there refl due exactly_due
      till_takes

void_invoice-IsVoided_example :
    Ensures (λ _. IsVoided 7) (void_invoice 1 7 "wrong customer" sold_both)
void_invoice-IsVoided_example =
    let fine = trade_all-Fine both_bikes opened opened-Fine in
    void_invoice-IsVoided 1 "wrong customer" bill sold_both fine.netted fine.room_fine.0 bill_there

abbrev on_the_bill : ℕ → String → MotorcycleUnit
on_the_bill id chassis =
    sold_on bill
      (record {
        invoice_id = 7;
        customer_id = some 9;
        price_charged = some (pos 150000);
        assembly_required = true;
      })
      (new_unit (λ text. text) id 5 (bike chassis))

-- Of two bikes on the voided invoice, the first that is found is free again, and the other is not.
revert_sale-others_example :
    Ensures
      (λ _ after. find_row unit_key 1 after.units ≡ some (on_the_bill 1 "A1"))
      (revert_sale_for_invoice 1 7 sold_both.room)
unfolding trade_all trade handle is_valid all_positive sell_bikes_bulk prepare_all prepare
    sell_prepared new_bike_invoice sell_each sell_unit allowed_next can_transition is_sellable
    ride_all ride create_unit find_row set_row unit_by_sold_ref
revert_sale-others_example =
    revert_sale-others 1 7 1 (on_the_bill 2 "B2") (on_the_bill 1 "A1") sold_both.room refl refl refl
      refl

take-reverse_example :
    Ensures
      (λ _ after. balance till after.movements ≡ balance till ledger_of_till.movements)
      ((post_invoice_payments 1 (some 1) 7 in_full >> reverse_reference 1 invoice_payment 7)
        ledger_of_till)
unfolding net
take-reverse_example =
    take-reverse till 1 7 (some 1) in_full ledger_of_till ledger_of_till-IsNetted refl
