-- ===== src/Stock/Examples.antt =====
-- Stock calls on concrete tables: one warehouse pair, one product.
use inventory_management_sys.Base.{◌≡◌, ◌↔◌, refl, none, some, [], ◌∷◌, true, false, arith}
use inventory_management_sys.Base.Int.{ℤ, pos, ◌+ℤ◌, ◌-ℤ◌}
use inventory_management_sys.Base.Result.{Ensures}
use inventory_management_sys.Stock.Tables.{
  MovementType, Inventory, InventoryReservation, Product, Warehouse, Db,
}
use inventory_management_sys.Stock.Repository.{find, put}
use inventory_management_sys.Stock.Reservations.{
  reserve, consume, release, new_hold, hold_movement, find_hold, is_held_for,
}
use inventory_management_sys.Stock.Ledger.{stock, ledger, held}
use inventory_management_sys.Stock.Invariant.{IsSound}
use inventory_management_sys.Stock.Posting.{Locked}
use inventory_management_sys.Stock.Context.{Call, Wiring, get_or_create_locked}
use inventory_management_sys.Stock.Service.Inbound.{OpeningBalance, opening_balance}
use inventory_management_sys.Stock.Service.Issue.{IssueStockRequest, issue_line}
use inventory_management_sys.Stock.Service.Held.{HeldIssue, issue_against_reservation}
use inventory_management_sys.Stock.Service.Relocate.{TransferStockRequest}
use inventory_management_sys.Stock.Requests.{
  opening, issuing, transferring, perform, effect, accepts, Goods,
}
use inventory_management_sys.Stock.Serving.{serve, serve_one, serve-IsSound}
use inventory_management_sys.Stock.Refinement.Shows.{Shows}
use inventory_management_sys.Stock.Refinement.Spec.{perform-refines}
use inventory_management_sys.Stock.Availability.{Returns, Covered, issue_line-Returns}
use inventory_management_sys.Stock.Drawing.{Drawn, named, issue_against_reservation-Drawn}
use inventory_management_sys.Stock.Soundness.Holds.{HeldOn, Unheld}
use inventory_management_sys.Stock.Soundness.Release.{Released}
use inventory_management_sys.Stock.Soundness.Reserved.{OwnHold}
use inventory_management_sys.Stock.Reserving.{reserve_lem, consume_lem, release_lem}

-- Ten units, in ten-thousandths.
abbrev ten : ℤ
ten = pos 100000

abbrev four : ℤ
four = pos 40000

abbrev bolt : Product
bolt = record { reorder_point = some four }

abbrev site : Warehouse
site = record { branch_id = none }

abbrev empty_db : Db
empty_db = record {
  products = λ p. some bolt;
  warehouses = λ w. some site;
  inventory = [];
  movements = [];
  reservations = [];
  audit_logs = [];
  sales_daily = [];
  notifications = [];
  now = 7;
  today = 1;
}

empty_db-IsSound : IsSound empty_db
unfolding stock ledger held find
empty_db-IsSound = record {
  books = λ b p w. refl;
  holds = λ p w. refl;
  nonneg = λ b p w. ground arith;
  hold_nonneg = tt;
}

abbrev clerk : Call
clerk = record { user_id = 5; occurred_at = none; historical = false }

abbrev wired : Wiring
wired = record { has_reservations = true; has_notifications = true }

abbrev first_count : OpeningBalance
first_count = record {
  product_id = 1;
  warehouse_id = 1;
  quantity = ten;
  as_of = 3;
  reference_id = none;
  unit_cost = none;
}

abbrev to_branch : TransferStockRequest
to_branch = record {
  product_id = 1;
  from_warehouse_id = 1;
  to_warehouse_id = 2;
  quantity = four;
  reason = none;
}

abbrev four_out : IssueStockRequest
four_out = record {
  warehouse_id = 1;
  lines = record { product_id = 1; quantity = four } ∷ [];
  reference_type = none;
  reference_id = none;
  reason = none;
}

serve-IsSound_example : IsSound (
    serve
      (opening 5 first_count ∷ transferring clerk to_branch ∷ issuing wired clerk four_out ∷ [])
      empty_db)
serve-IsSound_example =
    serve-IsSound
      (opening 5 first_count ∷ transferring clerk to_branch ∷ issuing wired clerk four_out ∷ [])
      empty_db (tt, (tt, (tt, tt))) empty_db-IsSound

abbrev no_goods : Goods
no_goods p w = pos 0

-- The tables after the first count.
abbrev counted_row : Inventory
counted_row = record {
  product_id = 1;
  warehouse_id = 1;
  qty_on_hand = ten;
  qty_reserved = pos 0;
  qty_damaged = pos 0;
  version = 1;
}

abbrev stocked : Db
stocked = serve_one (opening 5 first_count) empty_db

empty_db-Shows : Shows no_goods empty_db
unfolding stock find
empty_db-Shows = record { sound = empty_db-IsSound; goods = λ p w. refl }

stocked-Shows : Shows (effect (opening 5 first_count) no_goods) stocked
unfolding serve_one perform opening_balance get_or_create_locked put find accepts ◌+ℤ◌
stocked-Shows = perform-refines (opening 5 first_count) no_goods empty_db refl tt empty_db-Shows

perform-refines_example :
    Ensures
      (λ _. Shows (effect (transferring clerk to_branch) (effect (opening 5 first_count) no_goods)))
      (perform (transferring clerk to_branch) stocked)
unfolding accepts
perform-refines_example =
    perform-refines (transferring clerk to_branch) (effect (opening 5 first_count) no_goods) stocked
      refl tt stocked-Shows

stocked-found : find 1 1 stocked.inventory ≡ some counted_row
unfolding serve_one perform opening_balance get_or_create_locked put find accepts ◌+ℤ◌
stocked-found = refl

stocked-known : stocked.products 1 ≡ some bolt
unfolding serve_one perform opening_balance get_or_create_locked put find accepts ◌+ℤ◌
stocked-known = refl

issue_line-Returns_example :
    Returns (issue_line wired clerk four_out (record { product_id = 1; quantity = four }) stocked)
    ↔ Covered wired clerk four_out (record { product_id = 1; quantity = four }) stocked
issue_line-Returns_example =
    issue_line-Returns wired clerk four_out (record { product_id = 1; quantity = four }) stocked
      bolt stocked-known

counted-Locked : Locked 1 1 counted_row stocked
counted-Locked = record { sound = stocked-Shows.sound; found = stocked-found }

-- Four units of the row are held for the order line 9.
abbrev held_row : Inventory
held_row = record counted_row { qty_reserved = four; version = 2 }

abbrev line_hold : InventoryReservation
line_hold = new_hold counted_row four 9 (some 5) "order_request_line"

reserve_lem_example :
    Ensures (λ _. IsSound) (reserve counted_row four 9 (some 5) "order_request_line" stocked)
reserve_lem_example =
    reserve_lem counted_row four 9 (some 5) "order_request_line" stocked (ground arith)
      counted-Locked

-- The tables with that hold.
abbrev holding : Db
holding = record stocked {
  inventory = held_row ∷ [];
  reservations = line_hold ∷ [];
  movements =
      hold_movement MovementType.reserve counted_row (pos 0 -ℤ four) "order_request_line" 9
        "Stock reserved" (some 5)
      ∷ stocked.movements;
}

holding-IsSound : IsSound holding
unfolding serve_one perform opening_balance get_or_create_locked put find accepts ◌+ℤ◌ reserve
holding-IsSound =
    reserve_lem counted_row four 9 (some 5) "order_request_line" stocked (ground arith)
      counted-Locked

holding-found : find 1 1 holding.inventory ≡ some held_row
unfolding find
holding-found = refl

holding-HeldOn : HeldOn 1 1 9 "order_request_line" held_row line_hold holding
unfolding find_hold is_held_for
holding-HeldOn = record {
  locked = record { sound = holding-IsSound; found = holding-found };
  hold = refl;
  of_product = refl;
  of_warehouse = refl;
}

consume_lem_example :
    Ensures
      (Unheld 1 1 held_row (pos 10000) (some line_hold))
      (consume held_row line_hold (pos 10000) none holding)
consume_lem_example =
    consume_lem held_row line_hold (pos 10000) none holding (ground arith) holding-HeldOn

release_lem_example :
    Ensures (Released 1 1 held_row line_hold) (release held_row line_hold none holding)
release_lem_example = release_lem held_row line_hold none holding holding-HeldOn

abbrev for_the_line : HeldIssue
for_the_line = record {
  product_id = 1;
  warehouse_id = 1;
  quantity = pos 10000;
  reference_type = "order_request";
  reference_id = 3;
  reason = "Order issue";
  reservation_ref = some 9;
  reservation_ref_type = none;
  demand_source = some "issue";
}

for_the_line-OwnHold : OwnHold for_the_line holding
unfolding find_hold is_held_for
for_the_line-OwnHold = record { matches = λ id r named found. grind arith }

issue_against_reservation-Drawn_example :
    Ensures
      (λ _. Drawn for_the_line held_row (named (some 9) "order_request_line" holding))
      (issue_against_reservation wired clerk for_the_line holding)
issue_against_reservation-Drawn_example =
    issue_against_reservation-Drawn wired clerk for_the_line holding held_row holding-IsSound
      for_the_line-OwnHold holding-found
