-- ===== src/Sales/Orders/Delivering.antt =====
-- sales/service.py: `create_delivery`.
use inventory_management_sys.Base.{
  ℕ, Bool, true, false, not, Option, none, some, List, [], ◌∷◌, map, if◌then◌else◌,
}
use inventory_management_sys.Base.Int.{ℤ, pos, ◌+ℤ◌, ◌-ℤ◌, leb_ℤ, min_ℤ, max_ℤ}
use inventory_management_sys.Base.Dict.{Dict, get, dict_of}
use inventory_management_sys.Base.Result.{
  business_rule, Tx, pure, raise, raise_if, gets, ◌>>=◌, ◌>>◌,
}
use inventory_management_sys.Stock.Context.{Call, Wiring}
use inventory_management_sys.Stock.Service.Held.{HeldIssue, issue_against_reservation}
use inventory_management_sys.Sales.{is_deliverable, so_delivery_outcome}
use inventory_management_sys.Sales.Tables.{
  SalesOrderLine, DeliveryNoteLine, Shop, on_shelf, save_so, add_delivery,
}
use inventory_management_sys.Sales.Orders.{so_line_ref, require_so, add_audit}

-- Delivery: of each line what is wanted, at most what is outstanding, drawn on its own hold.
abbrev pub outstanding_of : SalesOrderLine → ℤ
outstanding_of line = line.qty -ℤ line.delivered_qty

abbrev pub wanted_or : Option ℤ → ℤ → ℤ
wanted_or none q = q
wanted_or (some w) q = w

abbrev pub deliver_qty : Dict ℤ → SalesOrderLine → ℤ
deliver_qty wanted line =
    max_ℤ (pos 0)
      (min_ℤ (wanted_or (get line.id wanted) (outstanding_of line)) (outstanding_of line))

abbrev pub sale_call : ℕ → Call
sale_call user = record { user_id = user; occurred_at = none; historical = false }

abbrev pub sale_issue : ℕ → SalesOrderLine → ℕ → ℤ → HeldIssue
sale_issue note_id line location q = record {
  product_id = line.product_id;
  warehouse_id = location;
  quantity = q;
  reference_type = "sales_delivery";
  reference_id = note_id;
  reason = "Sales delivery";
  reservation_ref = some line.id;
  reservation_ref_type = some so_line_ref;
  demand_source = some "sale";
}

-- Without a location no row is found.
abbrev pub issue_from_location : Wiring → ℕ → ℕ → SalesOrderLine → ℤ → Option ℕ → Tx Shop (Unit {0})
issue_from_location wiring user note_id line q none =
    raise (business_rule "Insufficient available stock to issue")
issue_from_location wiring user note_id line q (some location) =
    on_shelf
      (issue_against_reservation wiring (sale_call user) (sale_issue note_id line location q))

abbrev pub Delivered : Type 0
Delivered = List SalesOrderLine × List DeliveryNoteLine

abbrev pub delivered_of : SalesOrderLine → ℤ → SalesOrderLine × List DeliveryNoteLine
delivered_of line q = (
  record line { delivered_qty = line.delivered_qty +ℤ q },
  record { sales_order_line_id = line.id; product_id = line.product_id; qty = q } ∷ [],
)

abbrev pub deliver_one :
    Wiring
    → ℕ
    → ℕ
    → Option ℕ
    → SalesOrderLine
    → ℤ
    → Tx Shop (SalesOrderLine × List DeliveryNoteLine)
deliver_one wiring user note_id location line q =
    if leb_ℤ q (pos 0)
    then pure (line, [])
    else do issue_from_location wiring user note_id line q location; pure (delivered_of line q)

abbrev pub put_first : SalesOrderLine × List DeliveryNoteLine → Delivered → Delivered
put_first (line, []) (lines, notes) = (line ∷ lines, notes)
put_first (line, note ∷ _) (lines, notes) = (line ∷ lines, note ∷ notes)

unfoldable pub deliver_lines :
    Wiring → ℕ → ℕ → Option ℕ → Dict ℤ → List SalesOrderLine → Tx Shop Delivered
deliver_lines wiring user note_id location wanted [] = pure ([], [])
deliver_lines wiring user note_id location wanted (line ∷ lines) = do
  one ← deliver_one wiring user note_id location line (deliver_qty wanted line)
  rest ← deliver_lines wiring user note_id location wanted lines
  pure (put_first one rest)

abbrev pub is_nothing : List DeliveryNoteLine → Bool
is_nothing [] = true
is_nothing (_ ∷ _) = false

abbrev pub delivered_pair : SalesOrderLine → ℤ × ℤ
delivered_pair line = (line.delivered_qty, line.qty)

-- The id that the database draws for the note is an argument.
unfoldable pub create_delivery : Wiring → ℕ → ℕ → ℕ → List (ℕ × ℤ) → Tx Shop (Unit {0})
create_delivery wiring user note_id so_id wanted = do
  so ← require_so so_id
  raise_if (not (is_deliverable so.status))
      (business_rule "Sales order in this status cannot be delivered.")
  delivered ← deliver_lines wiring user note_id so.location_id (dict_of wanted) so.lines
  raise_if (is_nothing delivered.1)
      (business_rule "Nothing outstanding to deliver on this sales order.")
  now ← gets (λ (shop : Shop). shop.stock.now)
  add_delivery (record {
    id = note_id;
    sales_order_id = so.id;
    location_id = so.location_id;
    created_by = user;
    delivered_at = some now;
    lines = delivered.1;
  })
  let outcome = so_delivery_outcome (map delivered_pair delivered.0)
  save_so (record so { lines = delivered.0; status = outcome })
  add_audit "sales_delivery" note_id user "delivered"
