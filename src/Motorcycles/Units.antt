-- ===== src/Motorcycles/Units.antt =====
-- motorcycles/service.py: the registry of motorcycles, one row for each chassis. Prices are
-- ten-thousandths, and a hold reason arrives stripped. Python's `str.strip` and `str.lower` and the
-- `lower` of the database are parameters, which the tables carry. Of a unit the columns that the
-- operations look at or set are kept; engine, papers, warranty and the like are left out.
pub mod Selling
pub mod Keeping
pub mod Calls
pub mod Registry
use text.Mathlib.Text.{◌==◌ as str_eq}
use inventory_management_sys.Base.{
  ℕ, String, Bool, true, false, ◌&&◌, ◌||◌, not, ◌==◌, ◌+◌, Option, none, some, List, [], ◌∷◌,
  if◌then◌else◌,
}
use inventory_management_sys.Base.Int.{ℤ}
use inventory_management_sys.Base.Table.{find_row, set_row}
use inventory_management_sys.Base.Result.{
  not_found, business_rule, conflict, Tx, pure, raise_if, gets, modify, or_raise, ◌>>=◌, ◌>>◌,
}
use inventory_management_sys.Motorcycles.{
  SaleStatus, unassembled, assembled, reserved, on_hold, sold, can_transition,
}
use inventory_management_sys.Sales.Invoices.{Invoice}

pub data PaymentStatus : Type 0 where
  unpaid partial paid : PaymentStatus

pub record MotorcycleUnit : Type 0 where
  pub id : ℕ
  pub chassis_number : String
  pub model_id : ℕ
  pub variant_id : Option ℕ
  pub colour_id : Option ℕ
  pub branch_id : Option ℕ
  pub warehouse_id : Option ℕ
  pub status : SaleStatus
  pub hold_reason : Option String
  pub reserved_ref : Option ℕ
  pub sold_ref : Option ℕ
  pub customer_id : Option ℕ
  pub selling_price : Option ℤ
  pub price_charged : Option ℤ
  pub payment_status : PaymentStatus
  pub assembled_date : Option ℕ
  pub assembly_pending : Bool
  pub version : ℕ

pub record UnitEvent : Type 0 where
  pub unit_id : ℕ
  pub event_type : String
  pub from_status : Option SaleStatus
  pub to_status : Option SaleStatus
  pub user_id : ℕ

-- The units and their events, the invoices, what the operations ask of other tables, and the
-- functions on texts.
pub record Showroom : Type 0 where
  pub units : List MotorcycleUnit
  pub events : List UnitEvent
  pub invoices : List Invoice
  pub has_model : ℕ → Bool
  pub variant_model : ℕ → Option ℕ
  pub has_colour : ℕ → Bool
  pub has_supplier : ℕ → Bool
  pub customer_exists : ℕ → Bool
  pub has_sales_order : ℕ → Bool
  pub out_on_loan : ℕ → Bool
  pub on_open_consignment : ℕ → Bool
  pub strip : String → String
  pub lower : String → String
  pub sql_lower : String → String
  pub today : ℕ
  pub next_unit_id : ℕ

abbrev pub unit_key : MotorcycleUnit → ℕ
unit_key u = u.id

abbrev pub require_unit : ℕ → Tx Showroom MotorcycleUnit
require_unit unit_id = do
  found ← gets (λ (room : Showroom). find_row unit_key unit_id room.units)
  or_raise found (not_found "Motorcycle unit not found")

abbrev pub save_unit : MotorcycleUnit → Tx Showroom (Unit {0})
save_unit u = modify λ (room : Showroom). record room { units = set_row unit_key u room.units }

abbrev pub add_event :
    ℕ → String → Option SaleStatus → Option SaleStatus → ℕ → Tx Showroom (Unit {0})
add_event unit_id kind before after user = modify λ (room : Showroom). record room {
  events =
      record {
        unit_id = unit_id;
        event_type = kind;
        from_status = before;
        to_status = after;
        user_id = user;
      }
      ∷ room.events;
}

-- A reference that is given is to something that is there.
abbrev pub dangles : (ℕ → Bool) → Option ℕ → Bool
dangles there none = false
dangles there (some id) = not (there id)

abbrev pub is_of_model : ℕ → Option ℕ → Bool
is_of_model model_id none = false
is_of_model model_id (some m) = m == model_id

-- Some unit's number is the text, once the database has put it in lower case.
abbrev pub is_listed : (String → String) → String → List MotorcycleUnit → Bool
is_listed sql_lower text [] = false
is_listed sql_lower text (u ∷ us) =
    str_eq (sql_lower u.chassis_number) text || is_listed sql_lower text us

-- `get_unit_by_chassis` finds a unit.
abbrev pub has_chassis : String → Showroom → Bool
has_chassis chassis room = is_listed room.sql_lower (room.lower (room.strip chassis)) room.units

pub record UnitCreate : Type 0 where
  pub chassis_number : String
  pub model_id : ℕ
  pub variant_id : Option ℕ
  pub colour_id : Option ℕ
  pub supplier_id : Option ℕ
  pub branch_id : Option ℕ
  pub warehouse_id : Option ℕ
  pub selling_price : Option ℤ
  pub assembly_required : Bool

abbrev pub new_unit : (String → String) → ℕ → ℕ → UnitCreate → MotorcycleUnit
new_unit strip id today req = record {
  id = id;
  chassis_number = strip req.chassis_number;
  model_id = req.model_id;
  variant_id = req.variant_id;
  colour_id = req.colour_id;
  branch_id = req.branch_id;
  warehouse_id = req.warehouse_id;
  status = if req.assembly_required then unassembled else assembled;
  hold_reason = none;
  reserved_ref = none;
  sold_ref = none;
  customer_id = none;
  selling_price = req.selling_price;
  price_charged = none;
  payment_status = unpaid;
  assembled_date = if req.assembly_required then none else some today;
  assembly_pending = false;
  version = 0;
}

abbrev pub add_unit : MotorcycleUnit → Tx Showroom (Unit {0})
add_unit u = modify λ (room : Showroom). record room {
  units = u ∷ room.units;
  next_unit_id = room.next_unit_id + 1;
}

unfoldable pub create_unit : ℕ → UnitCreate → Tx Showroom (Unit {0})
create_unit user req = do
  room ← gets (λ (room : Showroom). room)
  raise_if (not (room.has_model req.model_id)) (not_found "Model not found")
  raise_if (has_chassis req.chassis_number room) (conflict "Chassis number already exists.")
  raise_if (dangles (λ v. is_of_model req.model_id (room.variant_model v)) req.variant_id)
      (business_rule "Variant does not belong to the chosen model.")
  raise_if (dangles room.has_colour req.colour_id) (not_found "Colour not found")
  raise_if (dangles room.has_supplier req.supplier_id) (not_found "Supplier not found")
  let u = new_unit room.strip room.next_unit_id room.today req
  add_unit u
  add_event u.id "created" none (some u.status) user

-- A field that an edit may leave out.
pub data Edit (A : Type 0) : Type 0 where
  leave : Edit A
  put : A → Edit A

module _ {A : Type 0} where
  abbrev pub edited : Edit A → A → A
  edited leave old = old
  edited (put a) old = a

pub record UnitUpdate : Type 0 where
  pub variant_id : Edit (Option ℕ)
  pub colour_id : Edit (Option ℕ)
  pub supplier_id : Edit (Option ℕ)
  pub warehouse_id : Edit (Option ℕ)
  pub selling_price : Edit (Option ℤ)
  pub version : Option ℕ

abbrev pub is_stale : ℕ → Option ℕ → Bool
is_stale version none = false
is_stale version (some v) = not (v == version)

abbrev pub changed_unit : UnitUpdate → MotorcycleUnit → MotorcycleUnit
changed_unit req u = record u {
  variant_id = edited req.variant_id u.variant_id;
  colour_id = edited req.colour_id u.colour_id;
  warehouse_id = edited req.warehouse_id u.warehouse_id;
  selling_price = edited req.selling_price u.selling_price;
  version = u.version + 1;
}

unfoldable pub update_unit : ℕ → UnitUpdate → Tx Showroom (Unit {0})
update_unit unit_id req = do
  u ← require_unit unit_id
  raise_if (is_stale u.version req.version)
      (conflict "This unit was changed by someone else since you loaded it; reload and retry.")
  room ← gets (λ (room : Showroom). room)
  raise_if
      (dangles (λ v. is_of_model u.model_id (room.variant_model v)) (edited req.variant_id none))
      (business_rule "Variant does not belong to this unit's model.")
  raise_if (dangles room.has_colour (edited req.colour_id none)) (not_found "Colour not found")
  raise_if (dangles room.has_supplier (edited req.supplier_id none))
      (not_found "Supplier not found")
  save_unit (changed_unit req u)
