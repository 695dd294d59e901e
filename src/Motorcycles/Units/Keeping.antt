-- ===== src/Motorcycles/Units/Keeping.antt =====
-- What the calls on motorcycles keep of each unit.
use inventory_management_sys.Base.{
  ℕ, String, ◌≡◌, refl, Bool, true, false, ◌&&◌, not, Option, none, some, All, arith, if◌then◌else◌,
}
use inventory_management_sys.Motorcycles.{
  SaleStatus, unassembled, assembled, reserved, sold, can_transition, is_reservable,
}
use inventory_management_sys.Motorcycles.Units.{MotorcycleUnit, Showroom, UnitCreate, new_unit}
use inventory_management_sys.Motorcycles.Units.Selling.{
  has_own_action, is_on_hold, is_assembled, is_sold, is_given, moved_to, reserved_for, SellIn,
  sold_on, unsold, assembled_now,
}
use inventory_management_sys.Sales.Invoices.{Invoice}

-- `status in CUSTOMER_STATUSES`
abbrev pub carries_customer : SaleStatus → Bool
carries_customer reserved = true
carries_customer sold = true
carries_customer _ = false

-- A unit has a customer exactly when it is reserved or sold, an invoice exactly when it is sold, a
-- reason when it is on hold and a date when it is assembled; assembly is owed only of a sold one
-- without a date.
pub record UnitFine (u : MotorcycleUnit) : Type 0 where
  pub customer : is_given u.customer_id ≡ carries_customer u.status
  pub sale : is_given u.sold_ref ≡ is_sold u.status
  pub reason : (is_on_hold u.status && not (is_given u.hold_reason)) ≡ false
  pub dated : (is_assembled u.status && not (is_given u.assembled_date)) ≡ false
  pub owes :
      (u.assembly_pending && not (is_sold u.status && not (is_given u.assembled_date))) ≡ false

abbrev pub RoomFine : Showroom → Type 0
RoomFine room = All UnitFine room.units

pub new_unit-Fine :
    (strip : String → String) (id today : ℕ) (req : UnitCreate)
    → UnitFine (new_unit strip id today req)
new_unit-Fine strip id today req = go req.assembly_required
  where
    go :
        (b : Bool)
        → UnitFine (record (new_unit strip id today req) {
          status = if b then unassembled else assembled;
          assembled_date = if b then none else some today;
        })
    go true = record { customer = refl; sale = refl; reason = refl; dated = refl; owes = refl }
    go false = record { customer = refl; sale = refl; reason = refl; dated = refl; owes = refl }

pub moved_to-Fine :
    (new : SaleStatus) (why : String) (today : ℕ) (u : MotorcycleUnit)
    → UnitFine u
    → has_own_action new ≡ false
    → not (can_transition u.status new) ≡ false
    → UnitFine (moved_to new why today u)
unfolding can_transition
moved_to-Fine new why today u f own can = record {
  customer = ground (arith, f.customer);
  sale = ground (arith, f.sale);
  reason = ground (arith, f.reason);
  dated = ground (arith, f.dated);
  owes = ground (arith, f.owes);
}

pub reserved_for-Fine :
    (customer : ℕ) (order : Option ℕ) (u : MotorcycleUnit)
    → UnitFine u
    → not (is_reservable u.status) ≡ false
    → UnitFine (reserved_for customer order u)
unfolding is_reservable
reserved_for-Fine customer order u f can = record {
  customer = refl;
  sale = ground (arith, f.sale);
  reason = refl;
  dated = refl;
  owes = ground (arith, f.owes);
}

pub sold_on-Fine :
    (i : Invoice) (req : SellIn) (u : MotorcycleUnit) → UnitFine u → UnitFine (sold_on i req u)
sold_on-Fine i req u f = record {
  customer = refl;
  sale = refl;
  reason = refl;
  dated = refl;
  owes = ground arith;
}

pub unsold-Fine : (u : MotorcycleUnit) → UnitFine u → UnitFine (unsold u)
unsold-Fine u f = go u.assembled_date
  where
    go :
        (d : Option ℕ)
        → UnitFine (record (unsold u) {
          status = if is_given d then assembled else unassembled;
          assembled_date = d;
        })
    go none = record { customer = refl; sale = refl; reason = refl; dated = refl; owes = refl }
    go (some d) = record { customer = refl; sale = refl; reason = refl; dated = refl; owes = refl }

pub assembled_now-Fine :
    (today : ℕ) (u : MotorcycleUnit) → UnitFine u → UnitFine (assembled_now today u)
assembled_now-Fine today u f = record {
  customer = ground (arith, f.customer);
  sale = ground (arith, f.sale);
  reason = ground (arith, f.reason);
  dated = ground arith;
  owes = refl;
}
