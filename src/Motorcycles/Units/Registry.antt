-- ===== src/Motorcycles/Units/Registry.antt =====
-- Every call on motorcycles keeps every unit in order, and a reversal leaves the units beside the one
-- it is of alone.
pub mod Single
use text.Mathlib.Text.{◌==◌ as str_eq}
use inventory_management_sys.Base.{
  ℕ, String, ◌≡◌, refl, ◌∙◌, false, ◌&&◌, not, ◌==◌, Option, none, some, List, [], ◌∷◌, All, arith,
  inl, inr, Bool-cases,
}
use inventory_management_sys.Base.Table.{find_row, All-set_row, find-set_row}
use inventory_management_sys.Base.Result.{Tx, Result, ok, err, Ensures, Triple, Triple-bind, ◌>>=◌}
use inventory_management_sys.Base.Steps.{gets-Triple, lookup-All, lookup-Triple}
use inventory_management_sys.Stock.Soundness.Reads.{raise_if-Triple}
use inventory_management_sys.Motorcycles.{
  SaleStatus, reserved, sold, can_transition, is_reservable, is_sellable,
}
use inventory_management_sys.Motorcycles.Units.{
  MotorcycleUnit, Showroom, unit_key, require_unit, save_unit, add_event, add_unit, dangles,
  is_of_model, has_chassis, UnitCreate, new_unit, create_unit, UnitUpdate, edited, is_stale,
  changed_unit, update_unit,
}
use inventory_management_sys.Motorcycles.Units.Selling.{
  has_own_action, is_on_hold, is_sold, is_given, moved_to, transition, reserved_for, reserve_unit,
  SellIn, sold_on, sell_unit, refers_to, unit_by_sold_ref, unsold, revert_unit,
  revert_sale_for_invoice, assembled_now, mark_assembled, same_ref, relocated, transfer_unit,
}
use inventory_management_sys.Motorcycles.Units.Calls.{
  UnitCall, creating, updating, moving_to, reserving, selling, reverting, assembling, relocating,
  ride, room_after, ride_all,
}
use inventory_management_sys.Motorcycles.Units.Keeping.{
  UnitFine, RoomFine, new_unit-Fine, moved_to-Fine, reserved_for-Fine, sold_on-Fine, unsold-Fine,
  assembled_now-Fine,
}
use inventory_management_sys.Sales.Invoices.{Invoice, invoice_key}
use inventory_management_sys.Motorcycles.Units.Registry.Single.{
  Kept, create_unit-Fine, update_unit-Fine, transition-Fine, reserve_unit-Fine, mark_assembled-Fine,
  transfer_unit-Fine, sell_unit-Fine, revert_sale-Fine,
}

module _ (Q : List Invoice → Type 0) where
  pub ride-Fine : (call : UnitCall) → Triple (Kept Q) (ride call) (λ _. Kept Q)
  unfolding ride
  ride-Fine (creating user req) = create_unit-Fine Q user req
  ride-Fine (updating unit_id req) = update_unit-Fine Q unit_id req
  ride-Fine (moving_to user unit_id new why) = transition-Fine Q user unit_id new why
  ride-Fine (reserving user unit_id customer order) =
      reserve_unit-Fine Q user unit_id customer order
  ride-Fine (selling user unit_id req) = sell_unit-Fine Q user unit_id req
  ride-Fine (reverting user invoice_id) = revert_sale-Fine Q user invoice_id
  ride-Fine (assembling user unit_id) = mark_assembled-Fine Q user unit_id
  ride-Fine (relocating user unit_id branch warehouse) =
      transfer_unit-Fine Q user unit_id branch warehouse

-- From a registry in which every unit is in order, every sequence of calls, returning or raising,
-- leads to such a registry: a unit has a customer exactly when it is reserved or sold, and an invoice
-- exactly when it is sold; it has a reason when it is on hold and a date of assembly when it is
-- assembled; and assembly is owed only of a sold unit without a date of assembly.
pub ride_all-Fine :
    (calls : List UnitCall) (room : Showroom) → RoomFine room → RoomFine (ride_all calls room)
unfolding ride_all
ride_all-Fine [] room f = f
ride_all-Fine (call ∷ calls) room f =
    ride_all-Fine calls (room_after room (ride call room))
      (after (ride call room) ((ride-Fine (λ is. Unit {0}) call).at room (f, tt)))
  where
    after :
        (r : Result (Unit {0} × Showroom))
        → Ensures (λ _. Kept (λ is. Unit {0})) r
        → RoomFine (room_after room r)
    after (ok (u, room')) t = t.0
    after (err e) t = f

-- Reversing the sale of an invoice changes no unit but the one that it finds: of two units that are
-- sold on an invoice, the other is sold on it still.
pub revert_sale-others :
    (user invoice_id k : ℕ) (u v : MotorcycleUnit) (room : Showroom)
    → unit_by_sold_ref invoice_id room.units ≡ some u
    → find_row unit_key u.id room.units ≡ some u
    → find_row unit_key k room.units ≡ some v
    → (u.id == k) ≡ false
    → Ensures
        (λ _ after. find_row unit_key k after.units ≡ some v)
        (revert_sale_for_invoice user invoice_id room)
unfolding revert_sale_for_invoice
revert_sale-others user invoice_id k u v room first there other apart =
    rw first (find-set_row unit_key k (unsold u) u room.units there ∙ rw apart other)
