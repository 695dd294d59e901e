-- ===== src/Motorcycles/Units/Calls.antt =====
-- motorcycles/api.py: the calls on motorcycles, each in its own transaction. A sale and its reversal
-- come from the sales service.
use inventory_management_sys.Base.{ℕ, String, Option, List, [], ◌∷◌}
use inventory_management_sys.Base.Result.{Tx, Result, ok, err}
use inventory_management_sys.Motorcycles.{SaleStatus}
use inventory_management_sys.Motorcycles.Units.{
  Showroom, UnitCreate, create_unit, UnitUpdate, update_unit,
}
use inventory_management_sys.Motorcycles.Units.Selling.{
  transition, reserve_unit, SellIn, sell_unit, revert_sale_for_invoice, mark_assembled,
  transfer_unit,
}

pub data UnitCall : Type 0 where
  creating : ℕ → UnitCreate → UnitCall
  updating : ℕ → UnitUpdate → UnitCall
  moving_to : ℕ → ℕ → SaleStatus → String → UnitCall
  reserving : ℕ → ℕ → ℕ → Option ℕ → UnitCall
  selling : ℕ → ℕ → SellIn → UnitCall
  reverting : ℕ → ℕ → UnitCall
  assembling : ℕ → ℕ → UnitCall
  relocating : ℕ → ℕ → ℕ → Option ℕ → UnitCall

unfoldable pub ride : UnitCall → Tx Showroom (Unit {0})
ride (creating user req) = create_unit user req
ride (updating unit_id req) = update_unit unit_id req
ride (moving_to user unit_id new reason) = transition user unit_id new reason
ride (reserving user unit_id customer order) = reserve_unit user unit_id customer order
ride (selling user unit_id req) = sell_unit user unit_id req
ride (reverting user invoice_id) = revert_sale_for_invoice user invoice_id
ride (assembling user unit_id) = mark_assembled user unit_id
ride (relocating user unit_id branch warehouse) = transfer_unit user unit_id branch warehouse

abbrev pub room_after : Showroom → Result (Unit {0} × Showroom) → Showroom
room_after room (ok (_, after)) = after
room_after room (err _) = room

unfoldable pub ride_all : List UnitCall → Showroom → Showroom
ride_all [] room = room
ride_all (call ∷ calls) room = ride_all calls (room_after room (ride call room))
