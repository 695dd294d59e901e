-- ===== src/Motorcycles/Units/Registry/Single.antt =====
-- Each call on a motorcycle keeps every unit in order.
use text.Mathlib.Text.{◌==◌ as str_eq}
use inventory_management_sys.Base.{
  ℕ, String, ◌≡◌, refl, ◌&&◌, not, Option, none, some, List, [], ◌∷◌, All, arith, inl, inr,
  Bool-cases,
}
use inventory_management_sys.Base.Table.{All-set_row}
use inventory_management_sys.Base.Result.{Tx, Ensures, Triple, Triple-bind, ◌>>=◌}
use inventory_management_sys.Base.Steps.{gets-Triple, lookup-All, lookup-Triple}
use inventory_management_sys.Stock.Soundness.Reads.{raise_if-Triple}
use inventory_management_sys.Motorcycles.{
  SaleStatus, reserved, sold, can_transition, is_reservable, is_sellable,
}
use inventory_management_sys.Motorcycles.Units.{
  MotorcycleUnit, Showroom, unit_key, require_unit, save_unit, add_event, add_unit, dangles,
  is_of_model, has_chassis, UnitCreate, new_unit, create_unit, UnitUpdate, edited, is_stale,
  changed_unit, update_unit,
}
use inventory_management_sys.Motorcycles.Units.Selling.{
  has_own_action, is_on_hold, is_sold, is_given, moved_to, transition, reserved_for, reserve_unit,
  SellIn, sold_on, sell_unit, refers_to, unit_by_sold_ref, unsold, revert_unit,
  revert_sale_for_invoice, assembled_now, mark_assembled, same_ref, relocated, transfer_unit,
}
use inventory_management_sys.Motorcycles.Units.Keeping.{
  UnitFine, RoomFine, new_unit-Fine, moved_to-Fine, reserved_for-Fine, sold_on-Fine, unsold-Fine,
  assembled_now-Fine,
}
use inventory_management_sys.Sales.Invoices.{Invoice, invoice_key}

-- Every unit is in order, and the invoices are as they are.
abbrev pub Kept : (List Invoice → Type 0) → Showroom → Type 0
Kept Q room = RoomFine room × Q room.invoices

by_ref-Fine :
    (invoice_id : ℕ) (units : List MotorcycleUnit) (u : MotorcycleUnit)
    → All UnitFine units
    → unit_by_sold_ref invoice_id units ≡ some u
    → UnitFine u
unfolding unit_by_sold_ref
by_ref-Fine invoice_id [] u fs e = absurd (ground arith)
by_ref-Fine invoice_id (x ∷ xs) u (f, fs) e = elim (Bool-cases (refers_to invoice_id x.sold_ref)) [
  | inl here ↦ let same : x ≡ u = ground arith in rw (← same) f
  | inr later ↦ by_ref-Fine invoice_id xs u fs (rw later at e)
]

module _ (Q : List Invoice → Type 0) where
  event-Fine :
      (id : ℕ) (kind : String) (before after : Option SaleStatus) (user : ℕ)
      → Triple (Kept Q) (add_event id kind before after user) (λ _. Kept Q)
  event-Fine id kind before after user = record { at = λ room f. f }

  save-Fine : (u : MotorcycleUnit) → UnitFine u → Triple (Kept Q) (save_unit u) (λ _. Kept Q)
  save-Fine u fine = record {
    at = λ room f. (All-set_row unit_key UnitFine u room.units fine f.0, f.1);
  }

  add-Fine : (u : MotorcycleUnit) → UnitFine u → Triple (Kept Q) (add_unit u) (λ _. Kept Q)
  add-Fine u fine = record { at = λ room f. ((fine, f.0), f.1) }

  -- A unit that is changed by itself.
  one_unit :
      {m : MotorcycleUnit → Tx Showroom (Unit {0})} (unit_id : ℕ)
      → ((u : MotorcycleUnit) → UnitFine u → Triple (Kept Q) (m u) (λ _. Kept Q))
      → Triple (Kept Q) (require_unit unit_id >>= m) (λ _. Kept Q)
  one_unit {m} unit_id t =
      lookup-All unit_key unit_id (λ room. room.units) UnitFine _ m (λ room f. f.0) t

  pub create_unit-Fine :
      (user : ℕ) (req : UnitCreate) → Triple (Kept Q) (create_unit user req) (λ _. Kept Q)
  unfolding create_unit
  create_unit-Fine user req =
      gets-Triple (λ room. room) _
        λ (room : Showroom). raise_if-Triple (not (room.has_model req.model_id)) _ _ λ a.
          raise_if-Triple (has_chassis req.chassis_number room) _ _ λ b.
            raise_if-Triple
              (dangles (λ v. is_of_model req.model_id (room.variant_model v)) req.variant_id) _ _
              λ c. raise_if-Triple (dangles room.has_colour req.colour_id) _ _ λ d.
                raise_if-Triple (dangles room.has_supplier req.supplier_id) _ _ λ e.
                  let u = new_unit room.strip room.next_unit_id room.today req in
                  Triple-bind
                    (add-Fine u (new_unit-Fine room.strip room.next_unit_id room.today req))
                    λ v. event-Fine u.id "created" none (some u.status) user

  pub update_unit-Fine :
      (unit_id : ℕ) (req : UnitUpdate) → Triple (Kept Q) (update_unit unit_id req) (λ _. Kept Q)
  unfolding update_unit
  update_unit-Fine unit_id req = one_unit unit_id λ u f.
      raise_if-Triple (is_stale u.version req.version) _ _ λ a.
        gets-Triple (λ room. room) _
          λ (room : Showroom).
            raise_if-Triple
              (dangles (λ v. is_of_model u.model_id (room.variant_model v))
                (edited req.variant_id none))
              _ _
              λ b. raise_if-Triple (dangles room.has_colour (edited req.colour_id none)) _ _ λ c.
                raise_if-Triple (dangles room.has_supplier (edited req.supplier_id none)) _ _ λ d.
                  save-Fine (changed_unit req u) (record {
                    customer = f.customer;
                    sale = f.sale;
                    reason = f.reason;
                    dated = f.dated;
                    owes = f.owes;
                  })

  pub transition-Fine :
      (user unit_id : ℕ) (new : SaleStatus) (why : String)
      → Triple (Kept Q) (transition user unit_id new why) (λ _. Kept Q)
  unfolding transition
  transition-Fine user unit_id new why = one_unit unit_id λ u f.
      raise_if-Triple (has_own_action new) _ _ λ own.
        raise_if-Triple (not (can_transition u.status new)) _ _ λ can.
          raise_if-Triple (is_on_hold new && str_eq why "") _ _ λ a.
            gets-Triple (λ room. room.today) _
              λ today.
                Triple-bind
                  (save-Fine (moved_to new why today u) (moved_to-Fine new why today u f own can))
                  λ v. event-Fine u.id "status_change" (some u.status) (some new) user

  pub reserve_unit-Fine :
      (user unit_id customer : ℕ) (order : Option ℕ)
      → Triple (Kept Q) (reserve_unit user unit_id customer order) (λ _. Kept Q)
  unfolding reserve_unit
  reserve_unit-Fine user unit_id customer order = one_unit unit_id λ u f.
      raise_if-Triple (not (is_reservable u.status)) _ _ λ can.
        gets-Triple (λ room. room) _
          λ (room : Showroom). raise_if-Triple (room.out_on_loan u.id) _ _ λ a.
            raise_if-Triple (room.on_open_consignment u.id) _ _ λ b.
              raise_if-Triple (not (room.customer_exists customer)) _ _ λ c.
                raise_if-Triple (dangles room.has_sales_order order) _ _ λ d.
                  Triple-bind
                    (save-Fine (reserved_for customer order u)
                      (reserved_for-Fine customer order u f can))
                    λ v. event-Fine u.id "reserved" (some u.status) (some reserved) user

  pub sell_unit-Fine :
      (user unit_id : ℕ) (req : SellIn) → Triple (Kept Q) (sell_unit user unit_id req) (λ _. Kept Q)
  unfolding sell_unit
  sell_unit-Fine user unit_id req = one_unit unit_id λ u f.
      raise_if-Triple (not (is_sellable u.status)) _ _ λ can.
        gets-Triple (λ room. room) _
          λ (room : Showroom). raise_if-Triple (room.out_on_loan u.id) _ _ λ a.
            raise_if-Triple (room.on_open_consignment u.id) _ _ λ b.
              lookup-Triple invoice_key req.invoice_id (λ room. room.invoices) _ _
                λ i own.
                  Triple-bind (save-Fine (sold_on i req u) (sold_on-Fine i req u f))
                    λ v. event-Fine u.id "sold" (some u.status) (some sold) user

  pub mark_assembled-Fine :
      (user unit_id : ℕ) → Triple (Kept Q) (mark_assembled user unit_id) (λ _. Kept Q)
  unfolding mark_assembled
  mark_assembled-Fine user unit_id = one_unit unit_id λ u f.
      raise_if-Triple (is_given u.assembled_date && not u.assembly_pending) _ _ λ a.
        gets-Triple (λ room. room.today) _
          λ today.
            Triple-bind (save-Fine (assembled_now today u) (assembled_now-Fine today u f)) λ v.
              event-Fine u.id "assembled" (some u.status) (some (assembled_now today u).status) user

  pub transfer_unit-Fine :
      (user unit_id branch : ℕ) (warehouse : Option ℕ)
      → Triple (Kept Q) (transfer_unit user unit_id branch warehouse) (λ _. Kept Q)
  unfolding transfer_unit
  transfer_unit-Fine user unit_id branch warehouse = one_unit unit_id λ u f.
      raise_if-Triple (is_sold u.status) _ _ λ a.
        raise_if-Triple (same_ref u.branch_id (some branch) && same_ref warehouse u.warehouse_id) _
          _
          λ b.
            Triple-bind
              (save-Fine (relocated branch warehouse u) (record {
                customer = f.customer;
                sale = f.sale;
                reason = f.reason;
                dated = f.dated;
                owes = f.owes;
              }))
              λ v. event-Fine u.id "transfer" none none user

  pub revert_sale-Fine :
      (user invoice_id : ℕ)
      → Triple (Kept Q) (revert_sale_for_invoice user invoice_id) (λ _. Kept Q)
  unfolding revert_sale_for_invoice
  revert_sale-Fine user invoice_id = record {
    at = λ room f. go room f (unit_by_sold_ref invoice_id room.units) refl;
  }
    where
      go :
          (room : Showroom)
          → Kept Q room
          → (o : Option MotorcycleUnit) → unit_by_sold_ref invoice_id room.units ≡ o
          → Ensures (λ _. Kept Q) (revert_unit user o room)
      go room f none e = f
      go room f (some u) e = (
        All-set_row unit_key UnitFine (unsold u) room.units
            (unsold-Fine u (by_ref-Fine invoice_id room.units u f.0 e)) f.0,
        f.1,
      )
