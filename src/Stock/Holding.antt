-- ===== src/Stock/Holding.antt =====
-- What the found hold tells, and the holds after `reserve`, `consume` and `release`.
use text.Mathlib.TextEquality.{eq_iff}
use inventory_management_sys.Base.{
  ℕ, String, ◌≡◌, ap, true, inl, inr, Bool-cases, ◌&&◌, ◌==◌, if◌then◌else◌, some, List, [], ◌∷◌,
  arith, All,
}
use inventory_management_sys.Base.Int.{ℤ, pos, ◌-ℤ◌, ◌≤ℤ◌, int_laws}
use inventory_management_sys.Stock.Tables.{InventoryReservation}
use inventory_management_sys.Stock.Reservations.{
  is_active, is_held_for, find_hold, put_hold, consumed_hold,
}
use inventory_management_sys.Stock.Ledger.{hold_qty, held}

-- A found hold is active and is the one asked for, and it is found by its own reference too.
pub record FoundHold (id : ℕ) (kind : String) (rs : List InventoryReservation)
    (r : InventoryReservation) : Type 0 where
  pub is_held : is_active r.status ≡ true
  pub same_id : r.reference_id ≡ id
  pub same_kind : r.reference_type ≡ kind

pub find_hold-FoundHold :
    (id : ℕ) (kind : String) (rs : List InventoryReservation) (r : InventoryReservation)
    → find_hold id kind rs ≡ some r
    → FoundHold id kind rs r
unfolding find_hold is_held_for
find_hold-FoundHold id kind [] r h = cc
find_hold-FoundHold id kind (x ∷ xs) r h =
    ground (arith, eq_iff x.reference_type kind, find_hold-FoundHold id kind xs r)

pub find_hold-own :
    (id : ℕ) (kind : String) (rs : List InventoryReservation) (r : InventoryReservation)
    → find_hold id kind rs ≡ some r
    → find_hold r.reference_id r.reference_type rs ≡ some r
find_hold-own id kind rs r h =
    let f = find_hold-FoundHold id kind rs r h in cc (h, f.same_id, f.same_kind)

hold_qty_nonneg : (p w : ℕ) (r : InventoryReservation) → pos 0 ≤ℤ r.qty → pos 0 ≤ℤ hold_qty p w r
unfolding hold_qty
hold_qty_nonneg p w r h = ground arith

pub held_nonneg :
    (p w : ℕ) (rs : List InventoryReservation) → All (λ h. pos 0 ≤ℤ h.qty) rs → pos 0 ≤ℤ held p w rs
unfolding held hold_qty
held_nonneg p w [] a = omega arith
held_nonneg p w (x ∷ xs) (a, rest) = grind (int_laws, held_nonneg p w xs rest)

-- A found hold is a part of the total of its product and warehouse.
pub hold-le-held :
    (id : ℕ) (kind : String) (p w : ℕ) (rs : List InventoryReservation) (r : InventoryReservation)
    → find_hold id kind rs ≡ some r
    → All (λ h. pos 0 ≤ℤ h.qty) rs
    → (pos 0 ≤ℤ r.qty) × (hold_qty p w r ≤ℤ held p w rs)
unfolding held find_hold
hold-le-held id kind p w [] r h a = cc
hold-le-held id kind p w (x ∷ xs) r h (a, rest) = elim (Bool-cases (is_held_for id kind x)) [
  | inl yes_held ↦
      let e : x ≡ r = ground arith in
      grind (int_laws, e, ap (hold_qty p w) e, held_nonneg p w xs rest)
  | inr not_held ↦ grind (int_laws, hold_qty_nonneg p w x a, hold-le-held id kind p w xs r)
]

pub All-put_hold :
    (id : ℕ) (kind : String) (h : InventoryReservation) (rs : List InventoryReservation)
    → pos 0 ≤ℤ h.qty
    → All (λ h. pos 0 ≤ℤ h.qty) rs
    → All (λ h. pos 0 ≤ℤ h.qty) (put_hold id kind h rs)
unfolding put_hold
All-put_hold id kind h [] p a = tt
All-put_hold id kind h (x ∷ xs) p (a, rest) = ground (arith, All-put_hold id kind h xs p rest)

-- However much of it is taken, a consumed hold counts for what is left.
pub consumed_hold_qty :
    (now p w : ℕ) (r : InventoryReservation) (take : ℤ)
    → is_active r.status ≡ true
    → take ≤ℤ r.qty
    → (hold_qty p w (consumed_hold now r take)
        ≡ (if r.product_id == p && r.warehouse_id == w then r.qty -ℤ take else pos 0))
      × (pos 0 ≤ℤ (consumed_hold now r take).qty)
unfolding hold_qty
consumed_hold_qty now p w r take act le = grind (int_laws)
