-- ===== src/Stock/Places.antt =====
-- The holds of demand lines of one kind stand on the product and the location of their line.
use text.Mathlib.Text.{◌==◌ as str_eq}
use text.Mathlib.TextEquality.{eq_iff}
use inventory_management_sys.Base.{
  ℕ, String, ◌≡◌, Bool, true, ◌&&◌, ◌||◌, not, inl, inr, Bool-cases, ◌==◌, Option, some, List, [],
  ◌∷◌, All, arith,
}
use inventory_management_sys.Base.Int.{ℤ, pos, ◌-ℤ◌, leb_ℤ, min_ℤ}
use inventory_management_sys.Base.Result.{Triple}
use inventory_management_sys.Stock.Tables.{Inventory, InventoryReservation, released, Db}
use inventory_management_sys.Stock.Reservations.{
  is_held_for, find_hold, put_hold, consumed_hold, reserve, consume, release,
}

-- Where the stock of a line is: the product and the location, by the id of the line. The lemmas
-- are about the holds of one kind of lines.
abbrev pub Place : Type 0
Place = ℕ → ℕ × ℕ

abbrev pub stands_at : String → Place → InventoryReservation → Bool
stands_at kind place r =
    not (str_eq r.reference_type kind)
    || ((place r.reference_id).0 == r.product_id && (place r.reference_id).1 == r.warehouse_id)

abbrev pub HoldsAt : String → Place → List InventoryReservation → Type 0
HoldsAt kind place rs = All (λ r. stands_at kind place r ≡ true) rs

held_at :
    (kind : String) (place : Place) (id : ℕ) (r : InventoryReservation)
    → is_held_for id kind r ≡ true
    → stands_at kind place r ≡ true
    → (stands_at kind place r ≡ true)
      × (r.product_id ≡ (place id).0)
      × (r.warehouse_id ≡ (place id).1)
unfolding is_held_for
held_at kind place id r here h =
    let same_id : r.reference_id ≡ id = ground arith in
    let test : ((place r.reference_id).0 == r.product_id
          && (place r.reference_id).1 == r.warehouse_id)
        ≡ true =
      ground (arith, eq_iff r.reference_type kind) in
    (h, rw (← same_id) (ground arith), rw (← same_id) (ground arith))

-- A found hold of a line stands where the line's stock is.
pub find_hold-at :
    (kind : String) (place : Place) (id : ℕ) (rs : List InventoryReservation)
    (r : InventoryReservation)
    → find_hold id kind rs ≡ some r
    → HoldsAt kind place rs
    → (stands_at kind place r ≡ true)
      × (r.product_id ≡ (place id).0)
      × (r.warehouse_id ≡ (place id).1)
unfolding find_hold is_held_for
find_hold-at kind place id [] r e h = absurd (ground arith)
find_hold-at kind place id (x ∷ xs) r e (h, hs) = elim (Bool-cases (is_held_for id kind x)) [
  | inl here ↦ let same : x ≡ r = ground arith in rw (← same) (held_at kind place id x here h)
  | inr later ↦ find_hold-at kind place id xs r (ground arith) hs
]

pub put_hold-at :
    (kind : String) (place : Place) (id : ℕ) (ref : String) (h : InventoryReservation)
    (rs : List InventoryReservation)
    → stands_at kind place h ≡ true
    → HoldsAt kind place rs
    → HoldsAt kind place (put_hold id ref h rs)
unfolding put_hold
put_hold-at kind place id ref h [] p a = tt
put_hold-at kind place id ref h (x ∷ xs) p (a, rest) =
    ground (arith, put_hold-at kind place id ref h xs p rest)

-- The changes of a hold.
abbrev pub Stands : String → Place → Db → Type 0
Stands kind place db = HoldsAt kind place db.reservations

pub reserve-Stands :
    (kind : String) (place : Place) (inv : Inventory) (q : ℤ) (id : ℕ) (user : Option ℕ)
    → (place id).0 ≡ inv.product_id
    → (place id).1 ≡ inv.warehouse_id
    → Triple (Stands kind place) (reserve inv q id user kind) (λ _. Stands kind place)
unfolding reserve
reserve-Stands kind place inv q id user ep ew = record { at = λ db h. (ground arith, h) }

pub consume-Stands :
    (kind : String) (place : Place) (inv : Inventory) (r : InventoryReservation) (q : ℤ)
    (user : Option ℕ)
    → stands_at kind place r ≡ true
    → Triple (Stands kind place) (consume inv r q user) (λ _. Stands kind place)
unfolding consume
consume-Stands kind place inv r q user s = record {
  at = λ db h. elim (Bool-cases (leb_ℤ (min_ℤ q r.qty) (pos 0))) [
    | inl nothing ↦ rw nothing h
    | inr something ↦ rw something (
        put_hold-at kind place r.reference_id r.reference_type
          (consumed_hold db.now r (min_ℤ q r.qty)) db.reservations (consumed db.now (min_ℤ q r.qty))
          h)
  ];
}
  where
    consumed : (now : ℕ) (take : ℤ) → stands_at kind place (consumed_hold now r take) ≡ true
    consumed now take = elim (Bool-cases (leb_ℤ (r.qty -ℤ take) (pos 0))) [
      | inl gone ↦ rw gone s
      | inr left ↦ rw left s
    ]

pub release-Stands :
    (kind : String) (place : Place) (inv : Inventory) (r : InventoryReservation) (user : Option ℕ)
    → stands_at kind place r ≡ true
    → Triple (Stands kind place) (release inv r user) (λ _. Stands kind place)
unfolding release
release-Stands kind place inv r user s = record {
  at = λ db h. elim (Bool-cases (leb_ℤ r.qty (pos 0))) [
    | inl nothing ↦ rw nothing (
        put_hold-at kind place r.reference_id r.reference_type
          (record r { status = released; released_at = some db.now }) db.reservations s h)
    | inr something ↦ rw something (
        put_hold-at kind place r.reference_id r.reference_type
          (record r { qty = pos 0; status = released; released_at = some db.now }) db.reservations s
          h)
  ];
}
