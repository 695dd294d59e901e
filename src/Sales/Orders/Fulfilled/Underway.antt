-- ===== src/Sales/Orders/Fulfilled/Underway.antt =====
-- The lines of an order while `create_delivery` goes through them, and as it leaves them.
use inventory_management_sys.Base.{
  ℕ, ◌≡◌, Bool, true, false, not, inl, inr, ◌⊎◌, Bool-cases, Option, none, some, List, [], ◌∷◌, map,
  all, All, arith, if◌then◌else◌,
}
use inventory_management_sys.Base.Int.{ℤ, pos, ◌≤ℤ◌, leb_ℤ, min_ℤ, max_ℤ, int_laws}
use inventory_management_sys.Base.Dict.{Dict, get}
use inventory_management_sys.Base.Result.{pure, Triple, Triple-bind, given, ◌>>◌}
use inventory_management_sys.Stock.Context.{Wiring}
use inventory_management_sys.Stock.Places.{Place}
use inventory_management_sys.Sales.{
  SalesOrderStatus, so_partially_delivered, so_delivered, is_delivered, is_deliverable,
  so_delivery_outcome,
}
use inventory_management_sys.Sales.Tables.{SalesOrderLine, DeliveryNoteLine}
use inventory_management_sys.Sales.Orders.Delivering.{
  outstanding_of, wanted_or, deliver_qty, issue_from_location, delivered_of, deliver_one, put_first,
  Delivered, deliver_lines, delivered_pair,
}
use inventory_management_sys.Sales.Orders.Shelf.{issue_against-Shelved}
use inventory_management_sys.Sales.Orders.Keeping.{
  most, least, InPlace, LinesFine, ShopFine, on_shelf-Fine,
}

deliverable_bounds :
    (s : SalesOrderStatus) (q : ℤ)
    → not (is_deliverable s) ≡ false
    → pos 0 ≤ℤ q
    → (least s q ≡ pos 0) × (most s q ≤ℤ q)
unfolding least most is_deliverable
deliverable_bounds s q e h = (ground arith, ground arith)

module _ (place : Place) where
  -- A line while a delivery goes on.
  pub record Underway (location : Option ℕ) (line : SalesOrderLine) : Type 0 where
    at_product : (place line.id).0 ≡ line.product_id
    at_location : InPlace location (place line.id).1
    ordered_nonneg : pos 0 ≤ℤ line.qty
    delivered_nonneg : pos 0 ≤ℤ line.delivered_qty
    delivered_within : line.delivered_qty ≤ℤ line.qty

  pub started :
      (location : Option ℕ) (s : SalesOrderStatus) (lines : List SalesOrderLine)
      → not (is_deliverable s) ≡ false
      → LinesFine place location s lines
      → All (Underway location) lines
  started location s [] e fs = tt
  started location s (line ∷ lines) e (f, fs) =
      let bounds = deliverable_bounds s line.qty e f.ordered_nonneg in
      let le = f.delivered_least in
      let ge = f.delivered_most in
      (
        record {
          at_product = f.at_product;
          at_location = f.at_location;
          ordered_nonneg = f.ordered_nonneg;
          delivered_nonneg = rw bounds.0 at le;
          delivered_within = ground (arith, bounds.1, ge);
        },
        started location s lines e fs,
      )

  -- All lines delivered, or not.
  finished :
      (location : Option ℕ) (b : Bool) (lines : List SalesOrderLine)
      → (b ≡ false) ⊎ (all is_delivered (map delivered_pair lines) ≡ true)
      → All (Underway location) lines
      → LinesFine place location (if b then so_delivered else so_partially_delivered) lines
  unfolding least most
  finished location b [] e us = tt
  finished location b (line ∷ lines) e (u, us) = (
    record {
      at_product = u.at_product;
      at_location = u.at_location;
      ordered_nonneg = u.ordered_nonneg;
      delivered_least = least_reached b e;
      delivered_most = most_reached b;
    },
    finished location b lines (rest e) us,
  )
    where
      least_reached :
          (b : Bool)
          → (b ≡ false) ⊎ (all is_delivered (map delivered_pair (line ∷ lines)) ≡ true)
          → least (if b then so_delivered else so_partially_delivered) line.qty
            ≤ℤ line.delivered_qty
      least_reached true (inl f) = absurd (ground arith)
      least_reached true (inr t) = ground arith
      least_reached false e = u.delivered_nonneg

      most_reached :
          (b : Bool)
          → line.delivered_qty ≤ℤ most (if b then so_delivered else so_partially_delivered) line.qty
      most_reached true = u.delivered_within
      most_reached false = u.delivered_within

      rest :
          (b ≡ false) ⊎ (all is_delivered (map delivered_pair (line ∷ lines)) ≡ true)
          → (b ≡ false) ⊎ (all is_delivered (map delivered_pair lines) ≡ true)
      rest (inl f) = inl f
      rest (inr t) = inr (ground arith)

  pub outcome-Fine :
      (location : Option ℕ) (lines : List SalesOrderLine)
      → All (Underway location) lines
      → LinesFine place location (so_delivery_outcome (map delivered_pair lines)) lines
  unfolding so_delivery_outcome
  outcome-Fine location lines us =
      finished location (all is_delivered (map delivered_pair lines)) lines
        (elim (Bool-cases (all is_delivered (map delivered_pair lines))) [
          | inl t ↦ inr t
          | inr f ↦ inl f
        ])
        us

  module _ (wiring : Wiring) (user note_id : ℕ) (location : Option ℕ) where
    issue_from_location-Fine :
        (o : Option ℕ) (line : SalesOrderLine) (q : ℤ)
        → (place line.id).0 ≡ line.product_id
        → InPlace o (place line.id).1
        → Triple
            (ShopFine place)
            (issue_from_location wiring user note_id line q o)
            (λ _. ShopFine place)
    issue_from_location-Fine none line q ep i = record { at = λ shop f. tt }
    issue_from_location-Fine (some w) line q ep i =
        on_shelf-Fine place (issue_against-Shelved place line w ep i wiring user note_id q)

    bounded :
        (wanted : Dict ℤ) (line : SalesOrderLine)
        → pos 0 ≤ℤ outstanding_of line
        → deliver_qty wanted line ≤ℤ outstanding_of line
    bounded wanted line h =
        bound (wanted_or (get line.id wanted) (outstanding_of line)) (outstanding_of line) h
      where
        bound : (a b : ℤ) → pos 0 ≤ℤ b → max_ℤ (pos 0) (min_ℤ a b) ≤ℤ b
        bound a b h = ground arith

    deliver_one-Fine :
        (line : SalesOrderLine) (q : ℤ)
        → q ≤ℤ outstanding_of line
        → Underway location line
        → Triple
            (ShopFine place)
            (deliver_one wiring user note_id location line q)
            (λ one shop. ShopFine place shop × Underway location one.0)
    deliver_one-Fine line q le u = record {
      at = λ shop f. elim (Bool-cases (leb_ℤ q (pos 0))) [
        | inl nothing ↦ rw nothing (f, u)
        | inr positive ↦ rw positive ((delivered positive).at shop f)
      ];
    }
      where
        delivered :
            leb_ℤ q (pos 0) ≡ false
            → Triple
                (ShopFine place)
                (do
                  issue_from_location wiring user note_id line q location
                  pure (delivered_of line q))
                (λ one shop. ShopFine place shop × Underway location one.0)
        delivered positive =
            Triple-bind (issue_from_location-Fine location line q u.at_product u.at_location)
              λ done. record {
                at = λ shop f. (
                  f,
                  record {
                    at_product = u.at_product;
                    at_location = u.at_location;
                    ordered_nonneg = u.ordered_nonneg;
                    delivered_nonneg = let h = u.delivered_nonneg in grind (int_laws, h);
                    delivered_within = grind (int_laws, le);
                  },
                );
              }

    put_first-Underway :
        (one : SalesOrderLine × List DeliveryNoteLine) (rest : Delivered)
        → Underway location one.0
        → All (Underway location) rest.0
        → All (Underway location) (put_first one rest).0
    put_first-Underway (line, []) (lines, notes) u us = (u, us)
    put_first-Underway (line, note ∷ _) (lines, notes) u us = (u, us)

    pub deliver_lines-Fine :
        (wanted : Dict ℤ) (lines : List SalesOrderLine)
        → All (Underway location) lines
        → Triple
            (ShopFine place)
            (deliver_lines wiring user note_id location wanted lines)
            (λ delivered shop. ShopFine place shop × All (Underway location) delivered.0)
    unfolding deliver_lines
    deliver_lines-Fine wanted [] us = record { at = λ shop f. (f, tt) }
    deliver_lines-Fine wanted (line ∷ lines) (u, us) =
        Triple-bind
          (deliver_one-Fine line (deliver_qty wanted line)
            (bounded wanted line (let h = u.delivered_within in grind (int_laws, h))) u)
          λ one. given λ u'.
            Triple-bind (deliver_lines-Fine wanted lines us)
              λ rest. record { at = λ shop (f, us'). (f, put_first-Underway one rest u' us') }
