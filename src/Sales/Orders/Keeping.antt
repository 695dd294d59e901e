-- ===== src/Sales/Orders/Keeping.antt =====
-- What the calls on sales orders keep: the stock is sound, and every line fits the status of its
-- order.
use inventory_management_sys.Base.{
  ℕ, String, ◌≡◌, refl, false, not, Option, none, some, List, [], ◌∷◌, All, arith,
}
use inventory_management_sys.Base.Int.{ℤ, pos, ◌≤ℤ◌}
use inventory_management_sys.Base.Table.{find_row, set_row, find_row-All, All-set_row}
use inventory_management_sys.Base.Result.{
  AppError, Tx, Result, ok, err, or_raise, Ensures, Triple, Triple-bind,
}
use inventory_management_sys.Stock.Tables.{Db}
use inventory_management_sys.Stock.Places.{Place}
use inventory_management_sys.Sales.{
  SalesOrderStatus, so_confirmed, so_partially_delivered, so_delivered, so_cancelled,
  is_cancellable,
}
use inventory_management_sys.Sales.Tables.{SalesOrderLine, SalesOrder, Shop, so_key, on_shelf}
use inventory_management_sys.Sales.Orders.{
  require_so, fail_with, reserve_lines, is_so_draft, release_lines,
}
use inventory_management_sys.Sales.Orders.Shelf.{
  Shelved, reserve_so_line-Shelved, release_reservation-Shelved,
}

-- The bounds of what has been delivered of a line.
unfoldable pub most : SalesOrderStatus → ℤ → ℤ
most so_partially_delivered qty = qty
most so_delivered qty = qty
most _ qty = pos 0

unfoldable pub least : SalesOrderStatus → ℤ → ℤ
least so_delivered qty = qty
least _ qty = pos 0

abbrev pub InPlace : Option ℕ → ℕ → Type 0
InPlace none w' = Unit
InPlace (some w) w' = w' ≡ w

pub record LineFine (place : Place) (location : Option ℕ) (s : SalesOrderStatus)
    (line : SalesOrderLine) : Type 0 where
  pub at_product : (place line.id).0 ≡ line.product_id
  pub at_location : InPlace location (place line.id).1
  pub ordered_nonneg : pos 0 ≤ℤ line.qty
  pub delivered_least : least s line.qty ≤ℤ line.delivered_qty
  pub delivered_most : line.delivered_qty ≤ℤ most s line.qty

abbrev pub LinesFine : Place → Option ℕ → SalesOrderStatus → List SalesOrderLine → Type 0
LinesFine place location s lines = All (LineFine place location s) lines

abbrev pub OrderFine : Place → SalesOrder → Type 0
OrderFine place so = LinesFine place so.location_id so.status so.lines

pub record ShopFine (place : Place) (shop : Shop) : Type 0 where
  pub shelved : Shelved place shop.stock
  pub orders : All (OrderFine place) shop.orders

-- Two statuses with the same bounds.
pub record SameBounds (s t : SalesOrderStatus) : Type 0 where
  pub same_most : (q : ℤ) → most t q ≡ most s q
  pub same_least : (q : ℤ) → least t q ≡ least s q

pub confirmed-SameBounds :
    (s : SalesOrderStatus) → not (is_so_draft s) ≡ false → SameBounds s so_confirmed
unfolding most least
confirmed-SameBounds s e = record { same_most = λ q. ground arith; same_least = λ q. ground arith }

pub cancelled-SameBounds :
    (s : SalesOrderStatus) → not (is_cancellable s) ≡ false → SameBounds s so_cancelled
unfolding most least is_cancellable
cancelled-SameBounds s e = record { same_most = λ q. ground arith; same_least = λ q. ground arith }

module _ (place : Place) where
  pub require_so-Fine :
      (id : ℕ)
      → Triple
          (ShopFine place)
          (require_so id)
          (λ so shop. ShopFine place shop × OrderFine place so)
  require_so-Fine id = record { at = λ shop f. go shop f (find_row so_key id shop.orders) refl }
    where
      go :
          (shop : Shop)
          → ShopFine place shop
          → (o : Option SalesOrder) → find_row so_key id shop.orders ≡ o
          → Ensures
              (λ so shop. ShopFine place shop × OrderFine place so)
              (or_raise o (AppError.not_found "Sales order not found") shop)
      go shop f none e = tt
      go shop f (some so) e =
          (f, find_row-All so_key (OrderFine place) id so shop.orders e f.orders)

  pub on_shelf-Fine :
      {A : Type 0} {m : Tx Db A}
      → Triple (Shelved place) m (λ _. Shelved place)
      → Triple (ShopFine place) (on_shelf m) (λ _. ShopFine place)
  on_shelf-Fine {A} {m} t = record {
    at = λ shop f. go shop f (m shop.stock) (t.at shop.stock f.shelved);
  }
    where
      go :
          (shop : Shop)
          → ShopFine place shop
          → (r : Result (A × Db)) → Ensures (λ _. Shelved place) r
          → Ensures
              (λ _. ShopFine place)
              (elim r [ ok (a, db) ↦ ok (a, record shop { stock = db }) | err e ↦ err e ])
      go shop f (ok (a, db)) k = record { shelved = k; orders = f.orders }
      go shop f (err e) k = tt

  pub saved-Fine :
      (so : SalesOrder) (shop after : Shop)
      → OrderFine place so
      → ShopFine place shop
      → after.stock ≡ shop.stock
      → after.orders ≡ set_row so_key so shop.orders
      → ShopFine place after
  saved-Fine so shop after fine f es eo = record {
    shelved = rw es f.shelved;
    orders = rw eo (All-set_row so_key (OrderFine place) so shop.orders fine f.orders);
  }

  fail_with-Fine : (o : Option String) → Triple (ShopFine place) (fail_with o) (λ _. ShopFine place)
  fail_with-Fine none = record { at = λ shop f. f }
  fail_with-Fine (some message) = record { at = λ shop f. tt }

  module _ (s t : SalesOrderStatus) (same : SameBounds s t) (location : Option ℕ) where
    -- Whatever of a line is reserved, the bounds stay.
    held-Fine :
        (line : SalesOrderLine) (q : ℤ)
        → LineFine place location s line
        → LineFine place location t (record line { reserved_qty = q })
    held-Fine line q f = record {
      at_product = f.at_product;
      at_location = f.at_location;
      ordered_nonneg = f.ordered_nonneg;
      delivered_least = rw (same.same_least line.qty) f.delivered_least;
      delivered_most = rw (same.same_most line.qty) f.delivered_most;
    }

    pub stay-Fine :
        (lines : List SalesOrderLine)
        → LinesFine place location s lines
        → LinesFine place location t lines
    stay-Fine [] fs = tt
    stay-Fine (line ∷ lines) (f, fs) = (held-Fine line line.reserved_qty f, stay-Fine lines fs)

    pub reserve_lines-Fine :
        (w user : ℕ) (lines : List SalesOrderLine)
        → location ≡ some w
        → LinesFine place location s lines
        → Triple
            (ShopFine place)
            (reserve_lines w user lines)
            (λ lines' shop. ShopFine place shop × LinesFine place location t lines')
    unfolding reserve_lines
    reserve_lines-Fine w user [] e fs = record { at = λ shop f. (f, tt) }
    reserve_lines-Fine w user (line ∷ lines) e (f, fs) =
        Triple-bind
          (on_shelf-Fine
            (reserve_so_line-Shelved place line w f.at_product (in_place f.at_location) user))
          λ problem. Triple-bind (fail_with-Fine problem) λ u.
            Triple-bind (reserve_lines-Fine w user lines e fs)
              λ lines'. record { at = λ shop (k, fs'). (k, (held-Fine line line.qty f, fs')) }
      where
        in_place : {w' : ℕ} → InPlace location w' → w' ≡ w
        in_place p = rw e at p

    pub release_lines-Fine :
        (user : ℕ) (lines : List SalesOrderLine)
        → LinesFine place location s lines
        → Triple
            (ShopFine place)
            (release_lines user lines)
            (λ lines' shop. ShopFine place shop × LinesFine place location t lines')
    unfolding release_lines
    release_lines-Fine user [] fs = record { at = λ shop f. (f, tt) }
    release_lines-Fine user (line ∷ lines) (f, fs) =
        Triple-bind (on_shelf-Fine (release_reservation-Shelved place line.id user)) λ u.
          Triple-bind (release_lines-Fine user lines fs)
            λ lines'. record { at = λ shop (k, fs'). (k, (held-Fine line (pos 0) f, fs')) }
