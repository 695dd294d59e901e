-- ===== src/Sales/Orders/Fulfilled.antt =====
-- The calls on sales orders keep the stock sound, and the status of an order says what of it is
-- delivered.
mod Underway
pub mod Recorded
use inventory_management_sys.Base.{
  ℕ, String, ◌≡◌, refl, Bool, true, false, not, inl, inr, ◌⊎◌, Bool-cases, Option, none, some, List,
  [], ◌∷◌, map, all, All, arith, if◌then◌else◌,
}
use inventory_management_sys.Base.Int.{ℤ, pos, ◌≤ℤ◌, leb_ℤ, min_ℤ, max_ℤ, int_laws}
use inventory_management_sys.Base.Dict.{Dict, get, dict_of}
use inventory_management_sys.Base.Result.{
  business_rule, Result, ok, err, or_raise, pure, Ensures, Triple, Triple-bind, given, ◌>>◌,
}
use inventory_management_sys.Stock.Context.{Wiring}
use inventory_management_sys.Stock.Places.{Place}
use inventory_management_sys.Stock.Soundness.Reads.{raise_if-Triple}
use inventory_management_sys.Sales.{
  SalesOrderStatus, so_confirmed, so_partially_delivered, so_delivered, so_cancelled, is_delivered,
  is_deliverable, is_cancellable, so_delivery_outcome,
}
use inventory_management_sys.Sales.Tables.{SalesOrderLine, SalesOrder, DeliveryNoteLine, Shop}
use inventory_management_sys.Sales.Orders.{
  is_so_draft, confirm_sales_order, release_lines, is_open_reserved, cancel_sales_order,
}
use inventory_management_sys.Sales.Orders.Delivering.{
  outstanding_of, wanted_or, deliver_qty, issue_from_location, delivered_of, deliver_one, put_first,
  Delivered, deliver_lines, is_nothing, delivered_pair, create_delivery,
}
use inventory_management_sys.Sales.Orders.Calls.{
  SalesCall, confirming, cancelling, delivering, sell, shop_after, sell_all,
}
use inventory_management_sys.Sales.Orders.Shelf.{issue_against-Shelved}
use inventory_management_sys.Sales.Orders.Keeping.{
  most, least, InPlace, LinesFine, OrderFine, ShopFine, SameBounds, require_so-Fine, on_shelf-Fine,
  saved-Fine, reserve_lines-Fine, release_lines-Fine, stay-Fine, confirmed-SameBounds,
  cancelled-SameBounds,
}
use inventory_management_sys.Sales.Orders.Fulfilled.Underway.{
  started, outcome-Fine, deliver_lines-Fine,
}

module _ (place : Place) where
  confirm-Fine :
      (user so_id : ℕ)
      → Triple (ShopFine place) (confirm_sales_order user so_id) (λ _. ShopFine place)
  unfolding confirm_sales_order
  confirm-Fine user so_id = Triple-bind (require_so-Fine place so_id) λ so. given λ fine.
      raise_if-Triple (not (is_so_draft so.status)) _ _ λ waiting.
        Triple-bind (located so.location_id) λ w. given λ there.
          Triple-bind
            (reserve_lines-Fine place so.status so_confirmed
              (confirmed-SameBounds so.status waiting) so.location_id w user so.lines there fine)
            λ lines.
              given λ fine'. record { at = λ shop f. saved-Fine place _ shop _ fine' f refl refl }
    where
      located :
          (o : Option ℕ)
          → Triple
              (ShopFine place)
              (or_raise o (business_rule "A selling location is required to reserve stock."))
              (λ w shop. ShopFine place shop × (o ≡ some w))
      located none = record { at = λ shop f. tt }
      located (some w) = record { at = λ shop f. (f, refl) }

  cancel-Fine :
      (user so_id : ℕ) (reason : Option String)
      → Triple (ShopFine place) (cancel_sales_order user so_id reason) (λ _. ShopFine place)
  unfolding cancel_sales_order
  cancel-Fine user so_id reason = Triple-bind (require_so-Fine place so_id) λ so. given λ fine.
      raise_if-Triple (not (is_cancellable so.status)) _ _ λ can.
        Triple-bind
          (released so (is_open_reserved so.status) (cancelled-SameBounds so.status can) fine)
          λ lines.
            given λ fine'. record { at = λ shop f. saved-Fine place _ shop _ fine' f refl refl }
    where
      released :
          (so : SalesOrder) (b : Bool)
          → SameBounds so.status so_cancelled
          → OrderFine place so
          → Triple
              (ShopFine place)
              (if b then release_lines user so.lines else pure so.lines)
              (λ lines shop.
                ShopFine place shop × LinesFine place so.location_id so_cancelled lines)
      released so true same fine =
          release_lines-Fine place so.status so_cancelled same so.location_id user so.lines fine
      released so false same fine = record {
        at =
            λ shop f. (f, stay-Fine place so.status so_cancelled same so.location_id so.lines fine);
      }

  create_delivery-Fine :
      (wiring : Wiring) (user note_id so_id : ℕ) (wanted : List (ℕ × ℤ))
      → Triple
          (ShopFine place)
          (create_delivery wiring user note_id so_id wanted)
          (λ _. ShopFine place)
  unfolding create_delivery
  create_delivery-Fine wiring user note_id so_id wanted =
      Triple-bind (require_so-Fine place so_id) λ so. given λ fine.
        raise_if-Triple (not (is_deliverable so.status)) _ _ λ can.
          Triple-bind
            (deliver_lines-Fine place wiring user note_id so.location_id (dict_of wanted) so.lines
              (started place so.location_id so.status so.lines can fine))
            λ delivered. given λ us. raise_if-Triple (is_nothing delivered.1) _ _ λ something.
              record {
                at = λ shop f.
                    saved-Fine place _ shop _ (outcome-Fine place so.location_id delivered.0 us) f
                      refl refl;
              }

  pub sell-Fine : (call : SalesCall) → Triple (ShopFine place) (sell call) (λ _. ShopFine place)
  unfolding sell
  sell-Fine (confirming user so_id) = confirm-Fine user so_id
  sell-Fine (cancelling user so_id reason) = cancel-Fine user so_id reason
  sell-Fine (delivering wiring user note_id so_id wanted) =
      create_delivery-Fine wiring user note_id so_id wanted

  after-Fine :
      (shop : Shop) (r : Result (Unit {0} × Shop))
      → ShopFine place shop
      → Ensures (λ _. ShopFine place) r
      → ShopFine place (shop_after shop r)
  after-Fine shop (ok (_, after)) f g = g
  after-Fine shop (err e) f g = f

  -- From tables where the stock is sound, the holds of order lines stand on the product and the
  -- location of their line, and each order has delivered what its status says, every sequence of
  -- confirmations, cancellations and deliveries, returning or raising, leads to such tables: of no
  -- line less than nothing or more than is ordered is delivered, nothing of an order that is neither
  -- partially delivered nor delivered, and all of each line of a delivered one.
  pub sell_all-Fine :
      (calls : List SalesCall) (shop : Shop)
      → ShopFine place shop
      → ShopFine place (sell_all calls shop)
  unfolding sell_all
  sell_all-Fine [] shop f = f
  sell_all-Fine (call ∷ calls) shop f =
      sell_all-Fine calls (shop_after shop (sell call shop))
        (after-Fine shop (sell call shop) f ((sell-Fine call).at shop f))
