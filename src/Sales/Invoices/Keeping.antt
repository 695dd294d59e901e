-- ===== src/Sales/Invoices/Keeping.antt =====
-- What the calls on sales keep: the stock is sound, the orders fit what is delivered of them, the ledger netted, every motorcycle in order, and
-- no invoice is paid by more than its total and the tolerance.
use inventory_management_sys.Base.{◌≡◌, true, false, [], ◌∷◌, All, arith}
use inventory_management_sys.Base.Int.{ℤ, pos, negsuc, ◌+ℤ◌, ◌*ℤ◌, ◌≤ℤ◌, ltb_ℤ, int_laws}
use inventory_management_sys.Base.Result.{Tx, Result, ok, err, Ensures, Triple}
use inventory_management_sys.Stock.Tables.{Db}
use inventory_management_sys.Stock.Places.{Place}
use inventory_management_sys.Sales.Tables.{Shop}
use inventory_management_sys.Sales.Orders.Shelf.{Shelved}
use inventory_management_sys.Sales.Orders.Keeping.{ShopFine, on_shelf-Fine}
use inventory_management_sys.Sales.Orders.Fulfilled.Recorded.{Recorded, on_shelf-Recorded}
use inventory_management_sys.Finance.{Books}
use inventory_management_sys.Finance.Reversal.{IsNetted}
use inventory_management_sys.Motorcycles.Units.{Showroom}
use inventory_management_sys.Motorcycles.Units.Registry.Single.{Kept}
use inventory_management_sys.Sales.Tables.{DeliveryNoteLine, DeliveryNote}
use inventory_management_sys.Sales.Invoices.{
  Invoice, quantized, to_zmw, credit_zmw, invoice_balance_zmw,
}
use inventory_management_sys.Sales.Invoices.Settling.{
  CreditNote, Trade, on_books, in_room, in_shop, with_stock, Lines, amounts_of, all_positive,
  settled_by,
}
use inventory_management_sys.Sales.Invoices.Voiding.{credited}

pub record InvoiceFine (i : Invoice) : Type 0 where
  pub paid_nonneg : pos 0 ≤ℤ i.amount_paid
  pub paid_most : i.amount_paid ≤ℤ i.grand_total_zmw +ℤ pos 1
  pub credit_nonneg : pos 0 ≤ℤ i.credit_total
  pub rate_nonneg : pos 0 ≤ℤ i.fx_rate

abbrev pub DeliveryFine : DeliveryNote → Type 0
DeliveryFine note = All (λ (line : DeliveryNoteLine). pos 0 ≤ℤ line.qty) note.lines

abbrev pub CreditFine : CreditNote → Type 0
CreditFine cn = pos 0 ≤ℤ cn.grand_total

pub record TradeFine (t : Trade) : Type 0 where
  pub place : Place
  pub shelf : ShopFine place t.shop
  pub netted : IsNetted t.books
  pub room_fine : Kept (All InvoiceFine) t.room
  pub delivered : All DeliveryFine t.shop.deliveries
  pub credits : All CreditFine t.credit_notes

product_nonneg : (a b : ℤ) → pos 0 ≤ℤ a → pos 0 ≤ℤ b → pos 0 ≤ℤ a *ℤ b
unfolding ◌*ℤ◌
product_nonneg (pos m) (pos n) ha hb = ground arith
product_nonneg (negsuc m) b ha hb = absurd (omega arith)
product_nonneg (pos m) (negsuc n) ha hb = absurd (omega arith)

quantized_nonneg : (z : ℤ) → pos 0 ≤ℤ z → pos 0 ≤ℤ quantized z
quantized_nonneg (pos n) h = omega arith
quantized_nonneg (negsuc n) h = absurd (omega arith)

pub credit_zmw_nonneg : (i : Invoice) → InvoiceFine i → pos 0 ≤ℤ credit_zmw i
unfolding to_zmw
credit_zmw_nonneg i f =
    quantized_nonneg (i.credit_total *ℤ i.fx_rate)
      (product_nonneg i.credit_total i.fx_rate f.credit_nonneg f.rate_nonneg)

more_nonneg : (a b : ℤ) → ltb_ℤ (pos 0) a ≡ true → pos 0 ≤ℤ b → pos 0 ≤ℤ a +ℤ b
more_nonneg a b e h = let le : pos 0 ≤ℤ a = ground arith in grind (int_laws, le, h)

total_of_nonneg : (lines : Lines) → all_positive lines ≡ true → pos 0 ≤ℤ amounts_of lines
unfolding amounts_of all_positive
total_of_nonneg [] e = omega arith
total_of_nonneg ((method, amount) ∷ lines) e =
    let first : ltb_ℤ (pos 0) amount ≡ true = ground arith in
    let others : all_positive lines ≡ true = ground arith in
    more_nonneg amount (amounts_of lines) first (total_of_nonneg lines others)

module _ (lines : Lines) (positive : all_positive lines ≡ true) where
  pub settled_by-Fine :
      (i : Invoice)
      → InvoiceFine i
      → ltb_ℤ (invoice_balance_zmw i +ℤ pos 1) (amounts_of lines) ≡ false
      → InvoiceFine (settled_by (amounts_of lines) i)
  settled_by-Fine i f fits = record {
    paid_nonneg = grind (int_laws, f.paid_nonneg, total_of_nonneg lines positive);
    paid_most = grind (int_laws, f.paid_most, credit_zmw_nonneg i f);
    credit_nonneg = f.credit_nonneg;
    rate_nonneg = f.rate_nonneg;
  }

pub credited-Fine :
    (amount : ℤ) (i : Invoice) → InvoiceFine i → pos 0 ≤ℤ amount → InvoiceFine (credited amount i)
credited-Fine amount i f h = record {
  paid_nonneg = f.paid_nonneg;
  paid_most = f.paid_most;
  credit_nonneg = grind (int_laws, f.credit_nonneg);
  rate_nonneg = f.rate_nonneg;
}

-- A transaction on one of the parts keeps the whole, when it keeps that part.
module _ {A : Type 0} where
  pub on_books-Fine :
      {m : Tx Books A}
      → Triple IsNetted m (λ _. IsNetted)
      → Triple TradeFine (on_books m) (λ _. TradeFine)
  on_books-Fine {m} t = record { at = λ s f. go s f (m s.books) (t.at s.books f.netted) }
    where
      go :
          (s : Trade)
          → TradeFine s
          → (r : Result (A × Books)) → Ensures (λ _. IsNetted) r
          → Ensures (λ _. TradeFine) (on_books (λ _. r) s)
      go s f (ok (a, b)) k = record {
        place = f.place;
        shelf = f.shelf;
        netted = k;
        room_fine = f.room_fine;
        delivered = f.delivered;
        credits = f.credits;
      }
      go s f (err e) k = tt

  pub in_room-Fine :
      {m : Tx Showroom A}
      → Triple (Kept (All InvoiceFine)) m (λ _. Kept (All InvoiceFine))
      → Triple TradeFine (in_room m) (λ _. TradeFine)
  in_room-Fine {m} t = record { at = λ s f. go s f (m s.room) (t.at s.room f.room_fine) }
    where
      go :
          (s : Trade)
          → TradeFine s
          → (r : Result (A × Showroom)) → Ensures (λ _. Kept (All InvoiceFine)) r
          → Ensures (λ _. TradeFine) (in_room (λ _. r) s)
      go s f (ok (a, b)) k = record {
        place = f.place;
        shelf = f.shelf;
        netted = f.netted;
        room_fine = k;
        delivered = f.delivered;
        credits = f.credits;
      }
      go s f (err e) k = tt

  -- A transaction on the orders and the stock.
  pub in_shop-Fine :
      {m : Tx Shop A}
      → ((place : Place) → Triple (ShopFine place) m (λ _. ShopFine place))
      → Triple Recorded m (λ _. Recorded)
      → Triple TradeFine (in_shop m) (λ _. TradeFine)
  in_shop-Fine {m} t d = record {
    at = λ s f. go s f (m s.shop) ((t f.place).at s.shop f.shelf) (d.at s.shop f.delivered);
  }
    where
      go :
          (s : Trade) (f : TradeFine s) (r : Result (A × Shop))
          → Ensures (λ _. ShopFine f.place) r
          → Ensures (λ _. Recorded) r
          → Ensures (λ _. TradeFine) (in_shop (λ _. r) s)
      go s f (ok (a, b)) k h = record {
        place = f.place;
        shelf = k;
        netted = f.netted;
        room_fine = f.room_fine;
        delivered = h;
        credits = f.credits;
      }
      go s f (err e) k h = tt

  pub with_stock-Fine :
      {m : Tx Db A}
      → ((place : Place) → Triple (Shelved place) m (λ _. Shelved place))
      → Triple TradeFine (with_stock m) (λ _. TradeFine)
  with_stock-Fine {m} t =
      in_shop-Fine (λ place. on_shelf-Fine place (t place)) (on_shelf-Recorded m)
