-- ===== src/Stock/Refinement/Calls.antt =====
-- Each operation shifts the goods that the tables show.
use inventory_management_sys.Base.{ℕ, List, [], ◌∷◌, All}
use inventory_management_sys.Base.Int.{pos, ◌+ℤ◌, ◌≤ℤ◌, ltb_ℤ}
use inventory_management_sys.Base.Result.{Tx, Ensures-both, Triple, Triple-bind}
use inventory_management_sys.Stock.Tables.{Db}
use inventory_management_sys.Stock.Posting.{add_on_hand-Shifts}
use inventory_management_sys.Stock.Invariant.{IsSound}
use inventory_management_sys.Stock.Context.{Call, add_on_hand}
use inventory_management_sys.Stock.Service.Inbound.{
  ReceiptLine, ReceiveStockRequest, receive_line, receive_lines, receive, OpeningBalance,
  opening_balance, AdjustStockRequest, adjust,
}
use inventory_management_sys.Stock.Soundness.Reads.{
  require_product-keeps, require_warehouse-keeps, raise_if-Triple,
}
use inventory_management_sys.Stock.Soundness.Inbound.{
  receive_line-IsSound, opening_balance-IsSound, adjust-IsSound,
}
use inventory_management_sys.Stock.Requests.{Goods, shift, receive_goods}
use inventory_management_sys.Stock.Refinement.Shows.{
  Shows, ShowsRows, get_or_create_locked-Shows, flow-ShowsRows,
}

-- A transaction that keeps the tables sound and shows the goods `h` afterwards.
pub shows :
    {g h : Goods} {A : Type 0} (m : Tx Db A)
    → Triple IsSound m (λ _. IsSound)
    → Triple (Shows g) m (λ _ db. ShowsRows h db.inventory)
    → Triple (Shows g) m (λ _. Shows h)
shows m s t = record {
  at = λ db p.
      Ensures-both (m db) (λ _ db' s' t'. record { sound = s'; goods = t' }) (s.at db p.sound)
        (t.at db p);
}

module _ (c : Call) (req : ReceiveStockRequest) where
  receive_line-Shows :
      (g : Goods) (line : ReceiptLine)
      → pos 0 ≤ℤ line.quantity
      → Triple
          (Shows g)
          (receive_line c req line)
          (λ _. Shows (shift line.product_id req.warehouse_id line.quantity g))
  unfolding receive_line
  receive_line-Shows g line h = shows _ (receive_line-IsSound c req line h) (
      Triple-bind (require_product-keeps line.product_id) λ _.
        Triple-bind (get_or_create_locked-Shows g line.product_id req.warehouse_id) λ inv. record {
          at = λ db l.
              flow-ShowsRows g line.product_id req.warehouse_id inv (add_on_hand line.quantity inv)
                line.quantity db.inventory l.locked.found (add_on_hand-Shifts line.quantity inv)
                l.goods;
        })

  receive_lines-Shows :
      (g : Goods) (lines : List ReceiptLine)
      → All (λ l. pos 0 ≤ℤ l.quantity) lines
      → Triple
          (Shows g)
          (receive_lines c req lines)
          (λ _. Shows (receive_goods req.warehouse_id lines g))
  unfolding receive_lines
  receive_lines-Shows g [] h = record { at = λ db s. s }
  receive_lines-Shows g (line ∷ lines) (h, hs) =
      Triple-bind (receive_line-Shows g line h)
        λ _. receive_lines-Shows (shift line.product_id req.warehouse_id line.quantity g) lines hs

  pub receive-Shows :
      (g : Goods)
      → All (λ l. pos 0 ≤ℤ l.quantity) req.lines
      → Triple (Shows g) (receive c req) (λ _. Shows (receive_goods req.warehouse_id req.lines g))
  unfolding receive
  receive-Shows g h =
      Triple-bind (require_warehouse-keeps req.warehouse_id) λ _. receive_lines-Shows g req.lines h

pub opening_balance-Shows :
    (user : ℕ) (req : OpeningBalance) (g : Goods)
    → Triple
        (Shows g)
        (opening_balance user req)
        (λ _. Shows (shift req.product_id req.warehouse_id req.quantity g))
unfolding opening_balance
opening_balance-Shows user req g = shows _ (opening_balance-IsSound user req) (
    raise_if-Triple (ltb_ℤ req.quantity (pos 0)) _ _ λ _.
      Triple-bind (require_warehouse-keeps req.warehouse_id) λ _.
        Triple-bind (require_product-keeps req.product_id) λ _.
          Triple-bind (get_or_create_locked-Shows g req.product_id req.warehouse_id) λ inv. record {
            at = λ db l.
                flow-ShowsRows g req.product_id req.warehouse_id inv (add_on_hand req.quantity inv)
                  req.quantity db.inventory l.locked.found (add_on_hand-Shifts req.quantity inv)
                  l.goods;
          })

pub adjust-Shows :
    (c : Call) (req : AdjustStockRequest) (g : Goods)
    → Triple
        (Shows g)
        (adjust c req)
        (λ _. Shows (shift req.product_id req.warehouse_id req.delta g))
unfolding adjust
adjust-Shows c req g = shows _ (adjust-IsSound c req) (
    Triple-bind (require_warehouse-keeps req.warehouse_id) λ _.
      Triple-bind (require_product-keeps req.product_id) λ _.
        Triple-bind (get_or_create_locked-Shows g req.product_id req.warehouse_id) λ inv.
          raise_if-Triple (ltb_ℤ (inv.qty_on_hand +ℤ req.delta) (pos 0)) _ _ λ _. record {
            at = λ db l.
                flow-ShowsRows g req.product_id req.warehouse_id inv (add_on_hand req.delta inv)
                  req.delta db.inventory l.locked.found (add_on_hand-Shifts req.delta inv) l.goods;
          })
