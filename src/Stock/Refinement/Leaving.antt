-- ===== src/Stock/Refinement/Leaving.antt =====
-- `issue` and `transfer` shift the goods that the tables show.
use inventory_management_sys.Base.{
  ℕ, ◌≡◌, refl, Bool, true, false, inl, inr, Bool-cases, Option, none, some, List, [], ◌∷◌, ◌&&◌,
  if◌then◌else◌,
}
use inventory_management_sys.Base.Int.{ℤ, pos, ◌+ℤ◌, ◌-ℤ◌, ltb_ℤ, leb_ℤ}
use inventory_management_sys.Base.Result.{pure, Ensures, Triple, Triple-bind}
use inventory_management_sys.Stock.Tables.{Inventory, Db}
use inventory_management_sys.Stock.Repository.{find}
use inventory_management_sys.Stock.Posting.{take_on_hand-Shifts}
use inventory_management_sys.Stock.Context.{Call, Wiring, available, take_on_hand}
use inventory_management_sys.Stock.Service.Issue.{
  IssueLine, IssueStockRequest, alert_at, reorder_point_of, notify_low_stock, issue_row, issue_line,
  issue_lines, issue,
}
use inventory_management_sys.Stock.Soundness.Reads.{
  require_product-keeps, require_warehouse-keeps, raise_if-Triple,
}
use inventory_management_sys.Stock.Soundness.Issuing.{issue_line-IsSound}
use inventory_management_sys.Stock.Requests.{Goods, shift, issue_goods}
use inventory_management_sys.Stock.Refinement.Shows.{Shows, ShowsRows, flow-ShowsRows}
use inventory_management_sys.Stock.Refinement.Calls.{shows}

alert_at-ShowsRows :
    (g : Goods) (user p w : ℕ) (inv : Inventory) (q : ℤ) (o : Option ℤ) (db : Db)
    → ShowsRows g db.inventory
    → Ensures (λ _ db'. ShowsRows g db'.inventory) (alert_at user p w inv q o db)
alert_at-ShowsRows g user p w inv q none db s = s
alert_at-ShowsRows g user p w inv q (some rop) db s =
    elim (Bool-cases (ltb_ℤ rop (available inv +ℤ q) && leb_ℤ (available inv) rop)) [
      | inl crossed ↦ rw crossed s
      | inr not_crossed ↦ rw not_crossed s
    ]

module _ (wiring : Wiring) (c : Call) (req : IssueStockRequest) where
  notify_if-ShowsRows :
      (g : Goods) (on : Bool) (user p w : ℕ) (inv : Inventory) (q : ℤ) (db : Db)
      → ShowsRows g db.inventory
      → Ensures
          (λ _ db'. ShowsRows g db'.inventory)
          ((if on then notify_low_stock user p w inv q else pure tt) db)
  unfolding notify_low_stock
  notify_if-ShowsRows g true user p w inv q db s =
      alert_at-ShowsRows g user p w inv q (reorder_point_of (db.products p)) db s
  notify_if-ShowsRows g false user p w inv q db s = s

  issue_row-ShowsRows :
      (g : Goods) (line : IssueLine) (db : Db) (o : Option Inventory)
      → ShowsRows g db.inventory
      → find line.product_id req.warehouse_id db.inventory ≡ o
      → Ensures
          (λ _ db'.
            ShowsRows
              (shift line.product_id req.warehouse_id (pos 0 -ℤ line.quantity) g)
              db'.inventory)
          (issue_row wiring c req line o db)
  issue_row-ShowsRows g line db none s e = tt
  issue_row-ShowsRows g line db (some inv) s e =
      (raise_if-Triple
          {P = λ db'.
            ShowsRows g db'.inventory
            × (find line.product_id req.warehouse_id db'.inventory ≡ some inv)}
          (ltb_ℤ (available inv) line.quantity) _ _
          λ _. record {
            at = λ db' h.
                notify_if-ShowsRows _ wiring.has_notifications c.user_id line.product_id
                  req.warehouse_id (take_on_hand line.quantity inv) line.quantity _
                  (flow-ShowsRows g line.product_id req.warehouse_id inv
                    (take_on_hand line.quantity inv) (pos 0 -ℤ line.quantity) db'.inventory h.1
                    (take_on_hand-Shifts line.quantity inv) h.0);
          }).at
        db (s, e)

  issue_line-Shows :
      (g : Goods) (line : IssueLine)
      → Triple
          (Shows g)
          (issue_line wiring c req line)
          (λ _. Shows (shift line.product_id req.warehouse_id (pos 0 -ℤ line.quantity) g))
  unfolding issue_line
  issue_line-Shows g line = shows _ (issue_line-IsSound wiring c req line) (
      Triple-bind (require_product-keeps line.product_id) λ _. record {
        at = λ db s.
            issue_row-ShowsRows g line db (find line.product_id req.warehouse_id db.inventory)
              s.goods refl;
      })

  issue_lines-Shows :
      (g : Goods) (lines : List IssueLine)
      → Triple
          (Shows g)
          (issue_lines wiring c req lines)
          (λ _. Shows (issue_goods req.warehouse_id lines g))
  unfolding issue_lines
  issue_lines-Shows g [] = record { at = λ db s. s }
  issue_lines-Shows g (line ∷ lines) = Triple-bind (issue_line-Shows g line) λ _.
      issue_lines-Shows (shift line.product_id req.warehouse_id (pos 0 -ℤ line.quantity) g) lines

  pub issue-Shows :
      (g : Goods)
      → Triple
          (Shows g)
          (issue wiring c req)
          (λ _. Shows (issue_goods req.warehouse_id req.lines g))
  unfolding issue
  issue-Shows g =
      Triple-bind (require_warehouse-keeps req.warehouse_id) λ _. issue_lines-Shows g req.lines
