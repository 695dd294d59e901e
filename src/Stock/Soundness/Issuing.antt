-- ===== src/Stock/Soundness/Issuing.antt =====
-- `issue` keeps the invariant.
use inventory_management_sys.Base.{
  ℕ, ◌≡◌, refl, Bool, true, false, Option, none, some, List, [], ◌∷◌, arith, if◌then◌else◌,
}
use inventory_management_sys.Base.Int.{ℤ, pos, ◌-ℤ◌, ltb_ℤ, int_laws}
use inventory_management_sys.Base.Result.{pure, Ensures, Triple, Triple-bind}
use inventory_management_sys.Stock.Tables.{Inventory, Db}
use inventory_management_sys.Stock.Repository.{find}
use inventory_management_sys.Stock.Ledger.{reserved, damaged}
use inventory_management_sys.Stock.Invariant.{IsSound}
use inventory_management_sys.Stock.Posting.{Locked, flow-Sound, take_on_hand-Shifts, found_nonneg}
use inventory_management_sys.Stock.Context.{Call, Wiring, available, take_on_hand}
use inventory_management_sys.Stock.Service.Issue.{
  IssueLine, IssueStockRequest, alert_at, reorder_point_of, notify_low_stock, issue_from, issue_row,
  issue_line, issue_lines, issue,
}
use inventory_management_sys.Stock.Soundness.Reads.{
  require_product-keeps, require_warehouse-keeps, raise_if-Triple,
}

alert_at-keeps :
    (user p w : ℕ) (inv : Inventory) (q : ℤ) (o : Option ℤ) (db : Db)
    → IsSound db
    → Ensures (λ _. IsSound) (alert_at user p w inv q o db)
alert_at-keeps user p w inv q none db s = s
alert_at-keeps user p w inv q (some rop) db s = ground arith

pub notify_low_stock-IsSound :
    (user p w : ℕ) (inv : Inventory) (q : ℤ)
    → Triple IsSound (notify_low_stock user p w inv q) (λ _. IsSound)
unfolding notify_low_stock
notify_low_stock-IsSound user p w inv q = record {
  at = λ db s. alert_at-keeps user p w inv q (reorder_point_of (db.products p)) db s;
}

module _ (wiring : Wiring) (c : Call) (req : IssueStockRequest) where
  notify_if-IsSound :
      (on : Bool) (user p w : ℕ) (inv : Inventory) (q : ℤ)
      → Triple IsSound (if on then notify_low_stock user p w inv q else pure tt) (λ _. IsSound)
  notify_if-IsSound true user p w inv q = notify_low_stock-IsSound user p w inv q
  notify_if-IsSound false user p w inv q = record { at = λ db s. s }

  issue_from-IsSound :
      (line : IssueLine) (inv : Inventory)
      → Triple
          (Locked line.product_id req.warehouse_id inv)
          (issue_from wiring c req line inv)
          (λ _. IsSound)
  issue_from-IsSound line inv = raise_if-Triple (ltb_ℤ (available inv) line.quantity) _ _ λ enough.
      record {
        at = λ db l.
            (notify_if-IsSound wiring.has_notifications c.user_id line.product_id req.warehouse_id
                (take_on_hand line.quantity inv) line.quantity).at
              _
              (flow-Sound line.product_id req.warehouse_id inv (take_on_hand line.quantity inv)
                (pos 0 -ℤ line.quantity) _ l.found l.sound (take_on_hand-Shifts line.quantity inv)
                (record { of_product = refl; of_warehouse = refl; of_quantity = refl; flow = refl })
                (grind (
                  int_laws,
                  enough,
                  found_nonneg reserved line.product_id req.warehouse_id l.found l.sound,
                  found_nonneg damaged line.product_id req.warehouse_id l.found l.sound,
                )));
      }

  issue_row-IsSound :
      (line : IssueLine) (db : Db) (o : Option Inventory)
      → IsSound db
      → find line.product_id req.warehouse_id db.inventory ≡ o
      → Ensures (λ _. IsSound) (issue_row wiring c req line o db)
  issue_row-IsSound line db none s e = tt
  issue_row-IsSound line db (some inv) s e =
      (issue_from-IsSound line inv).at db (record { sound = s; found = e })

  pub issue_line-IsSound :
      (line : IssueLine) → Triple IsSound (issue_line wiring c req line) (λ _. IsSound)
  unfolding issue_line
  issue_line-IsSound line = Triple-bind (require_product-keeps line.product_id) λ _. record {
    at = λ db s.
        issue_row-IsSound line db (find line.product_id req.warehouse_id db.inventory) s refl;
  }

  issue_lines-IsSound :
      (lines : List IssueLine) → Triple IsSound (issue_lines wiring c req lines) (λ _. IsSound)
  unfolding issue_lines
  issue_lines-IsSound [] = record { at = λ db s. s }
  issue_lines-IsSound (line ∷ lines) =
      Triple-bind (issue_line-IsSound line) λ _. issue_lines-IsSound lines

  pub issue-IsSound : Triple IsSound (issue wiring c req) (λ _. IsSound)
  unfolding issue
  issue-IsSound =
      Triple-bind (require_warehouse-keeps req.warehouse_id) λ _. issue_lines-IsSound req.lines
