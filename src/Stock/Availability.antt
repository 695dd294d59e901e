-- ===== src/Stock/Availability.antt =====
-- Which issues are let through, and what they leave available.
use inventory_management_sys.Base.{
  ℕ, ◌≡◌, ◌↔◌, refl, Bool, true, false, inl, inr, Bool-cases, Option, none, some, arith,
  if◌then◌else◌,
}
use inventory_management_sys.Base.Int.{ℤ, ◌≤ℤ◌, ltb_ℤ}
use inventory_management_sys.Base.Result.{Result, ok, err, pure}
use inventory_management_sys.Stock.Tables.{Inventory, Product, Db}
use inventory_management_sys.Stock.Repository.{find}
use inventory_management_sys.Stock.Context.{Call, Wiring, available, take_on_hand}
use inventory_management_sys.Stock.Service.Issue.{
  IssueLine, IssueStockRequest, alert_at, reorder_point_of, notify_low_stock, issue_from, issue_row,
  issue_line,
}

-- The transaction returns.
abbrev pub Returns : {A S : Type 0} → Result (A × S) → Type 0
Returns (ok _) = Unit {0}
Returns (err _) = ⊥

notify_low_stock-Returns :
    (user p w : ℕ) (inv : Inventory) (q : ℤ) (db : Db)
    → Returns (notify_low_stock user p w inv q db)
unfolding notify_low_stock
notify_low_stock-Returns user p w inv q db = go (reorder_point_of (db.products p))
  where
    go : (o : Option ℤ) → Returns (alert_at user p w inv q o db)
    go none = tt
    go (some rop) = ground arith

notify_if-Returns :
    (on : Bool) (user p w : ℕ) (inv : Inventory) (q : ℤ) (db : Db)
    → Returns ((if on then notify_low_stock user p w inv q else pure tt) db)
notify_if-Returns true user p w inv q db = notify_low_stock-Returns user p w inv q db
notify_if-Returns false user p w inv q db = tt

module _ (wiring : Wiring) (c : Call) (req : IssueStockRequest) (line : IssueLine) where
  -- The row that an issue needs: one whose available units cover the quantity.
  abbrev pub Covered : Db → Type 0
  Covered db =
      (inv : Inventory) × (find line.product_id req.warehouse_id db.inventory ≡ some inv)
      × (line.quantity ≤ℤ available inv)

  issue_from-Returns :
      (inv : Inventory) (db : Db)
      → line.quantity ≤ℤ available inv
      → Returns (issue_from wiring c req line inv db)
  issue_from-Returns inv db enough = elim (Bool-cases (ltb_ℤ (available inv) line.quantity)) [
    | inl short ↦ absurd (ground arith)
    | inr covered ↦ rw covered (
        notify_if-Returns wiring.has_notifications c.user_id line.product_id req.warehouse_id
          (take_on_hand line.quantity inv) line.quantity _)
  ]

  issue_from-covers :
      (inv : Inventory) (db : Db)
      → Returns (issue_from wiring c req line inv db)
      → line.quantity ≤ℤ available inv
  issue_from-covers inv db h = elim (Bool-cases (ltb_ℤ (available inv) line.quantity)) [
    | inl short ↦ absurd (rw short at h)
    | inr covered ↦ ground arith
  ]

  issue_row-Returns :
      (o : Option Inventory) (db : Db)
      → find line.product_id req.warehouse_id db.inventory ≡ o
      → Returns (issue_row wiring c req line o db) ↔ Covered db
  issue_row-Returns none db e = (λ h. absurd h, λ (inv, found, enough). cc)
  issue_row-Returns (some inv) db e = (
    λ h. (inv, e, issue_from-covers inv db h),
    λ (inv', found, enough).
        let same : inv' ≡ inv = cc in issue_from-Returns inv db (rw same at enough),
  )

  issue_line-known :
      (db : Db) (p : Product)
      → db.products line.product_id ≡ some p
      → issue_line wiring c req line db
        ≡ issue_row wiring c req line (find line.product_id req.warehouse_id db.inventory) db
  unfolding issue_line
  issue_line-known db p known = cc

  -- For a known product, a line is issued exactly when there is a row of the product in the
  -- warehouse whose available units, those neither reserved nor damaged, cover the quantity.
  pub issue_line-Returns :
      (db : Db) (p : Product)
      → db.products line.product_id ≡ some p
      → Returns (issue_line wiring c req line db) ↔ Covered db
  issue_line-Returns db p known =
      rw (issue_line-known db p known)
        (issue_row-Returns (find line.product_id req.warehouse_id db.inventory) db refl)
