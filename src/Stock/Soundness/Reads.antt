-- ===== src/Stock/Soundness/Reads.antt =====
-- What only reads keeps every property of the tables.
use inventory_management_sys.Base.{ℕ, ◌≡◌, refl, Bool, true, false, Option, none, some}
use inventory_management_sys.Base.Result.{AppError, Tx, or_raise, raise_if, ◌>>◌, Ensures, Triple}
use inventory_management_sys.Stock.Tables.{Db}
use inventory_management_sys.Stock.Context.{require_product, require_warehouse}

module _ {ℓ} {S A : Type 0} where
  pub Ensures-or_raise :
      (o : Option A) (e : AppError) (s : S) (P : S → Type ℓ)
      → P s
      → Ensures (λ _. P) (or_raise o e s)
  Ensures-or_raise none e s P h = tt
  Ensures-or_raise (some a) e s P h = h

module _ {ℓ} {P : Db → Type ℓ} where
  pub require_product-keeps : (p : ℕ) → Triple P (require_product p) (λ _. P)
  require_product-keeps p = record { at = λ db h. Ensures-or_raise (db.products p) _ db P h }

  pub require_warehouse-keeps : (w : ℕ) → Triple P (require_warehouse w) (λ _. P)
  require_warehouse-keeps w = record { at = λ db h. Ensures-or_raise (db.warehouses w) _ db P h }

-- After a guard, the rest may use that the guard did not raise.
pub raise_if-Triple {ℓ} :
    {S A : Type 0} {P : S → Type ℓ} {R : A → S → Type ℓ} (c : Bool) (e : AppError) (m : Tx S A)
    → (c ≡ false → Triple P m R)
    → Triple P (raise_if c e >> m) R
raise_if-Triple true e m t = record { at = λ s h. tt }
raise_if-Triple false e m t = record { at = (t refl).at }
