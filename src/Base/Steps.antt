-- ===== src/Base/Steps.antt =====
-- Steps of a transaction that read: what holds before is at hand after, with what was read.
use inventory_management_sys.Base.Lists.{All}
use inventory_management_sys.Base.Table.{find_row, find_row-key, find_row-All}
use inventory_management_sys.Base.Result.{AppError, Tx, or_raise, gets, Ensures, Triple, ◌>>=◌}
use Prim.Native.Nat.{ℕ}
use mathlib.Core.Path.{◌≡◌, refl}
use mathlib.Core.Option.{Option, none, some}
use mathlib.Core.List.{List}

-- Reads keep what holds.
module _ {S A B : Type 0} {P : S → Type 0} {R : B → S → Type 0} where
  pub gets-Triple :
      (g : S → A) (f : A → Tx S B) → ((a : A) → Triple P (f a) R) → Triple P (gets g >>= f) R
  gets-Triple g f t = record { at = λ s k. (t (g s)).at s k }

  pub or_raise-Triple :
      (o : Option A) (e : AppError) (f : A → Tx S B)
      → ((a : A) → Triple P (f a) R)
      → Triple P (or_raise o e >>= f) R
  or_raise-Triple none e f t = record { at = λ s k. tt }
  or_raise-Triple (some a) e f t = t a

  -- A row that is looked up has the id that was asked for.
  pub lookup-Triple :
      (key : A → ℕ) (id : ℕ) (table : S → List A) (e : AppError) (f : A → Tx S B)
      → ((a : A) → key a ≡ id → Triple P (f a) R)
      → Triple P (gets (λ s. find_row key id (table s)) >>= λ o. or_raise o e >>= f) R
  lookup-Triple key id table e f t = record { at = λ s k. go s k (find_row key id (table s)) refl }
    where
      go :
          (s : S)
          → P s
          → (o : Option A) → find_row key id (table s) ≡ o
          → Ensures R ((or_raise o e >>= f) s)
      go s k none q = tt
      go s k (some a) q = (t a (find_row-key key id a (table s) q)).at s k

  -- A row of a table of which each has a property has it.
  pub lookup-All :
      (key : A → ℕ) (id : ℕ) (table : S → List A) (F : A → Type 0) (e : AppError) (f : A → Tx S B)
      → ((s : S) → P s → All F (table s))
      → ((a : A) → F a → Triple P (f a) R)
      → Triple P (gets (λ s. find_row key id (table s)) >>= λ o. or_raise o e >>= f) R
  lookup-All key id table F e f all t = record {
    at = λ s k. go s k (find_row key id (table s)) refl;
  }
    where
      go :
          (s : S)
          → P s
          → (o : Option A) → find_row key id (table s) ≡ o
          → Ensures R ((or_raise o e >>= f) s)
      go s k none q = tt
      go s k (some a) q = (t a (find_row-All key F id a (table s) q (all s k))).at s k
