-- ===== src/Base/Table.antt =====
-- A database table as a list of rows with a numeric primary key.
use inventory_management_sys.Base.Tests.{◌==◌, if◌then◌else◌}
use inventory_management_sys.Base.Lists.{All}
use Prim.Native.Nat.{ℕ}
use mathlib.Core.Path.{◌≡◌}
use mathlib.Core.Bool.{Bool, true, false}
use mathlib.Core.Logic.{◌⊎◌, inl, inr}
use mathlib.Core.Option.{Option, none, some}
use mathlib.Core.List.{List, [], ◌∷◌}
use native.Mathlib.Omega.{arith}

module _ {A : Type 0} (key : A → ℕ) where
  unfoldable pub find_row : ℕ → List A → Option A
  find_row k [] = none
  find_row k (x ∷ xs) = if key x == k then some x else find_row k xs

  -- Write a changed row back; a row that is not there is not written.
  unfoldable pub set_row : A → List A → List A
  set_row r [] = []
  set_row r (x ∷ xs) = if key x == key r then r ∷ xs else x ∷ set_row r xs

  pub find-set_row :
      (k : ℕ) (r old : A) (xs : List A)
      → find_row (key r) xs ≡ some old
      → find_row k (set_row r xs) ≡ (if key r == k then some r else find_row k xs)
  unfolding find_row set_row
  find-set_row k r old [] h = ground arith
  find-set_row k r old (x ∷ xs) h = ground (arith, find-set_row k r old xs)

  pub find_row-key : (k : ℕ) (r : A) (xs : List A) → find_row k xs ≡ some r → key r ≡ k
  unfolding find_row
  find_row-key k r [] h = ground arith
  find_row-key k r (x ∷ xs) h = ground (arith, find_row-key k r xs)

  pub All-set_row {ℓ} :
      (P : A → Type ℓ) (r : A) (xs : List A) → P r → All P xs → All P (set_row r xs)
  unfolding set_row
  All-set_row P r [] p h = tt
  All-set_row P r (x ∷ xs) p h =
      elim (key x == key r) as (λ b. All P (if b then r ∷ xs else x ∷ set_row r xs)) [
        | true ↦ (p, h.1)
        | false ↦ (h.0, All-set_row P r xs p h.1)
      ]

  by_test :
      (b : Bool) (x r : A) (o : Option A)
      → (if b then some x else o) ≡ some r
      → (x ≡ r) ⊎ (o ≡ some r)
  by_test true x r o e = inl (ground arith)
  by_test false x r o e = inr e

  pub find_row-All {ℓ} :
      (P : A → Type ℓ) (k : ℕ) (r : A) (xs : List A) → find_row k xs ≡ some r → All P xs → P r
  unfolding find_row
  find_row-All P k r [] e h = absurd (ground arith)
  find_row-All P k r (x ∷ xs) e h = elim (by_test (key x == k) x r (find_row k xs) e) [
    | inl here ↦ rw (← here) h.0
    | inr later ↦ find_row-All P k r xs later h.1
  ]
