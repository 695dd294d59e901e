-- ===== src/Base/Dict.antt =====
-- Python's dict as the list of its items, in the order of first insertion.
use inventory_management_sys.Base.Tests.{◌==◌, if◌then◌else◌}
use Prim.Native.Nat.{ℕ}
use mathlib.Core.Path.{◌≡◌, refl}
use mathlib.Core.Option.{Option, none, some}
use mathlib.Core.List.{List, [], ◌∷◌}
use native.Mathlib.Omega.{arith}

abbrev pub Dict : Type 0 → Type 0
Dict V = List (ℕ × V)

module _ {V : Type 0} where
  unfoldable pub get : ℕ → Dict V → Option V
  get k [] = none
  get k ((k', v) ∷ d) = if k == k' then some v else get k d

  -- `d[k] = v`
  unfoldable pub set : ℕ → V → Dict V → Dict V
  set k v [] = (k, v) ∷ []
  set k v ((k', v') ∷ d) = if k == k' then (k', v) ∷ d else (k', v') ∷ set k v d

  unfoldable pub fill : List (ℕ × V) → Dict V → Dict V
  fill [] d = d
  fill ((k, v) ∷ xs) d = fill xs (set k v d)

  -- `{k: v for k, v in xs}`
  abbrev pub dict_of : List (ℕ × V) → Dict V
  dict_of xs = fill xs []

  abbrev pub or_else : Option V → Option V → Option V
  or_else (some v) o = some v
  or_else none o = o

  -- The last value that a list of items gives a key.
  unfoldable pub latest : ℕ → List (ℕ × V) → Option V
  latest k [] = none
  latest k ((k', v) ∷ xs) = or_else (latest k xs) (if k == k' then some v else none)

  get-set :
      (k k' : ℕ) (v : V) (d : Dict V) → get k (set k' v d) ≡ (if k == k' then some v else get k d)
  unfolding get set
  get-set k k' v [] = refl
  get-set k k' v ((k'', v') ∷ d) = ground (arith, get-set k k' v d)

  get-fill :
      (k : ℕ) (xs : List (ℕ × V)) (d : Dict V) → get k (fill xs d) ≡ or_else (latest k xs) (get k d)
  unfolding fill latest
  get-fill k [] d = refl
  get-fill k ((k', v) ∷ xs) d = ground (arith, get-fill k xs (set k' v d), get-set k k' v d)

  pub get-dict_of : (k : ℕ) (xs : List (ℕ × V)) → get k (dict_of xs) ≡ latest k xs
  unfolding get
  get-dict_of k xs = ground (arith, get-fill k xs [])
