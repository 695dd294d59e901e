-- ===== src/Base/Result.antt =====
-- The errors of core/exceptions.py, and the transaction monad: a handler reads and writes the
-- tables and returns, or raises. A raise leaves the request, whose transaction `get_db` rolls
-- back, so no state comes back beside an error.
use inventory_management_sys.Base.Tests.{if◌then◌else◌}
use Prim.Native.String.{String}
use mathlib.Core.Bool.{Bool}
use mathlib.Core.Option.{Option, none, some}

-- An exception with the fixed part of its message. `internal` is an exception of Python's own,
-- which the program does not catch.
pub data AppError : Type 0 where
  not_found business_rule conflict permission_denied internal : String → AppError

pub data Result {ℓ} (A : Type ℓ) : Type ℓ where
  ok : A → Result A
  err : AppError → Result A

abbrev pub Tx : Type 0 → Type 0 → Type 0
Tx S A = S → Result (A × S)

module _ {S A : Type 0} where
  abbrev pub pure : A → Tx S A
  pure a s = ok (a, s)

  abbrev pub raise : AppError → Tx S A
  raise e s = err e

  abbrev pub gets : (S → A) → Tx S A
  gets f s = ok (f s, s)

  -- `if v is None: raise e`
  abbrev pub or_raise : Option A → AppError → Tx S A
  or_raise none e = raise e
  or_raise (some a) e = pure a

module _ {S : Type 0} where
  -- `if c: raise e`
  abbrev pub raise_if : Bool → AppError → Tx S (Unit {0})
  raise_if c e s = if c then err e else ok (tt, s)

  abbrev pub modify : (S → S) → Tx S (Unit {0})
  modify f s = ok (tt, f s)

infixl 5 ◌>>=◌ ◌>>◌
abbrev pub ◌>>=◌ : {S A B : Type 0} → Tx S A → (A → Tx S B) → Tx S B
◌>>=◌ m f s = elim (m s) [ ok p ↦ f p.0 p.1 | err e ↦ err e ]

abbrev pub ◌>>◌ : {S A B : Type 0} → Tx S A → Tx S B → Tx S B
m >> k = m >>= λ _. k

-- What holds of a result: a postcondition if the transaction returns, nothing if it raises.
abbrev pub Ensures {ℓ} : {A S : Type 0} → (A → S → Type ℓ) → Result (A × S) → Type ℓ
Ensures Q (ok (a, s)) = Q a s
Ensures Q (err e) = Unit

pub Ensures-any {ℓ} : {A S : Type 0} (r : Result (A × S)) → Ensures (λ _ _. Unit {ℓ}) r
Ensures-any (ok (a, s)) = tt
Ensures-any (err e) = tt

pub Ensures-map {ℓ κ} :
    {A S : Type 0} {Q : A → S → Type ℓ} {R : A → S → Type κ} (r : Result (A × S))
    → ((a : A) (s : S) → Q a s → R a s)
    → Ensures Q r
    → Ensures R r
Ensures-map (ok (a, s)) f q = f a s q
Ensures-map (err e) f q = tt

-- Two postconditions of one run hold together.
pub Ensures-both {ℓ κ μ} :
    {A S : Type 0} {Q : A → S → Type ℓ} {R : A → S → Type κ} {T : A → S → Type μ}
    (r : Result (A × S))
    → ((a : A) (s : S) → Q a s → R a s → T a s)
    → Ensures Q r
    → Ensures R r
    → Ensures T r
Ensures-both (ok (a, s)) f q t = f a s q t
Ensures-both (err e) f q t = tt

-- From `P`, a transaction that returns does so with `Q`.
pub record Triple {ℓ} {S A : Type 0} (P : S → Type ℓ) (m : Tx S A) (Q : A → S → Type ℓ)
    : Type ℓ where
  pub at : (s : S) → P s → Ensures Q (m s)

module _ {ℓ} {S A B : Type 0} {Q : A → S → Type ℓ} {R : B → S → Type ℓ} where
  pub Ensures-bind :
      (r : Result (A × S)) (f : A → Tx S B)
      → Ensures Q r
      → ((a : A) → Triple (Q a) (f a) R)
      → Ensures R (elim r [ ok p ↦ f p.0 p.1 | err e ↦ err e ])
  Ensures-bind (ok (a, s)) f q k = (k a).at s q
  Ensures-bind (err e) f q k = tt

  pub Triple-bind :
      {P : S → Type ℓ} {m : Tx S A} {f : A → Tx S B}
      → Triple P m Q
      → ((a : A) → Triple (Q a) (f a) R)
      → Triple P (m >>= f) R
  Triple-bind {m} {f} t k = record { at = λ s p. Ensures-bind (m s) f (t.at s p) k }

-- A fact that a postcondition carries beside the state is at hand in the rest.
module _ {ℓ} {S A : Type 0} {P : S → Type ℓ} {F : Type ℓ} {R : A → S → Type ℓ} where
  pub given : {m : Tx S A} → (F → Triple P m R) → Triple (λ s. P s × F) m R
  given t = record { at = λ s (p, f). (t f).at s p }
