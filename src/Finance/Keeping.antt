-- ===== src/Finance/Keeping.antt =====
-- Posting and reversing keep the ledger netted, and reversing a document brings it to nothing.
pub mod Standing
use inventory_management_sys.Base.{
  ℕ, ◌≡◌, refl, ◌∙◌, ◌<◌, Bool, true, false, ◌&&◌, ◌||◌, not, ◌==◌, inl, inr, Bool-cases, Option,
  none, some, List, [], ◌∷◌, arith, if◌then◌else◌,
}
use inventory_management_sys.Base.Int.{ℤ, pos, ◌+ℤ◌, leb_ℤ, int_laws}
use inventory_management_sys.Base.Table.{find_row}
use inventory_management_sys.Base.Result.{
  AppError, Tx, or_raise, Ensures, Triple, Triple-bind, ◌>>=◌,
}
use inventory_management_sys.Base.Steps.{lookup-Triple}
use inventory_management_sys.Stock.Soundness.Reads.{raise_if-Triple}
use inventory_management_sys.Finance.{
  RefType, AccountMovement, Books, account_key, movement_key, Posting, posted_as, add_movement,
  post_movement, reversing, reverse_movement, is_for, is_reversed, is_original, is_live, live_for,
  reverse_each, unreversed_for_reference, reverse_reference,
}
use inventory_management_sys.Finance.Netting.{
  signed_amount, net, net_live, Below, find_row-Below, and_gone,
}
use inventory_management_sys.Finance.Reversal.{IsNetted, post-Netted, reverse-Netted}
use inventory_management_sys.Finance.Keeping.Standing.{
  listed_out, live_for-found, live_for-gone, live_for-nothing,
}

pub found_as :
    {S A B : Type 0} (Q : B → S → Type 0) (o : Option A) (a : A) (e : AppError) (f : A → Tx S B)
    (s : S)
    → o ≡ some a
    → Ensures Q (f a s)
    → Ensures Q ((or_raise o e >>= f) s)
found_as Q o a e f s q t = rw q t

both_out : (c b : Bool) → (c && (false && b)) ≡ false
both_out c b = ground arith

-- From the movements of the document that stand, to none.
abbrev pub Standing : RefType → ℕ → List AccountMovement → Books → Type 0
Standing kind id todo books =
    IsNetted books × (unreversed_for_reference kind id books.movements ≡ todo)

module _ (user : ℕ) where
  add_movement-Netted :
      (p : Posting)
      → Triple IsNetted (add_movement user (record p { reversal_of = none })) (λ _. IsNetted)
  add_movement-Netted p = record {
    at = λ books k. post-Netted books.next_id user books.movements k p;
  }

  -- What is asked of the account changes nothing.
  pub guarded_post :
      {P Q : Books → Type 0} (p : Posting)
      → Triple P (add_movement user p) (λ _. Q)
      → Triple P (post_movement user p) (λ _. Q)
  unfolding post_movement
  guarded_post p t = raise_if-Triple (leb_ℤ p.amount (pos 0)) _ _ λ h.
      lookup-Triple account_key p.account_id (λ books. books.accounts) _ _
        λ account own. raise_if-Triple (not account.is_active) _ _ λ h'. t

  pub post_movement-Netted :
      (p : Posting)
      → Triple IsNetted (post_movement user (record p { reversal_of = none })) (λ _. IsNetted)
  post_movement-Netted p = guarded_post (record p { reversal_of = none }) (add_movement-Netted p)

module _ (user : ℕ) (kind : RefType) (id : ℕ) where
  taking_back :
      (o : AccountMovement) (rest : List AccountMovement)
      → Triple
          (Standing kind id (o ∷ rest))
          (add_movement user (reversing o))
          (λ _. Standing kind id rest)
  unfolding unreversed_for_reference live_for is_reversed
  taking_back o rest = record {
    at = λ books (k, e).
        let there =
          live_for-found (is_reversed books.movements) kind id books.next_id o rest books.movements
            k.below e in
        let back = posted_as books.next_id user (reversing o) in
        (
          reverse-Netted books.next_id user books.movements k o there.0 there.1,
          listed_out back
              (live_for (and_gone (is_reversed books.movements) o.id) kind id books.movements) rest
              (is_for kind id back && is_live (and_gone (is_reversed books.movements) o.id) back)
              (live_for-gone (is_reversed books.movements) kind id books.next_id o rest
                books.movements k.below e)
              (both_out (is_for kind id back)
                (not (and_gone (is_reversed books.movements) o.id books.next_id))),
        );
  }

  pub reverse_movement-Standing :
      (o : AccountMovement) (rest : List AccountMovement)
      → Triple
          (Standing kind id (o ∷ rest))
          (reverse_movement user o.id)
          (λ _. Standing kind id rest)
  unfolding reverse_movement unreversed_for_reference
  reverse_movement-Standing o rest = record {
    at = λ books (k, e).
        let there =
          live_for-found (is_reversed books.movements) kind id books.next_id o rest books.movements
            k.below e in
        found_as (λ _. Standing kind id rest) (find_row movement_key o.id books.movements) o _
          (λ original. post_movement user (reversing original)) books there.0
          ((guarded_post user (reversing o) (taking_back o rest)).at books (k, e));
  }

  pub reverse_each-Standing :
      (todo : List AccountMovement)
      → Triple (Standing kind id todo) (reverse_each user todo) (λ _. Standing kind id [])
  unfolding reverse_each
  reverse_each-Standing [] = record { at = λ books k. k }
  reverse_each-Standing (o ∷ rest) =
      Triple-bind (reverse_movement-Standing o rest) λ _. reverse_each-Standing rest

  -- A document that is reversed comes to nothing in every account.
  pub reverse_reference-Standing :
      Triple IsNetted (reverse_reference user kind id) (λ _. Standing kind id [])
  unfolding reverse_reference
  reverse_reference-Standing = record {
    at = λ books k.
        (reverse_each-Standing (unreversed_for_reference kind id books.movements)).at books
          (k, refl);
  }

pub Standing-nothing :
    (kind : RefType) (id account : ℕ) (books : Books)
    → Standing kind id [] books
    → net kind id account books.movements ≡ pos 0
unfolding unreversed_for_reference
Standing-nothing kind id account books (k, e) =
    k.stands kind id account
    ∙ live_for-nothing (is_reversed books.movements) kind id account books.movements e
