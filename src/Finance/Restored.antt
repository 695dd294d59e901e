-- ===== src/Finance/Restored.antt =====
-- What taking a document back does to the balances.
use inventory_management_sys.Base.{
  ℕ, String, ◌≡◌, refl, sym, ◌∙◌, Bool, true, false, ◌&&◌, ◌==◌, List, [], ◌∷◌, if◌then◌else◌,
}
use inventory_management_sys.Base.Int.{ℤ, pos, ◌+ℤ◌, ◌-ℤ◌, int_laws}
use inventory_management_sys.Base.Table.{find_row}
use inventory_management_sys.Base.Result.{Ensures, Ensures-map, Ensures-both, Triple, Triple-bind}
use inventory_management_sys.Stock.Soundness.Reads.{raise_if-Triple}
use inventory_management_sys.Finance.{
  RefType, transfer, FinancialAccount, AccountMovement, Books, movement_key, Scope, opposite,
  reversing, post_movement, reverse_movement, is_for, is_reversed, is_live, live_for, reverse_each,
  unreversed_for_reference, reverse_reference,
}
use inventory_management_sys.Finance.Documents.{
  is_empty, transfer_key, is_reversed_doc, reverse_transfer,
}
use inventory_management_sys.Finance.Netting.{signed, signed_amount, net, net_live}
use inventory_management_sys.Finance.Reversal.{IsNetted, signed-opposite}
use inventory_management_sys.Finance.Keeping.{found_as, Standing, reverse_movement-Standing}
use inventory_management_sys.Finance.Keeping.Standing.{live_for-found}
use inventory_management_sys.Base.Steps.{lookup-Triple}
use inventory_management_sys.Finance.Balanced.Recording.{require_account-keeps}
use inventory_management_sys.Finance.Balances.{balance, StandsAt, post_movement-moves}

-- What of a list of movements is in an account.
unfoldable part_of : ℕ → List AccountMovement → ℤ
part_of account [] = pos 0
part_of account (m ∷ ms) =
    part_of account ms +ℤ (if m.account_id == account then signed_amount m else pos 0)

kept : (a q : ℤ) (t : Bool) → a +ℤ (if t then q else pos 0) ≡ a +ℤ (if t && true then q else pos 0)
kept a q true = refl
kept a q false = refl

dropped : (a q : ℤ) (t : Bool) → a ≡ a +ℤ (if t && false then q else pos 0)
dropped a q true = omega int_laws
dropped a q false = omega int_laws

part_more :
    (m : AccountMovement) (r : List AccountMovement) (a : ℤ) (account : ℕ) (c l : Bool)
    → part_of account r ≡ a
    → part_of account (if c && l then m ∷ r else r)
      ≡ a +ℤ (if (c && m.account_id == account) && l then signed_amount m else pos 0)
unfolding part_of
part_more m r a account true true e = rw e (kept a (signed_amount m) (m.account_id == account))
part_more m r a account true false e = rw e (dropped a (signed_amount m) (m.account_id == account))
part_more m r a account false l e = rw e (omega int_laws)

part_of-live_for :
    (gone : ℕ → Bool) (kind : RefType) (id account : ℕ) (ms : List AccountMovement)
    → part_of account (live_for gone kind id ms) ≡ net_live gone kind id account ms
unfolding part_of live_for net_live
part_of-live_for gone kind id account [] = refl
part_of-live_for gone kind id account (m ∷ ms) =
    part_more m (live_for gone kind id ms) (net_live gone kind id account ms) account
      (is_for kind id m) (is_live gone m) (part_of-live_for gone kind id account ms)

module _ (account : FinancialAccount) (user : ℕ) (kind : RefType) (id : ℕ) where
  abbrev Left : ℤ → List AccountMovement → Books → Type 0
  Left b todo books =
      Standing kind id todo books × StandsAt account (b +ℤ part_of account.id todo) books

  one_back :
      (c b p q q' : ℤ) (here : Bool)
      → q' ≡ pos 0 -ℤ q
      → c ≡ b +ℤ (p +ℤ (if here then q else pos 0)) +ℤ (if here then q' else pos 0)
      → c ≡ b +ℤ p
  one_back c b p q q' true e h = grind (int_laws, e, h)
  one_back c b p q q' false e h = grind (int_laws, h)

  reverse_movement-Left :
      (b : ℤ) (o : AccountMovement) (rest : List AccountMovement)
      → Triple (Left b (o ∷ rest)) (reverse_movement user o.id) (λ _. Left b rest)
  unfolding reverse_movement unreversed_for_reference part_of
  reverse_movement-Left b o rest = record {
    at = λ books ((k, e), s).
        Ensures-both (reverse_movement user o.id books)
          (λ _ after stands here. (
            stands,
            one_back (balance account after.movements) b (part_of account.id rest) (signed_amount o)
                (signed (opposite o.direction) o.amount) (o.account_id == account.id)
                (signed-opposite o.direction o.amount) here,
          ))
          ((reverse_movement-Standing user kind id o rest).at books (k, e))
          (let there =
              live_for-found (is_reversed books.movements) kind id books.next_id o rest
                books.movements k.below e in
            found_as
              (λ _. StandsAt account (
                b
                +ℤ part_of account.id (o ∷ rest)
                +ℤ (if o.account_id == account.id
                    then signed (opposite o.direction) o.amount
                    else pos 0)))
              (find_row movement_key o.id books.movements) o _
              (λ original. post_movement user (reversing original)) books there.0
              ((post_movement-moves account user (reversing o) _).at books s));
  }

  reverse_each-Left :
      (b : ℤ) (todo : List AccountMovement)
      → Triple (Left b todo) (reverse_each user todo) (λ _. Left b [])
  unfolding reverse_each
  reverse_each-Left b [] = record { at = λ books k. k }
  reverse_each-Left b (o ∷ rest) =
      Triple-bind (reverse_movement-Left b o rest) λ _. reverse_each-Left b rest

  -- Before: the ledger is netted, and what the balance and the document are.
  abbrev pub Before : ℤ → ℤ → Books → Type 0
  Before b d books =
      IsNetted books × StandsAt account b books × (net kind id account.id books.movements ≡ d)

  all_of :
      (balance b d part live : ℤ) → balance ≡ b → live ≡ d → part ≡ live → balance ≡ b -ℤ d +ℤ part
  all_of balance b d part live e f g = grind (int_laws, e, f, g)

  none_left : (c b : ℤ) → c ≡ b +ℤ pos 0 → c ≡ b
  none_left c b e = grind (int_laws, e)

  pub reverse_reference-takes :
      (b d : ℤ)
      → Triple (Before b d) (reverse_reference user kind id) (λ _. StandsAt account (b -ℤ d))
  unfolding reverse_reference unreversed_for_reference part_of
  reverse_reference-takes b d = record {
    at = λ books (k, s, e).
        let todo = unreversed_for_reference kind id books.movements in
        Ensures-map (reverse_each user todo books)
          (λ _ after left. none_left (balance account after.movements) (b -ℤ d) left.1)
          ((reverse_each-Left (b -ℤ d) todo).at books (
            (k, refl),
            all_of (balance account books.movements) b d (part_of account.id todo)
                (net_live (is_reversed books.movements) kind id account.id books.movements) s
                (sym (k.stands kind id account.id) ∙ e)
                (part_of-live_for (is_reversed books.movements) kind id account.id books.movements),
          ));
  }

-- Reversing a transfer, where it returns, takes from the balance of every account what the
-- movements of the transfer came to in that account. The ledger is to be one whose ids fall and
-- where each document comes to what of it stands.
pub reverse_transfer-takes :
    (account : FinancialAccount) (user id : ℕ) (reason : String) (scope : Scope) (books : Books)
    → IsNetted books
    → Ensures
        (λ _ after.
          balance account after.movements
          ≡ balance account books.movements -ℤ net transfer id account.id books.movements)
        (reverse_transfer user id reason scope books)
unfolding reverse_transfer
reverse_transfer-takes account user id reason scope books k =
    (raise_if-Triple (is_empty reason) _ _ λ h.
        lookup-Triple transfer_key id (λ books. books.transfers) _ _
          λ t own. Triple-bind (require_account-keeps t.from_account_id scope) λ src.
            Triple-bind (require_account-keeps t.to_account_id scope) λ dst.
              raise_if-Triple (is_reversed_doc t.status) _ _
                λ v. Triple-bind (of_document t.id own) λ w. record { at = λ books e. e }).at
      books (k, refl, refl)
  where
    of_document :
        (id' : ℕ)
        → id' ≡ id
        → Triple
            (Before account user transfer id
              (balance account books.movements)
              (net transfer id account.id books.movements))
            (reverse_reference user transfer id')
            (λ _.
              StandsAt account
                (balance account books.movements -ℤ net transfer id account.id books.movements))
    of_document id' e = rw e (reverse_reference-takes account user transfer id _ _)
