-- ===== src/Finance/Balances.antt =====
-- finance/service.py: the balance of an account, and what a transfer does to the balances.
use inventory_management_sys.Base.{
  ℕ, ◌≡◌, refl, ◌∙◌, Bool, true, false, ◌&&◌, ◌||◌, not, ◌==◌, List, [], ◌∷◌, arith, if◌then◌else◌,
}
use inventory_management_sys.Base.Int.{ℤ, pos, ◌+ℤ◌, ◌-ℤ◌, leb_ℤ, int_laws}
use inventory_management_sys.Base.Table.{find_row}
use inventory_management_sys.Base.Result.{
  not_found, Tx, Ensures, Ensures-map, Triple, Triple-bind, gets, or_raise, ◌>>=◌,
}
use inventory_management_sys.Stock.Soundness.Reads.{raise_if-Triple}
use inventory_management_sys.Finance.{
  Direction, money_in, money_out, FinancialAccount, AccountMovement, AccountTransfer, Books,
  account_key, draw_id, Scope, Posting, posted_as, post_movement,
}
use inventory_management_sys.Finance.Documents.{
  TransferCreate, new_transfer, sent, arrived, add_transfer, create_transfer,
}
use inventory_management_sys.Finance.Netting.{signed, signed_amount}
use inventory_management_sys.Finance.Keeping.{guarded_post}
use inventory_management_sys.Finance.Balanced.Recording.{require_account-keeps}

abbrev pub goes : Direction → Direction → Bool
goes money_in money_in = true
goes money_out money_out = true
goes _ _ = false

unfoldable pub total : Direction → ℕ → List AccountMovement → ℤ
total d account [] = pos 0
total d account (m ∷ ms) =
    total d account ms
    +ℤ (if m.account_id == account && goes m.direction d then m.amount else pos 0)

abbrev pub movement_sums : ℕ → List AccountMovement → ℤ × ℤ
movement_sums account ms = (total money_in account ms, total money_out account ms)

abbrev pub derive_balance : ℤ → ℤ → ℤ → ℤ
derive_balance opening total_in total_out = opening +ℤ total_in -ℤ total_out

abbrev pub balance : FinancialAccount → List AccountMovement → ℤ
balance account ms =
    let sums = movement_sums account.id ms in derive_balance account.opening_balance sums.0 sums.1

unfoldable pub account_balance : ℕ → Tx Books ℤ
account_balance account_id = do
  found ← gets (λ (books : Books). find_row account_key account_id books.accounts)
  account ← or_raise found (not_found "Account not found")
  gets (λ (books : Books). balance account books.movements)

-- One more movement adds its signed amount.
more :
    (o i u a : ℤ) (d : Direction) (here : Bool)
    → derive_balance o
        (i +ℤ (if here && goes d money_in then a else pos 0))
        (u +ℤ (if here && goes d money_out then a else pos 0))
      ≡ derive_balance o i u +ℤ (if here then signed d a else pos 0)
more o i u a money_in true = omega int_laws
more o i u a money_out true = omega int_laws
more o i u a money_in false = omega int_laws
more o i u a money_out false = omega int_laws

pub balance-more :
    (account : FinancialAccount) (m : AccountMovement) (ms : List AccountMovement)
    → balance account (m ∷ ms)
      ≡ balance account ms +ℤ (if m.account_id == account.id then signed_amount m else pos 0)
unfolding total
balance-more account m ms =
    more account.opening_balance (total money_in account.id ms) (total money_out account.id ms)
      m.amount m.direction (m.account_id == account.id)

Triple-map :
    {P Q R : Books → Type 0} {m : Tx Books (Unit {0})}
    → Triple P m (λ _. Q)
    → ((books : Books) → Q books → R books)
    → Triple P m (λ _. R)
Triple-map {m} t f = record { at = λ books k. Ensures-map (m books) (λ _. f) (t.at books k) }

one_leg :
    (b b' q : ℤ) (f t : Bool)
    → (f && t) ≡ false
    → b' ≡ b +ℤ (if f then pos 0 -ℤ q else pos 0) +ℤ (if t then q else pos 0)
    → b' ≡ b +ℤ (if f then pos 0 -ℤ q else (if t then q else pos 0))
one_leg b b' q true false e h = grind (int_laws, h)
one_leg b b' q false t e h = grind (int_laws, h)
one_leg b b' q true true e h = absurd (ground arith)

apart : (from to k : ℕ) → (from == to) ≡ false → (from == k && to == k) ≡ false
apart from to k e = ground arith

module _ (account : FinancialAccount) where
  abbrev pub StandsAt : ℤ → Books → Type 0
  StandsAt b books = balance account books.movements ≡ b

  -- A posting that goes through moves the balance of its account.
  pub post_movement-moves :
      (user : ℕ) (p : Posting) (b : ℤ)
      → Triple (StandsAt b) (post_movement user p) (λ _.
        StandsAt (b +ℤ (if p.account_id == account.id then signed p.direction p.amount else pos 0)))
  post_movement-moves user p b = guarded_post user p record {
    at = λ books e.
        balance-more account (posted_as books.next_id user p) books.movements ∙ rw e refl;
  }

  draw_id-stands : {b : ℤ} → Triple (StandsAt b) draw_id (λ _. StandsAt b)
  draw_id-stands = record { at = λ books e. e }

  add_transfer-stands :
      {b : ℤ} (t : AccountTransfer) → Triple (StandsAt b) (add_transfer t) (λ _. StandsAt b)
  add_transfer-stands t = record { at = λ books e. e }

  -- Of the two legs of a transfer, each account has its own.
  abbrev pub moved : TransferCreate → ℤ
  moved req =
      if req.from_account_id == account.id
      then pos 0 -ℤ req.amount
      else if req.to_account_id == account.id
      then req.amount
      else pos 0

  -- A transfer that returns takes the amount from the balance of its source, adds it to that of its
  -- destination, and leaves every other balance.
  pub create_transfer-moves :
      (user : ℕ) (req : TransferCreate) (scope : Scope) (books : Books)
      → Ensures
          (λ _ after.
            balance account after.movements ≡ balance account books.movements +ℤ moved req)
          (create_transfer user req scope books)
  unfolding create_transfer
  create_transfer-moves user req scope books =
      (raise_if-Triple (req.from_account_id == req.to_account_id) _ _ λ differ.
          raise_if-Triple (leb_ℤ req.amount (pos 0)) _ _ λ h.
            Triple-bind (require_account-keeps req.from_account_id scope) λ src.
              Triple-bind (require_account-keeps req.to_account_id scope) λ dst.
                raise_if-Triple (not src.is_active || not dst.is_active) _ _ λ u.
                  Triple-bind draw_id-stands λ id.
                    Triple-bind (add_transfer-stands (new_transfer id req)) λ x.
                      Triple-bind (post_movement-moves user (sent id req) before) λ y.
                        Triple-map (post_movement-moves user (arrived id req) _) λ after e.
                          one_leg before (balance account after.movements) req.amount
                            (req.from_account_id == account.id) (req.to_account_id == account.id)
                            (apart req.from_account_id req.to_account_id account.id differ) e).at
        books refl
    where
      before : ℤ
      before = balance account books.movements
