-- ===== src/Finance/Reversal.antt =====
-- Every document nets to what of it stands, and reversing a document leaves nothing standing.
use inventory_management_sys.Base.{
  ℕ, ◌≡◌, refl, ◌+◌, Bool, true, false, ◌&&◌, not, none, some, List, ◌∷◌, arith, if◌then◌else◌,
}
use inventory_management_sys.Base.Int.{ℤ, pos, ◌+ℤ◌, ◌-ℤ◌, int_laws}
use inventory_management_sys.Base.Table.{find_row}
use inventory_management_sys.Finance.{
  Direction, money_in, money_out, RefType, AccountMovement, Books, movement_key, Posting, posted_as,
  opposite, reversing, is_reversed, is_live,
}
use inventory_management_sys.Finance.Netting.{
  signed, signed_amount, counts, net, net_live, Below, is_reversed-Below, find_row-Below, and_gone,
  net_live-gone,
}

-- The ledger: ids fall, and each document comes in each account to what of it stands.
pub record Netted (n : ℕ) (ms : List AccountMovement) : Type 0 where
  pub below : Below n ms
  pub stands :
      (kind : RefType) (id account : ℕ)
      → net kind id account ms ≡ net_live (is_reversed ms) kind id account ms

abbrev pub IsNetted : Books → Type 0
IsNetted books = Netted books.next_id books.movements

pub signed-opposite : (d : Direction) (q : ℤ) → signed (opposite d) q ≡ pos 0 -ℤ signed d q
signed-opposite money_in q = refl
signed-opposite money_out q = omega int_laws

-- Adding a movement that stands, and one that takes another back.
stands_more :
    (a b q : ℤ) (c gone : Bool)
    → a ≡ b
    → gone ≡ false
    → a +ℤ (if c then q else pos 0) ≡ b +ℤ (if c && not gone then q else pos 0)
stands_more a b q true gone e f = rw (e, f) refl
stands_more a b q false gone e f = rw e refl

stands_back :
    (a a' b q q' : ℤ) (c : Bool)
    → a ≡ b
    → a' +ℤ (if c then q else pos 0) ≡ b
    → q' ≡ pos 0 -ℤ q
    → a +ℤ (if c then q' else pos 0) ≡ a' +ℤ (if c && false then q' else pos 0)
stands_back a a' b q q' true e f g = grind (int_laws, e, f, g)
stands_back a a' b q q' false e f g = grind (int_laws, e, f, g)

module _ (n user : ℕ) (ms : List AccountMovement) (k : Netted n ms) where
  -- A new movement that reverses none.
  pub post-Netted :
      (p : Posting) → Netted (n + 1) (posted_as n user (record p { reversal_of = none }) ∷ ms)
  unfolding net net_live Below is_reversed
  post-Netted p = record {
    below = (omega arith, tt, k.below);
    stands = λ kind id account.
        stands_more (net kind id account ms) (net_live (is_reversed ms) kind id account ms)
          (signed p.direction p.amount)
          (counts kind id account (posted_as n user (record p { reversal_of = none })))
          (is_reversed ms n) (k.stands kind id account)
          (is_reversed-Below n n ms k.below (omega arith));
  }

  -- A new movement that reverses one that stands.
  pub reverse-Netted :
      (o : AccountMovement)
      → find_row movement_key o.id ms ≡ some o
      → is_live (is_reversed ms) o ≡ true
      → Netted (n + 1) (posted_as n user (reversing o) ∷ ms)
  unfolding net net_live Below is_reversed
  reverse-Netted o found live = record {
    below = (omega arith, find_row-Below n o.id o ms k.below found, k.below);
    stands = λ kind id account.
        stands_back (net kind id account ms)
          (net_live (and_gone (is_reversed ms) o.id) kind id account ms)
          (net_live (is_reversed ms) kind id account ms) (signed_amount o)
          (signed (opposite o.direction) o.amount) (counts kind id account o)
          (k.stands kind id account)
          (net_live-gone (is_reversed ms) kind id account n o.id o ms k.below found live)
          (signed-opposite o.direction o.amount);
  }
