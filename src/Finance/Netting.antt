-- ===== src/Finance/Netting.antt =====
-- What the movements of one document come to in one account, and what reversing one of them does to
-- it.
use inventory_management_sys.Base.{
  ℕ, ◌≡◌, refl, ◌<◌, ◌+◌, Bool, true, false, ◌&&◌, ◌||◌, not, ◌==◌, inl, inr, Bool-cases, Option,
  none, some, List, [], ◌∷◌, arith, if◌then◌else◌,
}
use inventory_management_sys.Base.Int.{ℤ, pos, ◌+ℤ◌, ◌-ℤ◌, int_laws}
use inventory_management_sys.Base.Table.{find_row}
use inventory_management_sys.Finance.{
  Direction, money_in, money_out, RefType, AccountMovement, movement_key, is_for, reverses,
  is_reversed, is_original, is_live,
}

abbrev pub signed : Direction → ℤ → ℤ
signed money_in q = q
signed money_out q = pos 0 -ℤ q

abbrev pub signed_amount : AccountMovement → ℤ
signed_amount m = signed m.direction m.amount

abbrev pub counts : RefType → ℕ → ℕ → AccountMovement → Bool
counts kind id account m = is_for kind id m && m.account_id == account

-- The sum of the movements of a document in an account.
unfoldable pub net : RefType → ℕ → ℕ → List AccountMovement → ℤ
net kind id account [] = pos 0
net kind id account (m ∷ ms) =
    net kind id account ms +ℤ (if counts kind id account m then signed_amount m else pos 0)

-- The sum of those that stand: no reversals, and not reversed.
unfoldable pub net_live : (ℕ → Bool) → RefType → ℕ → ℕ → List AccountMovement → ℤ
net_live gone kind id account [] = pos 0
net_live gone kind id account (m ∷ ms) =
    net_live gone kind id account ms
    +ℤ (if counts kind id account m && is_live gone m then signed_amount m else pos 0)

abbrev pub TargetBelow : ℕ → Option ℕ → Type 0
TargetBelow n none = Unit
TargetBelow n (some i) = i < n

-- The ids fall from `n` on, and a reversal is of an older movement.
unfoldable pub Below : ℕ → List AccountMovement → Type 0
Below n [] = Unit
Below n (m ∷ ms) = (m.id < n) × TargetBelow m.id m.reversal_of × Below m.id ms

reverses-Below : (n k : ℕ) (o : Option ℕ) → TargetBelow n o → n < k + 1 → reverses k o ≡ false
reverses-Below n k none t h = refl
reverses-Below n k (some i) t h = ground arith

-- No movement reverses one that is drawn later.
pub is_reversed-Below :
    (n k : ℕ) (ms : List AccountMovement) → Below n ms → n < k + 1 → is_reversed ms k ≡ false
unfolding is_reversed Below
is_reversed-Below n k [] b h = refl
is_reversed-Below n k (m ∷ ms) (lt, t, b) h = ground (
  arith,
  reverses-Below m.id k m.reversal_of t (omega arith),
  is_reversed-Below m.id k ms b (omega arith),
)

pub find_row-Below :
    (n k : ℕ) (m : AccountMovement) (ms : List AccountMovement)
    → Below n ms
    → find_row movement_key k ms ≡ some m
    → k < n
unfolding find_row Below
find_row-Below n k m [] b e = absurd (ground arith)
find_row-Below n k m (x ∷ xs) (lt, t, b) e = elim (Bool-cases (x.id == k)) [
  | inl here ↦ ground arith
  | inr later ↦ let rec : k < x.id = find_row-Below x.id k m xs b (rw later at e) in omega arith
]

-- One summand more, in terms of whether it counts and stands.
step_same :
    (a a' q : ℤ) (c l l' : Bool)
    → a' ≡ a
    → l' ≡ l
    → a' +ℤ (if c && l' then q else pos 0) ≡ a +ℤ (if c && l then q else pos 0)
step_same a a' q c l l' e f = rw (e, f) refl

step_gone :
    (a a' q : ℤ) (c l l' : Bool)
    → a' ≡ a
    → l' ≡ false
    → l ≡ true
    → a' +ℤ (if c && l' then q else pos 0) +ℤ (if c then q else pos 0)
      ≡ a +ℤ (if c && l then q else pos 0)
step_gone a a' q true l l' e f g = rw (e, f, g) (omega int_laws)
step_gone a a' q false l l' e f g = rw e (omega int_laws)

step_kept :
    (a a' q d : ℤ) (c l l' : Bool)
    → a' +ℤ d ≡ a
    → l' ≡ l
    → a' +ℤ (if c && l' then q else pos 0) +ℤ d ≡ a +ℤ (if c && l then q else pos 0)
step_kept a a' q d c l l' e f = rw f (grind (int_laws, e))

-- Two sets that agree below `n` leave the same movements standing.
pub net_live-agree :
    (gone gone' : ℕ → Bool) (kind : RefType) (id account n : ℕ) (ms : List AccountMovement)
    → Below n ms
    → ((k : ℕ) → k < n → gone' k ≡ gone k)
    → net_live gone' kind id account ms ≡ net_live gone kind id account ms
unfolding net_live Below
net_live-agree gone gone' kind id account n [] b same = refl
net_live-agree gone gone' kind id account n (m ∷ ms) (lt, t, b) same =
    step_same (net_live gone kind id account ms) (net_live gone' kind id account ms)
      (signed_amount m) (counts kind id account m) (is_live gone m) (is_live gone' m)
      (net_live-agree gone gone' kind id account m.id ms b λ k h. same k (omega arith))
      (live_same (gone' m.id) (gone m.id) (same m.id lt))
  where
    live_same :
        (g' g : Bool)
        → g' ≡ g
        → (is_original m.reversal_of && not g') ≡ (is_original m.reversal_of && not g)
    live_same g' g e = rw e refl

-- One more movement is gone.
abbrev pub and_gone : (ℕ → Bool) → ℕ → ℕ → Bool
and_gone gone i k = i == k || gone k

pub net_live-gone :
    (gone : ℕ → Bool) (kind : RefType) (id account n i : ℕ) (m : AccountMovement)
    (ms : List AccountMovement)
    → Below n ms
    → find_row movement_key i ms ≡ some m
    → is_live gone m ≡ true
    → net_live (and_gone gone i) kind id account ms
        +ℤ (if counts kind id account m then signed_amount m else pos 0)
      ≡ net_live gone kind id account ms
unfolding net_live Below find_row
net_live-gone gone kind id account n i m [] b e live = absurd (ground arith)
net_live-gone gone kind id account n i m (x ∷ xs) (lt, t, b) e live =
    elim (Bool-cases (x.id == i)) [
      | inl here ↦
          let first : x ≡ m = ground arith in
          rw (← first) (
            step_gone (net_live gone kind id account xs)
              (net_live (and_gone gone i) kind id account xs) (signed_amount x)
              (counts kind id account x) (is_live gone x) (is_live (and_gone gone i) x)
              (net_live-agree gone (and_gone gone i) kind id account x.id xs b
                λ k h. other k h here)
              (dead (gone x.id) here) (rw (← first) at live))
      | inr later ↦
          step_kept (net_live gone kind id account xs)
            (net_live (and_gone gone i) kind id account xs) (signed_amount x)
            (if counts kind id account m then signed_amount m else pos 0) (counts kind id account x)
            (is_live gone x) (is_live (and_gone gone i) x)
            (net_live-gone gone kind id account x.id i m xs b (rw later at e) live)
            (spared (gone x.id) later)
    ]
  where
    other : (k : ℕ) → k < x.id → (x.id == i) ≡ true → and_gone gone i k ≡ gone k
    other k h here = rw (unlike k h here) refl
      where
        unlike : (k : ℕ) → k < x.id → (x.id == i) ≡ true → (i == k) ≡ false
        unlike k h here = ground arith

    dead :
        (g : Bool)
        → (x.id == i) ≡ true
        → (is_original x.reversal_of && not (i == x.id || g)) ≡ false
    dead g here = ground arith

    spared :
        (g : Bool)
        → (x.id == i) ≡ false
        → (is_original x.reversal_of && not (i == x.id || g)) ≡ (is_original x.reversal_of && not g)
    spared g later = ground arith
