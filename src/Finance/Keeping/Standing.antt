-- ===== src/Finance/Keeping/Standing.antt =====
-- The movements of a document that stand, when one more of them is reversed.
use inventory_management_sys.Base.{
  ℕ, ◌≡◌, refl, ◌∙◌, ◌<◌, Bool, true, false, ◌&&◌, ◌||◌, not, ◌==◌, inl, inr, Bool-cases, some,
  List, [], ◌∷◌, arith, if◌then◌else◌,
}
use inventory_management_sys.Base.Int.{ℤ, pos, ◌+ℤ◌, int_laws}
use inventory_management_sys.Base.Table.{find_row}
use inventory_management_sys.Finance.{
  RefType, AccountMovement, movement_key, is_for, is_original, is_live, live_for,
}
use inventory_management_sys.Finance.Netting.{
  signed_amount, net_live, Below, find_row-Below, and_gone,
}

-- One movement more, in terms of whether it is for the document and stands.
listed_same :
    (x : AccountMovement) (r r' : List AccountMovement) (c l l' : Bool)
    → r' ≡ r
    → l' ≡ l
    → (if c && l' then x ∷ r' else r') ≡ (if c && l then x ∷ r else r)
listed_same x r r' c l l' e f = rw (e, f) refl

pub listed_out :
    (x : AccountMovement) (r rest : List AccountMovement) (c : Bool)
    → r ≡ rest
    → c ≡ false
    → (if c then x ∷ r else r) ≡ rest
listed_out x r rest c e f = rw f e

still_original : (o g' g : Bool) → g' ≡ g → (o && not g') ≡ (o && not g)
still_original o g' g e = rw e refl

still_out : (c o g a : Bool) → (c && (o && not g)) ≡ false → (c && (o && not (a || g))) ≡ false
still_out c o g a e = ground arith

taken_out : (c o g a : Bool) → a ≡ true → (c && (o && not (a || g))) ≡ false
taken_out c o g a e = ground arith

live_for-agree :
    (gone gone' : ℕ → Bool) (kind : RefType) (id n : ℕ) (ms : List AccountMovement)
    → Below n ms
    → ((k : ℕ) → k < n → gone' k ≡ gone k)
    → live_for gone' kind id ms ≡ live_for gone kind id ms
unfolding live_for Below
live_for-agree gone gone' kind id n [] b same = refl
live_for-agree gone gone' kind id n (m ∷ ms) (lt, t, b) same =
    listed_same m (live_for gone kind id ms) (live_for gone' kind id ms) (is_for kind id m)
      (is_live gone m) (is_live gone' m)
      (live_for-agree gone gone' kind id m.id ms b λ k h. same k (omega arith))
      (still_original (is_original m.reversal_of) (gone' m.id) (gone m.id) (same m.id lt))

older_kept : (gone : ℕ → Bool) (i n k : ℕ) → i ≡ n → k < n → and_gone gone i k ≡ gone k
older_kept gone i n k e h = let unlike : (i == k) ≡ false = ground arith in rw unlike refl

summed_out :
    (a q : ℤ) (c b l : Bool)
    → a ≡ pos 0
    → (c && l) ≡ false
    → a +ℤ (if c && b && l then q else pos 0) ≡ pos 0
summed_out a q true true l e f = rw (e, f) (omega int_laws)
summed_out a q true false l e f = rw e (omega int_laws)
summed_out a q false b l e f = rw e (omega int_laws)

module _ (gone : ℕ → Bool) (kind : RefType) (id : ℕ) where
  -- The first movement that stands is in the ledger under its id.
  pub live_for-found :
      (n : ℕ) (o : AccountMovement) (rest ms : List AccountMovement)
      → Below n ms
      → live_for gone kind id ms ≡ o ∷ rest
      → (find_row movement_key o.id ms ≡ some o) × (is_live gone o ≡ true)
  unfolding live_for Below find_row
  live_for-found n o rest [] b e = absurd (ground arith)
  live_for-found n o rest (x ∷ xs) (lt, t, b) e =
      elim (Bool-cases (is_for kind id x && is_live gone x)) [
        | inl listed ↦ let same : x ≡ o = ground arith in rw (← same) (ground arith, ground arith)
        | inr passed ↦
            let rec = live_for-found x.id o rest xs b (rw passed at e) in
            let older : o.id < x.id = find_row-Below x.id o.id o xs b rec.0 in
            (ground (arith, rec.0), rec.1)
      ]

  -- Without it, the others stand.
  pub live_for-gone :
      (n : ℕ) (o : AccountMovement) (rest ms : List AccountMovement)
      → Below n ms
      → live_for gone kind id ms ≡ o ∷ rest
      → live_for (and_gone gone o.id) kind id ms ≡ rest
  unfolding live_for Below
  live_for-gone n o rest [] b e = absurd (ground arith)
  live_for-gone n o rest (x ∷ xs) (lt, t, b) e =
      elim (Bool-cases (is_for kind id x && is_live gone x)) [
        | inl listed ↦
            let key : o.id ≡ x.id = ground arith in
            let others : live_for gone kind id xs ≡ rest = ground arith in
            listed_out x (live_for (and_gone gone o.id) kind id xs) rest
              (is_for kind id x && is_live (and_gone gone o.id) x)
              (live_for-agree gone (and_gone gone o.id) kind id x.id xs b
                  (λ k h. older_kept gone o.id x.id k key h)
                ∙ others)
              (taken_out (is_for kind id x) (is_original x.reversal_of) (gone x.id) (o.id == x.id)
                (ground arith))
        | inr passed ↦
            listed_out x (live_for (and_gone gone o.id) kind id xs) rest
              (is_for kind id x && is_live (and_gone gone o.id) x)
              (live_for-gone x.id o rest xs b (rw passed at e))
              (still_out (is_for kind id x) (is_original x.reversal_of) (gone x.id) (o.id == x.id)
                passed)
      ]

  pub live_for-nothing :
      (account : ℕ) (ms : List AccountMovement)
      → live_for gone kind id ms ≡ []
      → net_live gone kind id account ms ≡ pos 0
  unfolding live_for net_live
  live_for-nothing account [] e = refl
  live_for-nothing account (x ∷ xs) e = elim (Bool-cases (is_for kind id x && is_live gone x)) [
    | inl listed ↦ absurd (ground arith)
    | inr passed ↦
        summed_out (net_live gone kind id account xs) (signed_amount x) (is_for kind id x)
          (x.account_id == account) (is_live gone x) (live_for-nothing account xs (rw passed at e))
          passed
  ]
