-- ===== src/Procurement/Receiving/Outcome/Tallies.antt =====
-- What the line receipts of an accepted receipt add up to, line by line and in all.
use inventory_management_sys.Base.{
  ℕ, ◌≡◌, ap, ◌⊎◌, inl, inr, refl, ◌==◌, true, Bool-cases, Option, none, some, List, [], ◌∷◌, map,
  All, sym, arith,
}
use inventory_management_sys.Base.Int.{ℤ, pos, ◌+ℤ◌, ◌≤ℤ◌, ◌<ℤ◌, ltb_ℤ, leb_ℤ}
use inventory_management_sys.Base.Dict.{Dict, get, latest}
use inventory_management_sys.Procurement.States.{Checked, done, failed}
use inventory_management_sys.Procurement.Receiving.{
  LineState, remaining, LineReceipt, and_then, line_receipt, receive_onto, receive_item,
  receive_items, total_now,
}
use inventory_management_sys.Procurement.Receiving.Acceptance.{IsDone, Fits}

-- The new total of a line, by what the receipt says of it.
abbrev pub raised : LineState → Option ℤ → Option ℤ
raised l none = none
raised l (some q) = some (l.already_received +ℤ q)

abbrev pub received_qty : Option ℤ → ℤ
received_qty none = pos 0
received_qty (some q) = q

-- What a receipt leaves in the received column of a line.
abbrev pub expected : Dict ℤ → LineState → ℤ
expected receipt l = l.already_received +ℤ received_qty (latest l.line_id receipt)

abbrev pub total : Dict ℤ → ℤ
total [] = pos 0
total ((id, q) ∷ rest) = q +ℤ total rest

abbrev pub Holds : {A : Type 0} → (A → Type 0) → Checked A → Type 0
Holds Q (done a) = Q a
Holds Q (failed e) = Unit

pub Holds-and_then :
    {A B : Type 0} {Q : A → Type 0} (R : B → Type 0) (c : Checked A) (f : A → Checked B)
    → Holds Q c
    → ((a : A) → Q a → Holds R (f a))
    → Holds R (and_then c f)
Holds-and_then R (done a) f q k = k a q
Holds-and_then R (failed e) f q k = tt

abbrev pub new_totals : List LineReceipt → Dict ℤ
new_totals rs = map (λ (r : LineReceipt). (r.line_id, r.new_received_total)) rs

-- The line receipts say of each line what the receipt says of it.
pub record Tallied (index : Dict LineState) (receipt : Dict ℤ) (rs : List LineReceipt)
    : Type 0 where
  pub tallied :
      (id : ℕ) (l : LineState)
      → get id index ≡ some l
      → latest id (new_totals rs) ≡ raised l (latest id receipt)
  pub summed : total_now rs ≡ total receipt

module _ (index : Dict LineState) where
  abbrev IsLineReceipt : ℕ → ℤ → LineReceipt → Type 0
  IsLineReceipt id q r = (l : LineState) × (get id index ≡ some l) × (r ≡ line_receipt l id q)

  receive_onto-Holds :
      (o : Option LineState) (id : ℕ) (q : ℤ)
      → get id index ≡ o
      → Holds (IsLineReceipt id q) (receive_onto o id q)
  receive_onto-Holds none id q e = tt
  receive_onto-Holds (some l) id q e = elim (Bool-cases (ltb_ℤ (remaining l) q)) [
    | inl over ↦ rw over tt
    | inr fits ↦ rw fits (l, e, refl)
  ]

  receive_item-Holds : (id : ℕ) (q : ℤ) → Holds (IsLineReceipt id q) (receive_item index id q)
  unfolding receive_item
  receive_item-Holds id q = elim (Bool-cases (leb_ℤ q (pos 0))) [
    | inl none_left ↦ rw none_left tt
    | inr positive ↦ rw positive (receive_onto-Holds (get id index) id q refl)
  ]

  Tallied-cons :
      (id : ℕ) (q : ℤ) (rest : Dict ℤ) (r : LineReceipt) (rs : List LineReceipt)
      → IsLineReceipt id q r
      → Tallied index rest rs
      → Tallied index ((id, q) ∷ rest) (r ∷ rs)
  unfolding latest total_now
  Tallied-cons id q rest r rs (l, known, same) t = record {
    tallied = λ id' l' known'. ground (arith, t.tallied id' l' known');
    summed = rw same (ap (λ x. q +ℤ x) t.summed);
  }

  pub receive_items-Holds :
      (receipt : Dict ℤ) → Holds (Tallied index receipt) (receive_items index receipt)
  unfolding receive_items latest total_now
  receive_items-Holds [] = record { tallied = λ id l k. refl; summed = refl }
  receive_items-Holds ((id, q) ∷ rest) =
      Holds-and_then _ (receive_item index id q) _ (receive_item-Holds id q) λ r is.
        Holds-and_then _ (receive_items index rest) _ (receive_items-Holds rest)
          λ rs t. Tallied-cons id q rest r rs is t

  eq_of_test : (i j : ℕ) → (i == j) ≡ true → i ≡ j
  eq_of_test i j e = ground arith

  -- What an acceptable receipt says of a line fits on the line.
  pub latest-Fits :
      (receipt : Dict ℤ) (id : ℕ) (l : LineState)
      → All (λ (item : ℕ × ℤ). Fits (get item.0 index) item.1) receipt
      → get id index ≡ some l
      → (latest id receipt ≡ none)
        ⊎ ((q : ℤ) × (latest id receipt ≡ some q) × (pos 0 <ℤ q) × (q ≤ℤ remaining l))
  unfolding latest
  latest-Fits [] id l a known = inl refl
  latest-Fits ((id', q) ∷ rest) id l (fit, a) known = elim (latest-Fits rest id l a known) [
    | inr (q', e, more, fewer) ↦ inr (q', rw e refl, more, fewer)
    | inl later ↦ rw later (elim (Bool-cases (id == id')) [
      | inl same ↦
          (let f : Fits (some l) q = rw known at (rw (sym (eq_of_test id id' same)) at fit) in
            inr (q, rw same refl, f.0, f.1))
      | inr other ↦ inl (rw other refl)
    ])
  ]

pub Holds-IsDone :
    {A : Type 0} (Q : A → Type 0) {P : Type 0} (c : Checked A)
    → (IsDone c → P)
    → Holds Q c
    → Holds (λ a. Q a × P) c
Holds-IsDone Q (done a) f q = (q, f tt)
Holds-IsDone Q (failed e) f q = tt
