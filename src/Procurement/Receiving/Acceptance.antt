-- ===== src/Procurement/Receiving/Acceptance.antt =====
-- Which receipts are accepted.
use inventory_management_sys.Base.{
  ℕ, ◌≡◌, ◌≢◌, ◌↔◌, inl, inr, refl, true, Bool-cases, Option, none, some, List, [], ◌∷◌, All, arith,
}
use inventory_management_sys.Base.Int.{ℤ, pos, ◌≤ℤ◌, ◌<ℤ◌, ltb_ℤ, leb_ℤ}
use inventory_management_sys.Base.Dict.{Dict, get}
use inventory_management_sys.Procurement.States.{Checked, done, failed, is_some}
use inventory_management_sys.Procurement.Receiving.{
  LineState, remaining, and_then, by_id, all_known, receive_onto, receive_item, receive_items,
  outcome, apply_receipt,
}

abbrev pub IsDone : {A : Type 0} → Checked A → Type 0
IsDone (done _) = Unit
IsDone (failed _) = ⊥

-- A quantity that may be received on a line.
abbrev pub Fits : Option LineState → ℤ → Type 0
Fits none q = ⊥
Fits (some l) q = (pos 0 <ℤ q) × (q ≤ℤ remaining l)

-- A receipt that names at least one line, only lines of the order, and of each a quantity that is
-- positive and at most what remains.
abbrev pub Acceptable : List LineState → Dict ℤ → Type 0
Acceptable ls receipt =
    (receipt ≢ []) × All (λ (item : ℕ × ℤ). Fits (get item.0 (by_id ls)) item.1) receipt

module _ (index : Dict LineState) where
  receive_onto-Fits :
      (o : Option LineState) (id : ℕ) (q : ℤ) → pos 0 <ℤ q → IsDone (receive_onto o id q) ↔ Fits o q
  receive_onto-Fits none id q h = (λ d. d, λ f. f)
  receive_onto-Fits (some l) id q h = elim (Bool-cases (ltb_ℤ (remaining l) q)) [
    | inl over ↦ (λ d. absurd (rw over at d), λ f. absurd (ground arith))
    | inr fits ↦ (λ d. (h, ground arith), λ f. rw fits tt)
  ]

  Fits-positive : (o : Option LineState) (q : ℤ) → Fits o q → pos 0 <ℤ q
  Fits-positive none q f = absurd f
  Fits-positive (some l) q f = f.0

  receive_item-Fits : (id : ℕ) (q : ℤ) → IsDone (receive_item index id q) ↔ Fits (get id index) q
  unfolding receive_item
  receive_item-Fits id q = elim (Bool-cases (leb_ℤ q (pos 0))) [
    | inl none_left ↦ (
      λ d. absurd (rw none_left at d),
      λ f. absurd (grind (arith, Fits-positive (get id index) q f)),
    )
    | inr positive ↦ rw positive (receive_onto-Fits (get id index) id q (ground arith))
  ]

  IsDone-and_then :
      {A B : Type 0} (c : Checked A) (f : A → B) → IsDone (and_then c λ a. done (f a)) ↔ IsDone c
  IsDone-and_then (done a) f = (λ d. tt, λ d. tt)
  IsDone-and_then (failed e) f = (λ d. d, λ d. d)

  IsDone-both :
      {A B C : Type 0} (c : Checked A) (d : Checked B) (f : A → B → C)
      → IsDone (and_then c λ a. and_then d λ b. done (f a b)) ↔ (IsDone c × IsDone d)
  IsDone-both (done a) d f =
      (λ h. (tt, (IsDone-and_then d (f a)).0 h), λ h. (IsDone-and_then d (f a)).1 h.1)
  IsDone-both (failed e) d f = (λ h. absurd h, λ h. h.0)

  pub receive_items-Fits :
      (receipt : Dict ℤ)
      → IsDone (receive_items index receipt)
        ↔ All (λ (item : ℕ × ℤ). Fits (get item.0 index) item.1) receipt
  unfolding receive_items
  receive_items-Fits [] = (λ d. tt, λ d. tt)
  receive_items-Fits ((id, q) ∷ rest) =
      let both =
        IsDone-both (receive_item index id q) (receive_items index rest) (λ r rs. r ∷ rs) in
      (
        λ d. ((receive_item-Fits id q).0 (both.0 d).0, (receive_items-Fits rest).0 (both.0 d).1),
        λ a. both.1 ((receive_item-Fits id q).1 a.0, (receive_items-Fits rest).1 a.1),
      )

  Fits-known :
      (receipt : Dict ℤ)
      → All (λ (item : ℕ × ℤ). Fits (get item.0 index) item.1) receipt
      → all_known index receipt ≡ true
  unfolding all_known
  Fits-known [] a = refl
  Fits-known ((id, q) ∷ rest) a = rw (known (get id index) a.0) (Fits-known rest a.1)
    where
      known : (o : Option LineState) → Fits o q → is_some o ≡ true
      known none f = absurd f
      known (some l) f = refl

-- A receipt is accepted exactly when it is acceptable, whatever the lines are.
pub apply_receipt_iff :
    (ls : List LineState) (receipt : Dict ℤ)
    → IsDone (apply_receipt ls receipt) ↔ Acceptable ls receipt
unfolding apply_receipt
apply_receipt_iff ls [] = (λ d. absurd d, λ a. absurd (a.0 refl))
apply_receipt_iff ls (item ∷ rest) =
    let done_iff =
      IsDone-and_then (by_id ls) (receive_items (by_id ls) (item ∷ rest)) (outcome ls) in
    let fits = receive_items-Fits (by_id ls) (item ∷ rest) in
    elim (Bool-cases (all_known (by_id ls) (item ∷ rest))) [
      | inl known ↦
          rw known (λ d. ((λ e. grind arith), fits.0 (done_iff.0 d)), λ a. done_iff.1 (fits.1 a.1))
      | inr unknown ↦ (
        λ d. absurd (rw unknown at d),
        λ a. absurd (grind (arith, Fits-known (by_id ls) (item ∷ rest) a.1)),
      )
    ]
