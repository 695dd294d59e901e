-- ===== src/Procurement/Receiving/Outcome.antt =====
-- The quantities that an accepted receipt leaves on the lines, and the status of the order.
pub mod Tallies
use inventory_management_sys.Base.{
  ℕ, ◌≡◌, ◌≢◌, ap, ◌↔◌, ◌⊎◌, inl, inr, refl, ◌==◌, true, Bool-cases, All-both, all-All, Option,
  none, some, List, [], ◌∷◌, map, All, All-map, sym, arith,
}
use inventory_management_sys.Base.Int.{
  ℤ, pos, ◌+ℤ◌, ◌≤ℤ◌, ◌<ℤ◌, ltb_ℤ, leb_ℤ, int_laws, eq_of_parts,
}
use inventory_management_sys.Base.Dict.{Dict, get, latest, get-dict_of}
use inventory_management_sys.Procurement.States.{Checked, done, failed, received}
use inventory_management_sys.Procurement.Receiving.{
  LineState, remaining, LineReceipt, ReceiptOutcome, and_then, by_id, all_known, line_receipt,
  receive_onto, receive_item, receive_items, total_now, or_already, total_after, is_fully, outcome,
  apply_receipt,
}
use inventory_management_sys.Procurement.Receiving.Acceptance.{IsDone, Fits, receive_items-Fits}
use inventory_management_sys.Procurement.Receiving.Outcome.Tallies.{
  raised, received_qty, expected, total, Holds, Holds-and_then, new_totals, Tallied,
  receive_items-Holds, latest-Fits, Holds-IsDone,
}

-- The line ids of an order are its lines' primary keys.
abbrev pub Distinct : List LineState → Type 0
Distinct [] = Unit
Distinct (l ∷ ls) = All (λ l'. l'.line_id ≢ l.line_id) ls × Distinct ls

abbrev pairs : List LineState → Dict LineState
pairs ls = map (λ (l : LineState). (l.line_id, l)) ls

latest-absent :
    (id : ℕ) (ls : List LineState)
    → All (λ (l' : LineState). l'.line_id ≢ id) ls
    → latest id (pairs ls) ≡ none
unfolding latest
latest-absent id [] a = refl
latest-absent id (l ∷ ls) (ne, a) = ground (arith, latest-absent id ls a)

latest-Distinct :
    (ls : List LineState)
    → Distinct ls
    → All (λ (l : LineState). latest l.line_id (pairs ls) ≡ some l) ls
unfolding latest
latest-Distinct [] d = tt
latest-Distinct (l ∷ ls) (ne, d) = (
  ground (arith, latest-absent l.line_id ls ne),
  All-map _ _ (λ l' e. rw e refl) ls (latest-Distinct ls d),
)

-- The outcome of a receipt, line by line: the total of each line, its bound, the status of the order
-- and the sum of what came.
pub record Received (ls : List LineState) (receipt : Dict ℤ) (o : ReceiptOutcome) : Type 0 where
  pub counted : All (λ (l : LineState). total_after o.lines l ≡ expected receipt l) ls
  pub within : All (λ (l : LineState). total_after o.lines l ≤ℤ l.ordered_qty) ls
  pub complete :
      (o.resulting_status ≡ received)
      ↔ All (λ (l : LineState). expected receipt l ≡ l.ordered_qty) ls
  pub summed : o.total_received_now ≡ total receipt

module _ (index : Dict LineState) (receipt : Dict ℤ) (rs : List LineReceipt) where
  counted_line :
      (l : LineState)
      → Tallied index receipt rs
      → get l.line_id index ≡ some l
      → total_after rs l ≡ expected receipt l
  unfolding total_after
  counted_line l t known =
      rw (get-dict_of l.line_id (new_totals rs))
        (rw (t.tallied l.line_id l known) (by_receipt (latest l.line_id receipt)))
    where
      by_receipt : (o : Option ℤ) → or_already (raised l o) l ≡ l.already_received +ℤ received_qty o
      by_receipt none = grind int_laws
      by_receipt (some q) = refl

  expected-within :
      All (λ (item : ℕ × ℤ). Fits (get item.0 index) item.1) receipt
      → (l : LineState) → get l.line_id index ≡ some l
      → l.already_received ≤ℤ l.ordered_qty
      → expected receipt l ≤ℤ l.ordered_qty
  expected-within a l known h = elim (latest-Fits index receipt l.line_id l a known) [
    | inl untouched ↦ rw untouched (grind int_laws)
    | inr (q, e, more, fewer) ↦ rw e (grind int_laws)
  ]

-- No line has more than what is ordered.
abbrev pub NotOver : List LineState → Type 0
NotOver ls = All (λ (l : LineState). l.already_received ≤ℤ l.ordered_qty) ls

module _ (ls : List LineState) (receipt : Dict ℤ) (d : Distinct ls) (not_over : NotOver ls) where
  known_lines : All (λ (l : LineState). get l.line_id (by_id ls) ≡ some l) ls
  known_lines =
      All-map _ _ (λ l e. rw (get-dict_of l.line_id (pairs ls)) e) ls (latest-Distinct ls d)

  counted_lines :
      (rs : List LineReceipt)
      → Tallied (by_id ls) receipt rs
      → All (λ (l : LineState). total_after rs l ≡ expected receipt l) ls
  counted_lines rs t = All-map _ _ (λ l k. counted_line (by_id ls) receipt rs l t k) ls known_lines

  is_fully_iff :
      (rs : List LineReceipt)
      → Tallied (by_id ls) receipt rs
      → (is_fully ls rs ≡ true) ↔ All (λ (l : LineState). expected receipt l ≡ l.ordered_qty) ls
  unfolding is_fully
  is_fully_iff rs t = (
    λ h.
        All-both _ _ _ (λ l e k. grind (arith, eq_of_parts)) ls ((all-All _ ls).0 h)
          (counted_lines rs t),
    λ a.
        (all-All _ ls).1
          (All-both _ _ _ (λ l e k. grind (arith, eq_of_parts)) ls a (counted_lines rs t)),
  )

  Tallied-Received :
      (rs : List LineReceipt)
      → Tallied (by_id ls) receipt rs
        × All (λ (item : ℕ × ℤ). Fits (get item.0 (by_id ls)) item.1) receipt
      → Received ls receipt (outcome ls rs)
  Tallied-Received rs (t, fits) = record {
    counted = counted_lines rs t;
    within =
        All-both _ _ _ (λ l same f. rw same f) ls (counted_lines rs t)
          (All-both _ _ _ (expected-within (by_id ls) receipt rs fits) ls known_lines not_over);
    complete = (λ h. (is_fully_iff rs t).0 (grind arith), λ a. rw ((is_fully_iff rs t).1 a) refl);
    summed = t.summed;
  }

-- For an order whose lines have different ids and none more than is ordered, `apply_receipt` raises,
-- or its outcome is this: each line has its quantity in the receipt added, none goes over, the order
-- is received exactly when every line then is, and the total is the sum of the receipt.
pub apply_receipt-Received :
    (ls : List LineState) (receipt : Dict ℤ)
    → Distinct ls
    → NotOver ls
    → Holds (Received ls receipt) (apply_receipt ls receipt)
unfolding apply_receipt
apply_receipt-Received ls [] d n = tt
apply_receipt-Received ls (item ∷ rest) d n =
    elim (Bool-cases (all_known (by_id ls) (item ∷ rest))) [
      | inl known ↦ rw known (
          Holds-and_then _ (receive_items (by_id ls) (item ∷ rest)) _
            (Holds-IsDone _ (receive_items (by_id ls) (item ∷ rest))
              (receive_items-Fits (by_id ls) (item ∷ rest)).0
              (receive_items-Holds (by_id ls) (item ∷ rest)))
            (Tallied-Received ls (item ∷ rest) d n))
      | inr unknown ↦ rw unknown tt
    ]
