-- ===== src/Procurement/Service/Calls/Bounds.antt =====
-- What a receipt of goods may do to the lines and to the stock.
use inventory_management_sys.Base.{
  ℕ, ◌≡◌, refl, ap, sym, ◌∙◌, inl, inr, false, Bool-cases, Option, none, some, List, [], ◌∷◌, map,
  All, arith,
}
use inventory_management_sys.Base.Int.{ℤ, pos, ◌≤ℤ◌, ltb_ℤ, leb_ℤ, int_laws}
use inventory_management_sys.Base.Dict.{Dict, get, latest, get-dict_of}
use inventory_management_sys.Procurement.Tables.{PurchaseOrderLine}
use inventory_management_sys.Procurement.Receiving.{
  LineState, remaining, LineReceipt, ReceiptOutcome, by_id, receive_onto, receive_item,
  receive_items, all_known, apply_receipt,
}
use inventory_management_sys.Procurement.Receiving.Outcome.Tallies.{Holds, Holds-and_then}
use inventory_management_sys.Procurement.Service.Receipt.{line_state, lines_by_id}

-- A line receipt that a line of the index has room for.
abbrev pub Sized : Dict LineState → LineReceipt → Type 0
Sized index lr =
    (l : LineState) × (get lr.line_id index ≡ some l)
    × (lr.new_received_total ≤ℤ l.ordered_qty)
    × (pos 0 ≤ℤ lr.received_now)

module _ (index : Dict LineState) where
  receive_onto-Sized :
      (o : Option LineState) (id : ℕ) (q : ℤ)
      → get id index ≡ o
      → leb_ℤ q (pos 0) ≡ false
      → Holds (Sized index) (receive_onto o id q)
  receive_onto-Sized none id q e h = tt
  receive_onto-Sized (some l) id q e h = elim (Bool-cases (ltb_ℤ (remaining l) q)) [
    | inl over ↦ rw over tt
    | inr fits ↦ rw fits (l, e, grind int_laws, ground arith)
  ]

  receive_item-Sized : (id : ℕ) (q : ℤ) → Holds (Sized index) (receive_item index id q)
  unfolding receive_item
  receive_item-Sized id q = elim (Bool-cases (leb_ℤ q (pos 0))) [
    | inl none_left ↦ rw none_left tt
    | inr positive ↦ rw positive (receive_onto-Sized (get id index) id q refl positive)
  ]

  receive_items-Sized : (receipt : Dict ℤ) → Holds (All (Sized index)) (receive_items index receipt)
  unfolding receive_items
  receive_items-Sized [] = tt
  receive_items-Sized ((id, q) ∷ rest) =
      Holds-and_then _ (receive_item index id q) _ (receive_item-Sized id q) λ r is.
        Holds-and_then _ (receive_items index rest) _ (receive_items-Sized rest) λ rs t. (is, t)

pub apply_receipt-Sized :
    (ls : List LineState) (receipt : Dict ℤ)
    → Holds (λ (o : ReceiptOutcome). All (Sized (by_id ls)) o.lines) (apply_receipt ls receipt)
unfolding apply_receipt
apply_receipt-Sized ls [] = tt
apply_receipt-Sized ls (item ∷ rest) = elim (Bool-cases (all_known (by_id ls) (item ∷ rest))) [
  | inl known ↦ rw known (
      Holds-and_then _ (receive_items (by_id ls) (item ∷ rest)) _
        (receive_items-Sized (by_id ls) (item ∷ rest)) λ rs t. t)
  | inr unknown ↦ rw unknown tt
]

abbrev pub mapped : Option PurchaseOrderLine → Option LineState
mapped none = none
mapped (some line) = some (line_state line)

latest-line_state :
    (k : ℕ) (lines : List PurchaseOrderLine)
    → latest k (map (λ (l : LineState). (l.line_id, l)) (map line_state lines))
      ≡ mapped (latest k (map (λ (line : PurchaseOrderLine). (line.id, line)) lines))
unfolding latest
latest-line_state k [] = refl
latest-line_state k (line ∷ lines) = ground (arith, latest-line_state k lines)

-- The two dicts of the lines agree.
pub get-line_state :
    (k : ℕ) (lines : List PurchaseOrderLine)
    → get k (by_id (map line_state lines)) ≡ mapped (get k (lines_by_id lines))
get-line_state k lines =
    get-dict_of k (map (λ (l : LineState). (l.line_id, l)) (map line_state lines))
    ∙ latest-line_state k lines
    ∙ ap mapped (sym (get-dict_of k (map (λ (line : PurchaseOrderLine). (line.id, line)) lines)))
