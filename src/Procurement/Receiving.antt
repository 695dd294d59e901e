-- ===== src/Procurement/Receiving.antt =====
-- procurement/domain/receiving.py: what a goods receipt does to the lines of a purchase order.
pub mod Acceptance
pub mod Outcome
use inventory_management_sys.Base.{
  ℕ, String, Bool, true, false, Option, none, some, List, [], ◌∷◌, map, all, if◌then◌else◌,
}
use inventory_management_sys.Base.Int.{ℤ, pos, ◌+ℤ◌, ◌-ℤ◌, ltb_ℤ, leb_ℤ, eqb_ℤ}
use inventory_management_sys.Base.Dict.{Dict, get, dict_of}
use inventory_management_sys.Procurement.States.{
  DomainError, receipt_error, key_error, Checked, done, failed, PoStatus, received,
  partially_received, is_some,
}

pub record LineState : Type 0 where
  pub line_id : ℕ
  pub product_id : ℕ
  pub ordered_qty : ℤ
  pub already_received : ℤ

abbrev pub remaining : LineState → ℤ
remaining l = l.ordered_qty -ℤ l.already_received

pub record LineReceipt : Type 0 where
  pub line_id : ℕ
  pub product_id : ℕ
  pub received_now : ℤ
  pub new_received_total : ℤ
  pub fully_received : Bool

pub record ReceiptOutcome : Type 0 where
  pub lines : List LineReceipt
  pub resulting_status : PoStatus
  pub fully_received : Bool
  pub total_received_now : ℤ

abbrev pub and_then : {A B : Type 0} → Checked A → (A → Checked B) → Checked B
and_then (done a) f = f a
and_then (failed e) f = failed e

abbrev pub by_id : List LineState → Dict LineState
by_id ls = dict_of (map (λ (l : LineState). (l.line_id, l)) ls)

-- No key of the receipt is unknown: `set(receipt) - set(by_id)` is empty.
unfoldable pub all_known : Dict LineState → Dict ℤ → Bool
all_known index receipt = all (λ (item : ℕ × ℤ). is_some (get item.0 index)) receipt

abbrev pub line_receipt : LineState → ℕ → ℤ → LineReceipt
line_receipt l id qty = record {
  line_id = id;
  product_id = l.product_id;
  received_now = qty;
  new_received_total = l.already_received +ℤ qty;
  fully_received = eqb_ℤ (l.already_received +ℤ qty) l.ordered_qty;
}

abbrev pub receive_onto : Option LineState → ℕ → ℤ → Checked LineReceipt
receive_onto none id qty = failed key_error
receive_onto (some l) id qty =
    if ltb_ℤ (remaining l) qty
    then failed (receipt_error "Over-receipt on line")
    else done (line_receipt l id qty)

-- One turn of the loop.
unfoldable pub receive_item : Dict LineState → ℕ → ℤ → Checked LineReceipt
receive_item index id qty =
    if leb_ℤ qty (pos 0)
    then failed (receipt_error "Received quantity for line must be > 0.")
    else receive_onto (get id index) id qty

unfoldable pub receive_items : Dict LineState → Dict ℤ → Checked (List LineReceipt)
receive_items index [] = done []
receive_items index ((id, qty) ∷ rest) =
    and_then (receive_item index id qty)
      λ r. and_then (receive_items index rest) λ rs. done (r ∷ rs)

-- `total_now`
unfoldable pub total_now : List LineReceipt → ℤ
total_now [] = pos 0
total_now (r ∷ rs) = r.received_now +ℤ total_now rs

abbrev pub or_already : Option ℤ → LineState → ℤ
or_already none l = l.already_received
or_already (some q) l = q

abbrev pub receipt_totals : List LineReceipt → Dict ℤ
receipt_totals rs = dict_of (map (λ (r : LineReceipt). (r.line_id, r.new_received_total)) rs)

-- The received quantity of a line after the receipt.
unfoldable pub total_after : List LineReceipt → LineState → ℤ
total_after rs l = or_already (get l.line_id (receipt_totals rs)) l

unfoldable pub is_fully : List LineState → List LineReceipt → Bool
is_fully ls rs = all (λ (l : LineState). eqb_ℤ (total_after rs l) l.ordered_qty) ls

abbrev pub outcome : List LineState → List LineReceipt → ReceiptOutcome
outcome ls rs = record {
  lines = rs;
  resulting_status = if is_fully ls rs then received else partially_received;
  fully_received = is_fully ls rs;
  total_received_now = total_now rs;
}

unfoldable pub apply_receipt : List LineState → Dict ℤ → Checked ReceiptOutcome
apply_receipt ls [] = failed (receipt_error "A receipt must include at least one line.")
apply_receipt ls (item ∷ rest) =
    if all_known (by_id ls) (item ∷ rest)
    then and_then (receive_items (by_id ls) (item ∷ rest)) (λ rs. done (outcome ls rs))
    else failed (receipt_error "Receipt references unknown PO line(s)")
