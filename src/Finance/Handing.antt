-- ===== src/Finance/Handing.antt =====
-- finance/service.py: cash handed over, and its confirmation. Texts arrive stripped.
use inventory_management_sys.Base.{
  ℕ, String, Bool, true, false, ◌&&◌, not, ◌==◌, Option, none, some, ◌∷◌, if◌then◌else◌,
}
use inventory_management_sys.Base.Int.{ℤ, pos, ◌-ℤ◌, leb_ℤ, ltb_ℤ, eqb_ℤ}
use inventory_management_sys.Base.Table.{find_row, set_row}
use inventory_management_sys.Base.Result.{
  not_found, business_rule, permission_denied, Tx, pure, raise_if, gets, modify, or_raise, ◌>>=◌,
  ◌>>◌,
}
use inventory_management_sys.Finance.{
  money_in, money_out, handover, DocStatus, pending_confirmation, confirmed, disputed, CashHandover,
  Books, draw_id, Scope, outside, require_account, Posting, post_movement, reverse_reference,
}
use inventory_management_sys.Finance.Documents.{is_empty, or_own}

abbrev pub handover_key : CashHandover → ℕ
handover_key h = h.id

pub record HandoverCreate : Type 0 where
  pub from_account_id : ℕ
  pub to_account_id : ℕ
  pub branch_id : Option ℕ
  pub amount : ℤ
  pub received_by_name : String

abbrev pub add_handover : CashHandover → Tx Books (Unit {0})
add_handover h = modify λ (books : Books). record books { handovers = h ∷ books.handovers }

abbrev pub save_handover : CashHandover → Tx Books (Unit {0})
save_handover h =
    modify λ (books : Books). record books { handovers = set_row handover_key h books.handovers }

abbrev pub new_handover : ℕ → ℕ → HandoverCreate → CashHandover
new_handover id branch req = record {
  id = id;
  branch_id = branch;
  from_account_id = req.from_account_id;
  to_account_id = req.to_account_id;
  amount = req.amount;
  received_by_name = req.received_by_name;
  status = pending_confirmation;
  confirmed_by = none;
  confirmed_amount = none;
  discrepancy_amount = none;
  discrepancy_reason = none;
  reversed_by = none;
  reversed_at = none;
  reverse_reason = none;
}

abbrev pub handed : ℕ → HandoverCreate → Posting
handed id req = record {
  account_id = req.from_account_id;
  direction = money_out;
  amount = req.amount;
  reference_type = handover;
  reference_id = id;
  reversal_of = none;
}

unfoldable pub create_handover : ℕ → HandoverCreate → Scope → Tx Books (Unit {0})
create_handover user req scope = do
  raise_if (req.from_account_id == req.to_account_id)
      (business_rule "The handover source and destination must differ.")
  raise_if (leb_ℤ req.amount (pos 0)) (business_rule "Handover amount must be positive.")
  raise_if (is_empty req.received_by_name) (business_rule "The receiver's name is required.")
  src ← require_account req.from_account_id scope
  require_account req.to_account_id scope
  raise_if (not src.is_active) (business_rule "The branch cash account is inactive.")
  branch ←
      or_raise (or_own req.branch_id src.branch_id)
        (business_rule "A branch is required to record a handover.")
  raise_if (outside scope (some branch)) (permission_denied "You are not assigned to that branch.")
  id ← draw_id
  add_handover (new_handover id branch req)
  post_movement user (handed id req)

unfoldable pub require_handover : ℕ → Scope → Tx Books CashHandover
require_handover handover_id scope = do
  found ← gets (λ (books : Books). find_row handover_key handover_id books.handovers)
  h ← or_raise found (not_found "Handover not found")
  raise_if (outside scope (some h.branch_id))
      (permission_denied "You are not assigned to that handover's branch.")
  pure h

abbrev pub is_awaiting : DocStatus → Bool
is_awaiting pending_confirmation = true
is_awaiting _ = false

-- What the confirmation writes on the record.
abbrev pub confirmed_as : ℕ → ℤ → String → CashHandover → CashHandover
confirmed_as user amount reason h =
    let counted = record h { confirmed_by = some user; confirmed_amount = some amount } in
    if eqb_ℤ amount h.amount
    then record counted { status = confirmed; discrepancy_amount = some (pos 0) }
    else record counted {
      status = disputed;
      discrepancy_amount = some (h.amount -ℤ amount);
      discrepancy_reason = some reason;
    }

abbrev pub received : ℤ → CashHandover → Posting
received amount h = record {
  account_id = h.to_account_id;
  direction = money_in;
  amount = amount;
  reference_type = handover;
  reference_id = h.id;
  reversal_of = none;
}

-- The money that arrives, if there is any.
unfoldable pub post_received : ℕ → ℤ → CashHandover → Tx Books (Unit {0})
post_received user amount h =
    if ltb_ℤ (pos 0) amount then post_movement user (received amount h) else pure tt

-- An absent reason is the empty one.
unfoldable pub confirm_handover : ℕ → ℕ → ℤ → String → Scope → Tx Books (Unit {0})
confirm_handover user handover_id amount reason scope = do
  h ← require_handover handover_id scope
  raise_if (not (is_awaiting h.status)) (business_rule "This handover is already settled.")
  raise_if (ltb_ℤ amount (pos 0)) (business_rule "The confirmed amount cannot be negative.")
  raise_if (not (eqb_ℤ amount h.amount) && is_empty reason)
      (business_rule "A discrepancy reason is required.")
  post_received user amount h
  save_handover (confirmed_as user amount reason h)

abbrev pub is_set : Option ℕ → Bool
is_set none = false
is_set (some _) = true

abbrev pub taken_back : ℕ → ℕ → String → CashHandover → CashHandover
taken_back user now reason h = record h {
  reversed_by = some user;
  reversed_at = some now;
  reverse_reason = some reason;
}

unfoldable pub reverse_handover : ℕ → ℕ → String → Scope → Tx Books (Unit {0})
reverse_handover user handover_id reason scope = do
  raise_if (is_empty reason) (business_rule "A reason is required to reverse a handover.")
  h ← require_handover handover_id scope
  raise_if (is_set h.reversed_at) (business_rule "This handover is already reversed.")
  reverse_reference user handover h.id
  now ← gets (λ (books : Books). books.now)
  save_handover (taken_back user now reason h)
