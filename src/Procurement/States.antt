-- ===== src/Procurement/States.antt =====
-- procurement/domain/states.py and exceptions.py: the statuses of a purchase order and the
-- transitions between them.
pub mod Workflow
use inventory_management_sys.Base.{String, Bool, true, false, Option, none, some, if◌then◌else◌}

-- `InvalidTransitionError` and `ReceiptError`, with the fixed part of the message, and a missing
-- key of a dict.
pub data DomainError : Type 0 where
  invalid_transition receipt_error : String → DomainError
  key_error : DomainError

pub data Checked (A : Type 0) : Type 0 where
  done : A → Checked A
  failed : DomainError → Checked A

pub data PoStatus : Type 0 where
  draft pending_approval approved rejected sent partially_received received cancelled : PoStatus

pub data PoAction : Type 0 where
  submit approve reject cancel send receive : PoAction

-- `_TRANSITIONS`
abbrev pub transitions : PoStatus → PoAction → Option PoStatus
transitions draft submit = some pending_approval
transitions draft cancel = some cancelled
transitions pending_approval approve = some approved
transitions pending_approval reject = some rejected
transitions pending_approval cancel = some cancelled
transitions approved send = some sent
transitions approved cancel = some cancelled
transitions _ _ = none

-- `status in RECEIVABLE_STATUSES`
abbrev pub is_receivable : PoStatus → Bool
is_receivable sent = true
is_receivable partially_received = true
is_receivable _ = false

-- `status in TERMINAL_STATUSES`
unfoldable pub is_terminal : PoStatus → Bool
is_terminal received = true
is_terminal cancelled = true
is_terminal rejected = true
is_terminal _ = false

abbrev pub is_some {ℓ} : {A : Type ℓ} → Option A → Bool
is_some none = false
is_some (some _) = true

unfoldable pub can_transition : PoStatus → PoAction → Bool
can_transition current receive = is_receivable current
can_transition current submit = is_some (transitions current submit)
can_transition current approve = is_some (transitions current approve)
can_transition current reject = is_some (transitions current reject)
can_transition current cancel = is_some (transitions current cancel)
can_transition current send = is_some (transitions current send)

unfoldable pub target_status : PoStatus → PoAction → Option PoStatus
target_status current receive = none
target_status current submit = transitions current submit
target_status current approve = transitions current approve
target_status current reject = transitions current reject
target_status current cancel = transitions current cancel
target_status current send = transitions current send

unfoldable pub assert_transition : PoStatus → PoAction → Checked (Unit {0})
assert_transition current action =
    if can_transition current action
    then done tt
    else failed (invalid_transition "Cannot act on a purchase order in this status.")

-- `can_edit`
unfoldable pub can_edit : PoStatus → Bool
can_edit draft = true
can_edit _ = false
