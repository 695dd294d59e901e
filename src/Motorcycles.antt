-- ===== src/Motorcycles.antt =====
-- motorcycles/domain/lifecycle.py: the sale status of a motorcycle.
pub mod Lifecycle
pub mod Units
use inventory_management_sys.Base.{Bool, true, false, List, [], ◌∷◌, if◌then◌else◌}

pub data SaleStatus : Type 0 where
  unassembled assembled reserved on_hold sold : SaleStatus

-- `new in _ALLOWED.get(old, set())`
unfoldable pub can_transition : SaleStatus → SaleStatus → Bool
can_transition unassembled assembled = true
can_transition unassembled on_hold = true
can_transition unassembled reserved = true
can_transition unassembled sold = true
can_transition assembled reserved = true
can_transition assembled sold = true
can_transition assembled on_hold = true
can_transition reserved sold = true
can_transition reserved assembled = true
can_transition on_hold assembled = true
can_transition on_hold unassembled = true
can_transition _ _ = false

-- `_ORDER`
abbrev pub ordering : List SaleStatus
ordering = unassembled ∷ assembled ∷ reserved ∷ on_hold ∷ sold ∷ []

abbrev pub keep_allowed : SaleStatus → List SaleStatus → List SaleStatus
keep_allowed status [] = []
keep_allowed status (s ∷ ss) =
    let rest = keep_allowed status ss in if can_transition status s then s ∷ rest else rest

unfoldable pub allowed_next : SaleStatus → List SaleStatus
allowed_next status = keep_allowed status ordering

-- `status in TERMINAL`, `RESERVABLE_FROM`, `SELLABLE_FROM`.
unfoldable pub is_terminal : SaleStatus → Bool
is_terminal sold = true
is_terminal _ = false

unfoldable pub is_reservable : SaleStatus → Bool
is_reservable assembled = true
is_reservable unassembled = true
is_reservable _ = false

unfoldable pub is_sellable : SaleStatus → Bool
is_sellable assembled = true
is_sellable reserved = true
is_sellable unassembled = true
is_sellable _ = false
