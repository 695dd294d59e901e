-- ===== src/Stock/Service.antt =====
-- services/inventory_service.py: the helpers of `InventoryService`, and the operations in the
-- children. `actor`, `occurred_at` and `historical` are the keyword arguments of every call.
pub mod Inbound
pub mod Issue
pub mod Held
pub mod Relocate
