-- ===== src/Stock.antt =====
-- Stock on hand, holds and the movement ledger: services/inventory_service.py,
-- repositories/inventory_repo.py and repositories/reservation_repo.py.
pub mod Tables
pub mod Repository
pub mod Reservations
pub mod Ledger
pub mod Invariant
pub mod Context
pub mod Holding
pub mod Places
pub mod Posting
pub mod Soundness
pub mod Requests
pub mod Serving
pub mod Refinement
pub mod Availability
pub mod Drawing
pub mod Service
pub mod Reserving
mod Examples
