-- ===== src/Procurement.antt =====
-- Purchase orders: backend/app/procurement.
pub mod States
pub mod Receiving
pub mod Tables
pub mod Service
mod Examples
mod CallExamples
