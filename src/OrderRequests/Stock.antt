-- ===== src/OrderRequests/Stock.antt =====
-- What the order-request service keeps true of the stock tables.
pub mod Taking
pub mod Arriving
pub mod Releasing
