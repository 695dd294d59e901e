-- ===== src/Stock/Refinement.antt =====
-- The service refines an abstract stock: a function from products and warehouses to units, which
-- each call shifts. Rows, versions, locks, logs and holds are forgotten.
pub mod Shows
pub mod Calls
pub mod Leaving
pub mod Relocating
pub mod Drawing
pub mod Spec
