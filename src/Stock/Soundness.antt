-- ===== src/Stock/Soundness.antt =====
-- Every operation of the stock service keeps the invariant of the tables.
pub mod Reads
pub mod Inbound
pub mod Holds
pub mod Release
pub mod Issuing
pub mod Reserved
pub mod Moving
