-- ===== src/Queue/Kept.antt =====
-- Every operation keeps a queue well-formed.
pub mod Offers
pub mod Batches
pub mod Takes
pub mod Shutdown
