-- ===== src/Stock.antt =====
-- Stock: its report, and the pickings.
pub mod Report
pub mod Channel
pub mod Lot
pub mod Picking
mod Tests
