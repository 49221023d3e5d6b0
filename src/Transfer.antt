-- ===== src/Transfer.antt =====
-- The add-on a1_stock_transfer_request: requests that move goods between warehouses by way of a
-- transit location.
pub mod Model
pub mod Lines
pub mod Status
pub mod Outgoing
pub mod Available
pub mod Incoming
pub mod Lots
pub mod Purchase
pub mod Import
pub mod Lifecycle
mod Tests
