-- ===== src/Returns.antt =====
-- The add-ons a1_sale_return and a1_purchase_return: orders that send goods back, and the wizards that
-- make them from an order, a bill or a picking.
pub mod Wizard
pub mod Picking
pub mod Returned
pub mod Sale
pub mod Tests
pub mod Purchase
pub mod Bill
pub mod Cost
pub mod Cascade
pub mod Valuation
pub mod SaleOrders
pub mod Orders
