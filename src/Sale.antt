-- ===== src/Sale.antt =====
-- Sale orders: a1_sale.
pub mod Payment
pub mod Words
pub mod Tests
