-- ===== src/Product.antt =====
-- The products: a1_product.
pub mod Ean13
pub mod DefaultCode
pub mod Tests
