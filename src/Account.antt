-- ===== src/Account.antt =====
-- The accounting part: a1_account.
pub mod TaxSubstitute
pub mod Tests
