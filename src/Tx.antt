-- ===== src/Tx.antt =====
-- packages/tx.
pub mod Fees
