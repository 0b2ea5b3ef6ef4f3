-- ===== src/Block.antt =====
-- packages/block.
pub mod Fees
