-- ===== src/Utils.antt =====
-- packages/utils.
pub mod Bytes
pub mod Numbers
pub mod Account
