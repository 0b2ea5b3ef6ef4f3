-- ===== src/Tests.antt =====
-- The theorems at concrete inputs.
pub mod Rlp
pub mod Evm
pub mod Kademlia
pub mod Trie
pub mod State
pub mod Fees
pub mod Tx
pub mod Account
pub mod Journal
pub mod CheckpointDb
