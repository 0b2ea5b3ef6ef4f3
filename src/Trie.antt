-- ===== src/Trie.antt =====
-- packages/merkel-trie/src: the encodings of the trie's keys, and the database with checkpoints.
pub mod Nibbles
pub mod Compact
pub mod CheckpointDb
