-- ===== src/Lib.antt =====
-- A verification library for the ts-ethereum node: the parts that carry its own algorithms, each
-- translated from its TypeScript source with the theorems that make it correct.
--
-- Parts, files and sources (paths from the root of the repository):
--   Rlp, Rlp/Hex, Rlp/Encode, Rlp/Decode: packages/rlp/src. `encode` and `decode`, their helpers under
--     the source's names. A text is the list of its codes, a byte array a list of numbers, an error a
--     value of `Rlp.Error`. Rlp/Spec is the encoding in plain arithmetic; Rlp/RoundTrip the laws,
--     with Rlp/Payloads for the branches of the decoder.
--   Evm/Stack, Evm/Memory, Evm/TransientStorage: packages/evm/src/stack.ts, memory.ts and
--     transientStorage.ts. Each class is a record of its fields, each method a function that returns
--     the new record or the error thrown.
--   Evm/Arithmetic: packages/evm/src/opcodes/util.ts and the handlers 0x01 to 0x0a and 0x10 to 0x15 of
--     functions.ts, which pop from and push to the stack of Evm/Stack.
--     Evm/Arithmetic/Words says in plain arithmetic what each of them makes of a stack.
--   Evm/Shifts: the values that the handlers of SHL and SHR in functions.ts push.
--   Kademlia/Bucket: packages/kademlia/src/bucket.ts. The tree of nodes is a data type; a change of the
--     node that a loop finds is a change of the leaf that the id leads to. Events are returned.
--   Kademlia/Xor: packages/kademlia/src/xor.ts.
--   Trie/Nibbles, Trie/Compact: packages/merkel-trie/src/util: nibbles.ts, hex.ts, encoding.ts.
--   Checkpoints, Checkpoints/Diffs: what a component with nested checkpoints promises to the calls of a
--     transaction, as a record of operations and laws; the caches, the database and the journal fill it.
--   State/ElementCache, State/AccountCache, State/CodeCache, State/StorageCache:
--     packages/state-manager/src/cache/account.ts, code.ts and storage.ts. The ordered map and the stack
--     of differences are the state; ElementCache is what the classes for accounts and code have in
--     common. An account is put by its serialization.
--   Trie/CheckpointDb: packages/merkel-trie/src/db/checkpointDB.ts, over a disk and a cache.
--   Evm/Journal: packages/evm/src/journal.ts, the warm addresses and slots and the touched accounts.
--     Evm/Journal/Levels groups the items of `journalDiff` by their heights.
--   Evm/Gas: packages/evm/src/opcodes/util.ts, the helpers for gas and slices.
--   Block/Fees: packages/block/src/header/header.ts and helpers.ts, the rules for the gas limit, the base
--     fee and the price of blob gas. `calcNextExcessBlobGas` is left out: it calls
--     `getBlobGasSchedule`, which the configuration of the chain does not have.
--   Tx/Fees: packages/tx/src/capabilities/eip1559.ts and legacy.ts, what a transaction costs.
--   Utils/Bytes, Utils/Numbers: packages/utils/src/bytes.ts and internal.ts, hexadecimal texts, and bytes
--     as numbers.
--   Utils/Account: packages/utils/src/account.ts, accounts as records whose missing fields are null.
--   Common: numbers, lists, results, maps and integers that the parts share. Tests: the theorems at
--     concrete inputs.
--
-- Integers are natural numbers of any size, with the wrap-around of a word or a byte written out. The
-- loops of `toString(16)`, `exponentiation` and `bitLength` run on fuel that is the number itself, which
-- halves or shrinks in each round; `_decode` runs on the length of its input, each call of itself having
-- a shorter one. `add` of a bucket calls itself after a split, and takes the number of calls as fuel;
-- more than the bits of an id are enough. `fakeExponential` takes its rounds as fuel; some amount is enough
-- for every positive denominator.
--
-- Parameters: `hex`, the conversion of bytes to hexadecimal texts in the transient storage; `equals`, the
-- equality of byte arrays, relied on for deciding equality; `of_hex`, which reads a hexadecimal text;
-- `CacheStore`, the ordered map of the caches, in which an element is found under its key until it is
-- replaced or erased; `HexLibrary` and `NobleHex`, the hexadecimal conversions, by which an array is read
-- back from its text; `Disk` and `Lru`, the key-value store and the cache of the trie's database; the hard
-- fork's parameters in the rules for fees, as fields of a record.
--
-- Not modelled: networking, storage and start-up, which are I/O; cryptography and databases, which are
-- other packages; the trie's nodes, the interpreter, the codecs of blocks and of transactions,
-- partial accounts, and the transaction pool. Counters and debug output of the modelled classes are
-- left out, and so are the preimages of the journal, which are only reported.
pub mod Common
pub mod Checkpoints
pub mod Rlp
pub mod Evm
pub mod Kademlia
pub mod Trie
pub mod State
pub mod Utils
pub mod Block
pub mod Tx
pub mod Tests
