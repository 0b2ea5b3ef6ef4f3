-- ===== src/Evm/TransientStorage.antt =====
-- packages/evm/src/transientStorage.ts: storage that lasts for a transaction, with a journal.
pub mod Views
pub mod Transactions
pub mod Calls
pub use simple_p2p_blockchain.Common.{Text, Text-discrete}
use simple_p2p_blockchain.Common.{
  ℕ, ◌+◌, List, [], ◌∷◌, ◌++◌, ltb, leb, ◌==◌, not, Option, none, some, if◌then◌else◌, length, take,
  drop, replicate, Result, ok, err, ◌>>=◌, ◌>>◌, throw_if,
}
use simple_p2p_blockchain.Common.Maps
use simple_p2p_blockchain.Common.Maps.{Map}

-- `missing_map` is the TypeError of `this._storage.get(addr)!` where there is no entry.
pub data TransientError : Type 0 where
  key_length value_length nothing_to_commit nothing_to_revert missing_map : TransientError

pub record Modification : Type 0 where
  pub addr : Text
  pub key : Text
  pub prev_value : List ℕ

-- `_storage`, `_changeJournal` with the oldest change first, and `_indices` with the newest first.
pub record Transient : Type 0 where
  pub storage : Map Text (Map Text (List ℕ))
  pub journal : List Modification
  pub indices : List ℕ

unfoldable pub new_transient : Transient
new_transient = record { storage = []; journal = []; indices = 0 ∷ [] }

abbrev pub zero_word : List ℕ
zero_word = replicate 32 0

-- `?? new Uint8Array(32)`
abbrev pub or_zero : Option (List ℕ) → List ℕ
or_zero none = zero_word
or_zero (some value) = value

abbrev pub Storage : Type 0
Storage = Map Text (Map Text (List ℕ))

-- `if (!this._storage.has(addrString)) this._storage.set(addrString, new Map())` and the read after
-- it.
unfoldable pub map_of : Text → Storage → Map Text (List ℕ)
map_of addr storage = elim (Maps.get Text-discrete addr storage) [ none ↦ [] | some map ↦ map ]

-- `hex` is `bytesToHex` of ethereum-cryptography, by which an address and a key become texts.
module _ (hex : List ℕ → Text) where
  -- `bytesToHex` of packages/utils, which is also `Address.toString`.
  unfoldable pub prefixed_hex : List ℕ → Text
  prefixed_hex bytes = 48 ∷ 120 ∷ hex bytes

  unfoldable pub get : List ℕ → List ℕ → Transient → List ℕ
  get addr key t = elim (Maps.get Text-discrete (prefixed_hex addr) t.storage) [
    | none ↦ zero_word
    | some map ↦ or_zero (Maps.get Text-discrete (prefixed_hex key) map)
  ]

  unfoldable pub put : List ℕ → List ℕ → List ℕ → Transient → Result TransientError Transient
  put addr key value t = do
    throw_if (not (length key == 32)) key_length
    throw_if (ltb 32 (length value)) value_length
    let addr_string = prefixed_hex addr
    let map = map_of addr_string t.storage
    let key_str = prefixed_hex key
    let prev_value = or_zero (Maps.get Text-discrete key_str map)
    let change : Modification = record {
      addr = addr_string;
      key = key_str;
      prev_value = prev_value;
    }
    ok (record t {
      journal = t.journal ++ change ∷ [];
      storage =
          Maps.set Text-discrete addr_string (Maps.set Text-discrete key_str value map) t.storage;
    })

-- `commit` throws away the length of the journal at the last checkpoint.
unfoldable pub commit : Transient → Result TransientError Transient
commit t = elim t.indices [
  | [] ↦ err nothing_to_commit
  | i ∷ rest ↦ ok (record t { indices = rest })
]

unfoldable pub checkpoint : Transient → Transient
checkpoint t = record t { indices = length t.journal ∷ t.indices }

-- One round of the loop of `revert`.
unfoldable pub undo : Modification → Storage → Result TransientError Storage
undo c storage = elim (Maps.get Text-discrete c.addr storage) [
  | none ↦ err missing_map
  | some map ↦
      ok (Maps.set Text-discrete c.addr (Maps.set Text-discrete c.key c.prev_value map) storage)
]

-- The loop of `revert` over the changes since the checkpoint, the newest first.
unfoldable pub undo_all : List Modification → Storage → Result TransientError Storage
undo_all [] storage = ok storage
undo_all (c ∷ cs) storage = undo_all cs storage >>= undo c

unfoldable pub revert : Transient → Result TransientError Transient
revert t = elim t.indices [
  | [] ↦ err nothing_to_revert
  | last_checkpoint ∷ rest ↦ do
    storage ← undo_all (drop last_checkpoint t.journal) t.storage
    ok (record t { storage = storage; journal = take last_checkpoint t.journal; indices = rest })
]

-- The checkpoints stay, as in the source.
unfoldable pub clear : Transient → Transient
clear t = record t { storage = []; journal = [] }
