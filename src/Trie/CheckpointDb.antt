-- ===== src/Trie/CheckpointDb.antt =====
-- packages/merkel-trie/src/db/checkpointDB.ts; the counters of `_stats` are left out.
pub mod Views
pub mod Checkpointing
pub mod Reads
pub mod Calls
pub mod Cached
use simple_p2p_blockchain.Common.{
  ℕ, List, [], ◌∷◌, map, Option, none, some, Text, Text-discrete, ◌≡◌, Bool, true, false,
  if◌then◌else◌,
}
use simple_p2p_blockchain.Common.Maps
use simple_p2p_blockchain.Common.Maps.{Map, same}
use simple_p2p_blockchain.Checkpoints.{◌>>=◌}
use simple_p2p_blockchain.Utils.Bytes.{HexLibrary, unprefixed_hex_to_bytes}

pub data ValueEncoding : Type 0 where
  string_encoding bytes_encoding json_encoding : ValueEncoding

-- What the disk stores: a text or bytes.
pub data DiskValue (B : Type 0) : Type 0 where
  as_text : Text → DiskValue B
  as_bytes : B → DiskValue B

-- The underlying `DB`, in which `none` deletes: a batch is its operations in order.
abbrev pub write_all : {D V : Type 0} → (D → Text → Option V → D) → D → List (Text × Option V) → D
write_all write disk [] = disk
write_all write disk ((key, value) ∷ ops) = write_all write (write disk key value) ops

pub record Disk (V : Type 0) : Type 1 where
  pub Store : Type 0
  pub get : Store → Text → Option V
  pub write : Store → Text → Option V → Store
  pub batch : Store → List (Text × Option V) → Store
  pub get-write :
      (s : Store) (k j : Text) (v : Option V)
      → get (write s k v) j ≡ (if same Text-discrete k j then v else get s j)
  pub get-batch :
      (s : Store) (ops : List (Text × Option V)) (j : Text)
      → get (batch s ops) j ≡ get (write_all write s ops) j

-- `LRUCache`, in which undefined deletes. A read changes which entries count as recently used.
pub record Lru (B : Type 0) : Type 1 where
  pub Entries : Type 0
  pub get : Entries → Text → Option B × Entries
  pub set : Entries → Text → Option B → Entries

pub record Checkpoint (B : Type 0) : Type 0 where
  pub key_value_map : Map Text (Option B)
  pub root : B

pub data BatchOp (B : Type 0) : Type 0 where
  put_op : B → B → BatchOp B
  del_op : B → BatchOp B

-- `checkpoints` with the latest first.
pub record CheckpointDb (S C B : Type 0) : Type 0 where
  pub disk : S
  pub checkpoints : List (Checkpoint B)
  pub cache : Option C

module _ (lib : HexLibrary) (lru : Lru lib.Bytes) (disk : Disk (DiskValue lib.Bytes))
    (encoding : ValueEncoding) where
  abbrev pub Db : Type 0
  Db = CheckpointDb disk.Store lru.Entries lib.Bytes

  -- `put` makes a text of a value unless the encoding is `ValueEncoding.Bytes`.
  abbrev pub to_disk : lib.Bytes → DiskValue lib.Bytes
  to_disk value = elim encoding [
    | string_encoding ↦ as_text (lib.to_hex value)
    | bytes_encoding ↦ as_bytes value
    | json_encoding ↦ as_text (lib.to_hex value)
  ]

  -- `batch` makes a text of a value only if the encoding is `ValueEncoding.String`.
  abbrev pub to_disk_in_batch : lib.Bytes → DiskValue lib.Bytes
  to_disk_in_batch value = elim encoding [
    | string_encoding ↦ as_text (lib.to_hex value)
    | bytes_encoding ↦ as_bytes value
    | json_encoding ↦ as_bytes value
  ]

  abbrev pub of_disk : DiskValue lib.Bytes → Option lib.Bytes
  of_disk (as_bytes value) = some value
  of_disk (as_text text) = unprefixed_hex_to_bytes lib text

  abbrev pub to_disk_or_none : Option lib.Bytes → Option (DiskValue lib.Bytes)
  to_disk_or_none none = none
  to_disk_or_none (some value) = some (to_disk value)

  -- `this._cache?.set`
  abbrev pub cache_set : Text → Option lib.Bytes → Option lru.Entries → Option lru.Entries
  cache_set key value none = none
  cache_set key value (some entries) = some (lru.set entries key value)

  unfoldable pub set_checkpoints : List (Checkpoint lib.Bytes) → Db → Db
  set_checkpoints checkpoints db = record db { checkpoints = checkpoints }

  unfoldable pub has_checkpoints : Db → Bool
  has_checkpoints db = elim db.checkpoints [ [] ↦ false | c ∷ cs ↦ true ]

  unfoldable pub checkpoint : lib.Bytes → Db → Db
  checkpoint root db = record db {
    checkpoints = record { key_value_map = []; root = root } ∷ db.checkpoints;
  }

  unfoldable pub set_latest : Text → Option lib.Bytes → Checkpoint lib.Bytes → Checkpoint lib.Bytes
  set_latest key value c = record c {
    key_value_map = Maps.set Text-discrete key value c.key_value_map;
  }

  -- The loop of `get` over the checkpoints.
  unfoldable pub lookup : Text → List (Checkpoint lib.Bytes) → Option (Option lib.Bytes)
  lookup key [] = none
  lookup key (c ∷ cs) =
      let rest = lookup key cs in
      elim (Maps.get Text-discrete key c.key_value_map) [ none ↦ rest | some value ↦ some value ]

  -- The value from the disk goes into the cache and into the latest checkpoint.
  unfoldable pub keep_value : Text → Option lib.Bytes → Db → Db
  keep_value key value db = record db {
    cache = cache_set key value db.cache;
    checkpoints = elim db.checkpoints [ [] ↦ [] | c ∷ cs ↦ set_latest key value c ∷ cs ];
  }

  unfoldable pub get_from_disk : Text → Db → Option (Option lib.Bytes × Db)
  get_from_disk key db = elim (disk.get db.disk key) [
    | none ↦ some (none, keep_value key none db)
    | some stored ↦ of_disk stored >>= λ value. some (some value, keep_value key (some value) db)
  ]

  unfoldable pub get_past_cache : Text → Db → Option (Option lib.Bytes × Db)
  get_past_cache key db = elim (lookup key db.checkpoints) [
    | none ↦ get_from_disk key db
    | some value ↦ some (value, db)
  ]

  -- `none` is an error of the conversion.
  unfoldable pub get : lib.Bytes → Db → Option (Option lib.Bytes × Db)
  get key db = elim db.cache [
    | none ↦ get_past_cache (lib.to_hex key) db
    | some entries ↦
        let (value, used) = lru.get entries (lib.to_hex key) in
        elim value [
          | none ↦ get_past_cache (lib.to_hex key) (record db { cache = some used })
          | some v ↦ some (some v, record db { cache = some used })
        ]
  ]

  -- What `put` and `del` have in common; `del` has the value undefined.
  unfoldable pub write : Text → Option lib.Bytes → Db → Db
  write key value db = elim db.checkpoints [
    | [] ↦ record db {
      disk = disk.write db.disk key (to_disk_or_none value);
      cache = cache_set key value db.cache;
    }
    | c ∷ cs ↦ record db { checkpoints = set_latest key value c ∷ cs }
  ]

  unfoldable pub put : lib.Bytes → lib.Bytes → Db → Db
  put key value db = write (lib.to_hex key) (some value) db

  unfoldable pub del : lib.Bytes → Db → Db
  del key db = write (lib.to_hex key) none db

  -- `batch`: with checkpoints one operation after the other, else converted and given to the disk.
  unfoldable pub apply_ops : List (BatchOp lib.Bytes) → Db → Db
  apply_ops [] db = db
  apply_ops (put_op key value ∷ ops) db = apply_ops ops (put key value db)
  apply_ops (del_op key ∷ ops) db = apply_ops ops (del key db)

  unfoldable pub converted_op : BatchOp lib.Bytes → Text × Option (DiskValue lib.Bytes)
  converted_op (put_op key value) = (lib.to_hex key, some (to_disk_in_batch value))
  converted_op (del_op key) = (lib.to_hex key, none)

  unfoldable pub batch : List (BatchOp lib.Bytes) → Db → Db
  batch ops db = elim db.checkpoints [
    | [] ↦ record db { disk = disk.batch db.disk (map converted_op ops) }
    | c ∷ cs ↦ apply_ops ops db
  ]

  -- The operations that `commit` makes of the last map.
  unfoldable pub batch_ops : Map Text (Option lib.Bytes) → Option (List (BatchOp lib.Bytes))
  batch_ops [] = some []
  batch_ops ((key, value) ∷ m) = do
    bytes ← unprefixed_hex_to_bytes lib key
    ops ← batch_ops m
    some (elim value [ none ↦ del_op bytes | some v ↦ put_op bytes v ] ∷ ops)

  -- The loop of `commit` into the checkpoint below.
  unfoldable pub merge :
      Map Text (Option lib.Bytes) → Map Text (Option lib.Bytes) → Map Text (Option lib.Bytes)
  merge [] lower = lower
  merge ((key, value) ∷ m) lower = merge m (Maps.set Text-discrete key value lower)

  -- `none`: there is no checkpoint, or a conversion throws.
  unfoldable pub commit : Db → Option Db
  commit db = elim db.checkpoints [
    | [] ↦ none
    | c ∷ [] ↦
        batch_ops c.key_value_map >>= λ ops. some (batch ops (record db { checkpoints = [] }))
    | c ∷ lower ∷ cs ↦ some (record db {
      checkpoints = record lower { key_value_map = merge c.key_value_map lower.key_value_map } ∷ cs;
    })
  ]

  unfoldable pub revert : Db → Option (lib.Bytes × Db)
  revert db = elim db.checkpoints [
    | [] ↦ none
    | c ∷ cs ↦ some (c.root, record db { checkpoints = cs })
  ]

  unfoldable pub shallow_copy : Bool → lru.Entries → Db → Db
  shallow_copy cached no_entries db = record {
    disk = db.disk;
    checkpoints = [];
    cache = if cached then some no_entries else none;
  }
