-- ===== src/Trie/CheckpointDb/Cached.antt =====
-- What a cache hides: the values written under a checkpoint, also once they are committed.
use simple_p2p_blockchain.Common.{
  Text-discrete, Option, some, none, [], ◌∷◌, ◌≡◌, arith, refl, subst,
}
use simple_p2p_blockchain.Common.Maps
use simple_p2p_blockchain.Common.Maps.{same_refl}
use simple_p2p_blockchain.Utils.Bytes.{HexLibrary, unprefixed_hex_to_bytes-to_hex}
use simple_p2p_blockchain.Trie.CheckpointDb
use simple_p2p_blockchain.Trie.CheckpointDb.{
  Db, Disk, DiskValue, ValueEncoding, Lru, get, put, checkpoint, commit, to_disk_in_batch,
}
use simple_p2p_blockchain.Trie.CheckpointDb.Views.{of_disk-to_disk_in_batch}

module _ (lib : HexLibrary) (lru : Lru lib.Bytes) (disk : Disk (DiskValue lib.Bytes))
    (encoding : ValueEncoding) where
  abbrev pub without_cache : Db lib lru disk encoding → Db lib lru disk encoding
  without_cache db = record db { cache = none }

  abbrev pub with_cache : lru.Entries → Db lib lru disk encoding → Db lib lru disk encoding
  with_cache entries db = record db { cache = some entries }

  -- A value put under the first checkpoint.
  abbrev pub put_under :
      lib.Bytes → lib.Bytes → lib.Bytes → disk.Store → Option lru.Entries → Db lib lru disk encoding
  put_under root key value s cache =
      put lib lru disk encoding key value (
        checkpoint lib lru disk encoding root
          (record { disk = s; checkpoints = []; cache = cache }))

  get_committed :
      (key value : lib.Bytes) (s : disk.Store)
      → disk.get s (lib.to_hex key) ≡ some (to_disk_in_batch lib lru disk encoding value)
      → get lib lru disk encoding key (record { disk = s; checkpoints = []; cache = none })
        ≡ some (some value, record { disk = s; checkpoints = []; cache = none })
  unfolding get CheckpointDb.get_past_cache CheckpointDb.lookup CheckpointDb.get_from_disk
      CheckpointDb.keep_value
  get_committed key value s stored =
      ground (arith, stored, of_disk-to_disk_in_batch lib lru disk encoding value)

  get_checkpointed :
      (key value root : lib.Bytes) (s : disk.Store)
      → get lib lru disk encoding key (put_under root key value s none)
        ≡ some (some value, put_under root key value s none)
  unfolding get put checkpoint CheckpointDb.write CheckpointDb.set_latest
      CheckpointDb.get_past_cache CheckpointDb.lookup Maps.set Maps.get
  get_checkpointed key value root s = ground (arith, same_refl Text-discrete (lib.to_hex key))

  commit_under :
      (key value root : lib.Bytes) (s : disk.Store) (cache : Option lru.Entries)
      → commit lib lru disk encoding (put_under root key value s cache)
        ≡ some (record {
          disk =
              disk.batch s
                ((lib.to_hex key, some (to_disk_in_batch lib lru disk encoding value)) ∷ []);
          checkpoints = [];
          cache = cache;
        })
  unfolding put checkpoint CheckpointDb.write CheckpointDb.set_latest commit CheckpointDb.batch_ops
      CheckpointDb.batch CheckpointDb.converted_op Maps.set
  commit_under key value root s cache = ground (arith, unprefixed_hex_to_bytes-to_hex lib key)

  batch_one :
      (s : disk.Store) (key : lib.Bytes) (v : Option (DiskValue lib.Bytes))
      → disk.get (disk.batch s ((lib.to_hex key, v) ∷ [])) (lib.to_hex key) ≡ v
  batch_one s key v = ground (
    arith,
    disk.get-batch s ((lib.to_hex key, v) ∷ []) (lib.to_hex key),
    disk.get-write s (lib.to_hex key) (lib.to_hex key) v,
    same_refl Text-discrete (lib.to_hex key),
  )

  get_hit :
      (key old : lib.Bytes) (entries used : lru.Entries) (db : Db lib lru disk encoding)
      → lru.get entries (lib.to_hex key) ≡ (some old, used)
      → get lib lru disk encoding key (with_cache entries db) ≡ some (some old, with_cache used db)
  unfolding get
  get_hit key old entries used db hit = ground (arith, hit)

  put_under-cache :
      (root key value : lib.Bytes) (s : disk.Store) (entries : lru.Entries)
      → (put_under root key value s (some entries)
          ≡ with_cache entries (put_under root key value s none))
        × (put_under root key value s none
            ≡ without_cache (put_under root key value s (some entries)))
  unfolding put checkpoint CheckpointDb.write
  put_under-cache root key value s entries = (refl, refl)

  -- Where a value is put under a first checkpoint and the cache holds a value of the key, `get`
  -- returns the cached one, before the checkpoint is committed and also after; the commit throws
  -- nothing. With the cache taken away, `get` returns the value that was put, before and after.
  pub get-put-cached :
      (root key value old : lib.Bytes) (s : disk.Store) (entries used : lru.Entries)
      → lru.get entries (lib.to_hex key) ≡ (some old, used)
      → (get lib lru disk encoding key (put_under root key value s (some entries))
          ≡ some (some old, with_cache used (put_under root key value s (some entries))))
        × (get lib lru disk encoding key (without_cache (put_under root key value s (some entries)))
            ≡ some (some value, without_cache (put_under root key value s (some entries))))
        × (t : Db lib lru disk encoding) × (commit lib lru disk encoding
              (put_under root key value s (some entries))
            ≡ some t)
        × (get lib lru disk encoding key t ≡ some (some old, with_cache used t))
        × (get lib lru disk encoding key (without_cache t) ≡ some (some value, without_cache t))
  get-put-cached root key value old s entries used hit =
      let (hidden, bare) = put_under-cache root key value s entries in
      let s' =
        disk.batch s ((lib.to_hex key, some (to_disk_in_batch lib lru disk encoding value)) ∷ []) in
      (
        rw hidden (get_hit key old entries used (put_under root key value s none) hit),
        subst (λ d. get lib lru disk encoding key d ≡ some (some value, d)) bare
            (get_checkpointed key value root s),
        record { disk = s'; checkpoints = []; cache = some entries },
        commit_under key value root s (some entries),
        get_hit key old entries used (record { disk = s'; checkpoints = []; cache = none }) hit,
        get_committed key value s' (batch_one s key _),
      )
