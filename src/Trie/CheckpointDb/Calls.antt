-- ===== src/Trie/CheckpointDb/Calls.antt =====
-- Whole transactions on a checkpointed database.
use simple_p2p_blockchain.Common.{List, [], ◌∷◌, Option, none, some, ◌≡◌, refl}
use simple_p2p_blockchain.Checkpoints.{Checkpointed, Script, run, spec, run_lem, ◌>>=◌}
use simple_p2p_blockchain.Utils.Bytes.{HexLibrary}
use simple_p2p_blockchain.Trie.CheckpointDb.{
  Db, BatchOp, Disk, DiskValue, ValueEncoding, Lru, get, put, del, batch, checkpoint, commit,
  revert,
}
use simple_p2p_blockchain.Trie.CheckpointDb.Views.{View, update, Shows, update_all}
use simple_p2p_blockchain.Trie.CheckpointDb.Checkpointing.{
  Tracks, write_law, batch_law, checkpoint_law, commit_law, revert_law,
}
use simple_p2p_blockchain.Trie.CheckpointDb.Reads.{get_law, at_rest}

-- The operations, reads included.
pub data DbCall (B : Type 0) : Type 0 where
  put_value : B → B → DbCall B
  delete_value : B → DbCall B
  get_value : B → DbCall B
  batch_values : List (BatchOp B) → DbCall B

-- Each checkpoint is given the root.
module _ (lib : HexLibrary) (lru : Lru lib.Bytes) (disk : Disk (DiskValue lib.Bytes))
    (encoding : ValueEncoding) (root : lib.Bytes) where
  unfoldable pub write :
      DbCall lib.Bytes → Db lib lru disk encoding → Option (Db lib lru disk encoding)
  write (put_value key value) db = some (put lib lru disk encoding key value db)
  write (delete_value key) db = some (del lib lru disk encoding key db)
  write (get_value key) db = get lib lru disk encoding key db >>= λ r. some r.1
  write (batch_values ops) db = some (batch lib lru disk encoding ops db)

  unfoldable pub revert_db : Db lib lru disk encoding → Option (Db lib lru disk encoding)
  revert_db db = revert lib lru disk encoding db >>= λ r. some r.1

  unfoldable pub apply : DbCall lib.Bytes → View lib.Bytes → View lib.Bytes
  apply (put_value key value) f = update (lib.to_hex key) (some value) f
  apply (delete_value key) f = update (lib.to_hex key) none f
  apply (get_value key) f = f
  apply (batch_values ops) f = update_all lib lru disk encoding ops f

  pub call_law :
      (w : DbCall lib.Bytes) (db : Db lib lru disk encoding) (v : View lib.Bytes)
      (us : List (View lib.Bytes))
      → Tracks lib lru disk encoding db v us
      → (t : Db lib lru disk encoding) × (write w db ≡ some t)
        × Tracks lib lru disk encoding t (apply w v) us
  unfolding write apply put del
  call_law (put_value key value) db v us h = (
    _,
    refl,
    write_law lib lru disk encoding key (some value) db.disk db.checkpoints db.cache v us h,
  )
  call_law (delete_value key) db v us h =
      (_, refl, write_law lib lru disk encoding key none db.disk db.checkpoints db.cache v us h)
  call_law (get_value key) db v us h =
      let (t, e, k) = get_law lib lru disk encoding key db v us h in (t, rw e refl, k)
  call_law (batch_values ops) db v us h =
      (_, refl, batch_law lib lru disk encoding ops db.disk db.checkpoints db.cache v us h)

  pub revert_db-law :
      (db : Db lib lru disk encoding) (v u : View lib.Bytes) (us : List (View lib.Bytes))
      → Tracks lib lru disk encoding db v (u ∷ us)
      → (t : Db lib lru disk encoding) × (revert_db db ≡ some t)
        × Tracks lib lru disk encoding t u us
  unfolding revert_db
  revert_db-law db v u us h =
      let (r, t, e, k) =
        revert_law lib lru disk encoding db.disk db.checkpoints db.cache v u us h in
      (t, rw e refl, k)

  unfoldable pub db_checkpointed :
      Checkpointed (Db lib lru disk encoding) (View lib.Bytes) (DbCall lib.Bytes)
  db_checkpointed = record {
    write = write;
    checkpoint = checkpoint lib lru disk encoding root;
    commit = commit lib lru disk encoding;
    revert = revert_db;
    apply = apply;
    Tracks = Tracks lib lru disk encoding;
    write_law = call_law;
    checkpoint_law = λ db v us h. checkpoint_law lib lru disk encoding root db v us h;
    commit_law =
        λ db v u us h. commit_law lib lru disk encoding db.disk db.checkpoints db.cache v u us h;
    revert_law = revert_db-law;
  }

  -- Where the disk holds the values of a function from keys, as `put` or `batch` write them, a
  -- script of `put`, `del`, `batch` and `get` and of nested calls, each of which ends by `commit`
  -- or by `revert`, run without a cache throws nothing; no checkpoint is left, the disk holds the
  -- values that the same operations make of the function, in which a reverted call has changed
  -- nothing, and `get` returns these and changes nothing.
  pub db_calls_lem :
      (script : Script (DbCall lib.Bytes)) (s : disk.Store) (f : View lib.Bytes)
      → Shows lib lru disk encoding s f
      → (t : Db lib lru disk encoding) × (run db_checkpointed script
            (record { disk = s; checkpoints = []; cache = none })
          ≡ some t)
        × (t.checkpoints ≡ [])
        × Shows lib lru disk encoding t.disk (spec db_checkpointed script f)
        × ((key : lib.Bytes)
            → get lib lru disk encoding key t
              ≡ some (spec db_checkpointed script f (lib.to_hex key), t))
  unfolding db_checkpointed
  db_calls_lem script s f h =
      let (t, e, k) =
        run_lem db_checkpointed script (record { disk = s; checkpoints = []; cache = none }) f []
          (f, refl, h, refl, tt) in
      let (no_checkpoints, shows, reads) =
        at_rest lib lru disk encoding t.disk t.checkpoints t.cache (spec db_checkpointed script f)
          k in
      (t, e, no_checkpoints, shows, reads)
