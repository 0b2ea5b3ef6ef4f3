-- ===== src/Trie/CheckpointDb/Checkpointing.antt =====
-- The operations of a checkpointed database without a cache, which is the default, on what it shows.
use simple_p2p_blockchain.Common.{List, [], ◌∷◌, map, Option, none, some, ◌≡◌, refl, ap, ◌∙◌, subst}
use simple_p2p_blockchain.Common.Maps
use simple_p2p_blockchain.Common.Maps.{Map, same, same→eq}
use simple_p2p_blockchain.Utils.Bytes.{HexLibrary}
use simple_p2p_blockchain.Trie.CheckpointDb
use simple_p2p_blockchain.Trie.CheckpointDb.{
  Checkpoint, CheckpointDb, Db, BatchOp, put_op, del_op, Disk, DiskValue, ValueEncoding, Lru,
  to_disk, of_disk, to_disk_or_none, converted_op, lookup, keep_value, get_from_disk,
  get_past_cache, get, put, del, batch, apply_ops, set_latest, checkpoint, commit, revert,
}
use simple_p2p_blockchain.Trie.CheckpointDb.Views.{
  View, update, shown, IsMap, set-IsMap, Shows, write-Shows, update_all, batch-Shows,
  shown-set_latest, batch_ops_lem, overlay-merge, merge-IsMap,
}

module _ (lib : HexLibrary) (lru : Lru lib.Bytes) (disk : Disk (DiskValue lib.Bytes))
    (encoding : ValueEncoding) where
  -- The checkpoints lead back to the views before each of them.
  abbrev pub Leads : List (Checkpoint lib.Bytes) → View lib.Bytes → List (View lib.Bytes) → Type 0
  Leads [] f [] = Unit
  Leads [] f (u ∷ us) = ⊥
  Leads (c ∷ cs) f [] = ⊥
  Leads (c ∷ cs) f (u ∷ us) =
      (shown cs f ≡ u) × IsMap lib lru disk encoding c.key_value_map × Leads cs f us

  -- There is no cache, and the checkpoints on what the disk holds show the view.
  abbrev pub Tracks : Db lib lru disk encoding → View lib.Bytes → List (View lib.Bytes) → Type 0
  Tracks db v us =
      (f : View lib.Bytes) × (db.cache ≡ none)
      × Shows lib lru disk encoding db.disk f
      × (shown db.checkpoints f ≡ v)
      × Leads db.checkpoints f us

  abbrev pub db_of :
      disk.Store → List (Checkpoint lib.Bytes) → Option lru.Entries → Db lib lru disk encoding
  db_of s checkpoints cache = record { disk = s; checkpoints = checkpoints; cache = cache }

  -- `put` and `del`.
  pub write_law :
      (key : lib.Bytes) (value : Option lib.Bytes) (s : disk.Store)
      (cs : List (Checkpoint lib.Bytes)) (cache : Option lru.Entries) (v : View lib.Bytes)
      (us : List (View lib.Bytes))
      → Tracks (db_of s cs cache) v us
      → Tracks
          (CheckpointDb.write lib lru disk encoding (lib.to_hex key) value (db_of s cs cache))
          (update (lib.to_hex key) value v)
          us
  unfolding CheckpointDb.write set_latest
  write_law key value s [] cache v [] (f, no_cache, shows, e, leads) = (
    update (lib.to_hex key) value f,
    rw no_cache refl,
    write-Shows lib lru disk encoding s f (lib.to_hex key) value shows,
    ap (update (lib.to_hex key) value) e,
    tt,
  )
  write_law key value s [] cache v (u ∷ us) (f, no_cache, shows, e, leads) = absurd leads
  write_law key value s (c ∷ cs) cache v [] (f, no_cache, shows, e, leads) = absurd leads
  write_law key value s (c ∷ cs) cache v (u ∷ us) (f, no_cache, shows, e, (back, maps, leads)) = (
    f,
    no_cache,
    shows,
    shown-set_latest lib lru disk encoding (lib.to_hex key) value c cs f
        ∙ ap (update (lib.to_hex key) value) e,
    (
      back,
      set-IsMap lib lru disk encoding key (lib.to_hex key) value c.key_value_map refl maps,
      leads,
    ),
  )

  apply_ops_law :
      (ops : List (BatchOp lib.Bytes)) (db : Db lib lru disk encoding) (v : View lib.Bytes)
      (us : List (View lib.Bytes))
      → Tracks db v us
      → Tracks (apply_ops lib lru disk encoding ops db) (update_all lib lru disk encoding ops v) us
  unfolding apply_ops put del
  apply_ops_law [] db v us h = h
  apply_ops_law (put_op key value ∷ ops) db v us h =
      apply_ops_law ops _ _ us (write_law key (some value) db.disk db.checkpoints db.cache v us h)
  apply_ops_law (del_op key ∷ ops) db v us h =
      apply_ops_law ops _ _ us (write_law key none db.disk db.checkpoints db.cache v us h)

  pub batch_law :
      (ops : List (BatchOp lib.Bytes)) (s : disk.Store) (cs : List (Checkpoint lib.Bytes))
      (cache : Option lru.Entries) (v : View lib.Bytes) (us : List (View lib.Bytes))
      → Tracks (db_of s cs cache) v us
      → Tracks
          (batch lib lru disk encoding ops (db_of s cs cache))
          (update_all lib lru disk encoding ops v)
          us
  unfolding batch
  batch_law ops s [] cache v [] (f, no_cache, shows, e, leads) = (
    update_all lib lru disk encoding ops f,
    no_cache,
    batch-Shows lib lru disk encoding ops s f shows,
    ap (update_all lib lru disk encoding ops) e,
    tt,
  )
  batch_law ops s [] cache v (u ∷ us) (f, no_cache, shows, e, leads) = absurd leads
  batch_law ops s (c ∷ cs) cache v us h = apply_ops_law ops (db_of s (c ∷ cs) cache) v us h

  pub checkpoint_law :
      (root : lib.Bytes) (db : Db lib lru disk encoding) (v : View lib.Bytes)
      (us : List (View lib.Bytes))
      → Tracks db v us
      → Tracks (checkpoint lib lru disk encoding root db) v (v ∷ us)
  unfolding checkpoint Maps.get
  checkpoint_law root db v us (f, no_cache, shows, e, leads) =
      (f, no_cache, shows, e, (e, (tt, tt), leads))

  -- `revert` returns the root that the checkpoint was given.
  pub revert_law :
      (s : disk.Store) (cs : List (Checkpoint lib.Bytes)) (cache : Option lru.Entries)
      (v u : View lib.Bytes) (us : List (View lib.Bytes))
      → Tracks (db_of s cs cache) v (u ∷ us)
      → (root : lib.Bytes) × (t : Db lib lru disk encoding) × (revert lib lru disk encoding
            (db_of s cs cache)
          ≡ some (root, t))
        × Tracks t u us
  unfolding revert
  revert_law s [] cache v u us (f, no_cache, shows, e, leads) = absurd leads
  revert_law s (c ∷ cs) cache v u us (f, no_cache, shows, e, (back, maps, leads)) =
      (c.root, db_of s cs cache, refl, (f, no_cache, shows, back, leads))

  -- The last `commit` writes to the disk what the map showed.
  last_commit :
      (s : disk.Store) (c : Checkpoint lib.Bytes) (cache : Option lru.Entries) (f : View lib.Bytes)
      → IsMap lib lru disk encoding c.key_value_map
      → Shows lib lru disk encoding s f
      → (s' : disk.Store) × (commit lib lru disk encoding (db_of s (c ∷ []) cache)
          ≡ some (db_of s' [] cache))
        × Shows lib lru disk encoding s' (shown (c ∷ []) f)
  unfolding commit batch
  last_commit s c cache f maps shows =
      let (ops, e, does) = batch_ops_lem lib lru disk encoding c.key_value_map f maps in
      (
        disk.batch s (map (converted_op lib lru disk encoding) ops),
        rw e refl,
        subst (Shows lib lru disk encoding _) does
            (batch-Shows lib lru disk encoding ops s f shows),
      )

  pub commit_law :
      (s : disk.Store) (cs : List (Checkpoint lib.Bytes)) (cache : Option lru.Entries)
      (v u : View lib.Bytes) (us : List (View lib.Bytes))
      → Tracks (db_of s cs cache) v (u ∷ us)
      → (t : Db lib lru disk encoding) × (commit lib lru disk encoding (db_of s cs cache) ≡ some t)
        × Tracks t v us
  unfolding commit
  commit_law s [] cache v u us (f, no_cache, shows, e, leads) = absurd leads
  commit_law s (c ∷ []) cache v u [] (f, no_cache, shows, e, (back, maps, leads)) =
      let (s', done, shows') = last_commit s c cache f maps shows in
      (db_of s' [] cache, done, (shown (c ∷ []) f, no_cache, shows', e, tt))
  commit_law s (c ∷ []) cache v u (w ∷ us) (f, no_cache, shows, e, (back, maps, leads)) =
      absurd leads
  commit_law s (c ∷ lower ∷ cs) cache v u [] (f, no_cache, shows, e, (back, maps, leads)) =
      absurd leads
  commit_law s (c ∷ lower ∷ cs) cache v u (w ∷ us)
        (f, no_cache, shows, e, (back, maps, (back', maps', leads))) =
      (
        _,
        refl,
        (
          f,
          no_cache,
          shows,
          overlay-merge lib lru disk encoding c.key_value_map lower.key_value_map (shown cs f)
                maps.0
              ∙ e,
          (
            back',
            merge-IsMap lib lru disk encoding c.key_value_map lower.key_value_map maps maps',
            leads,
          ),
        ),
      )
