-- ===== src/Trie/CheckpointDb/Reads.antt =====
-- Reads of a checkpointed database without a cache: what they return, and what they keep.
use simple_p2p_blockchain.Common.{
  List, [], ◌∷◌, Option, none, some, Text, Text-discrete, ◌≡◌, refl, ap, ◌∙◌, arith, fun_ext,
  Option-cases, inl, inr, ◌⊎◌, subst,
}
use simple_p2p_blockchain.Common.Maps.{same→eq}
use simple_p2p_blockchain.Utils.Bytes.{HexLibrary}
use simple_p2p_blockchain.Trie.CheckpointDb.{
  Checkpoint, Db, Disk, DiskValue, ValueEncoding, Lru, lookup, keep_value, get_from_disk,
  get_past_cache, get, set_latest,
}
use simple_p2p_blockchain.Trie.CheckpointDb.Views.{
  View, update, shown, set-IsMap, of_disk-to_disk, of_disk-to_disk_in_batch, Stands, Shows,
  shown-set_latest, lookup-shown,
}
use simple_p2p_blockchain.Trie.CheckpointDb.Checkpointing.{Tracks, db_of}

module _ (lib : HexLibrary) (lru : Lru lib.Bytes) (disk : Disk (DiskValue lib.Bytes))
    (encoding : ValueEncoding) where
  -- A value read from the disk is kept, and changes nothing of what is shown.
  keep_law :
      (key : lib.Bytes) (s : disk.Store) (cs : List (Checkpoint lib.Bytes))
      (cache : Option lru.Entries) (v : View lib.Bytes) (us : List (View lib.Bytes))
      → Tracks lib lru disk encoding (db_of lib lru disk encoding s cs cache) v us
      → Tracks lib lru disk encoding
          (keep_value lib lru disk encoding
            (lib.to_hex key)
            (v (lib.to_hex key))
            (db_of lib lru disk encoding s cs cache))
          v
          us
  unfolding keep_value set_latest
  keep_law key s [] cache v [] (f, no_cache, shows, e, leads) = (f, rw no_cache refl, shows, e, tt)
  keep_law key s [] cache v (u ∷ us) (f, no_cache, shows, e, leads) = absurd leads
  keep_law key s (c ∷ cs) cache v [] (f, no_cache, shows, e, leads) = absurd leads
  keep_law key s (c ∷ cs) cache v (u ∷ us) (f, no_cache, shows, e, (back, maps, leads)) = (
    f,
    rw no_cache refl,
    shows,
    shown-set_latest lib lru disk encoding (lib.to_hex key) (v (lib.to_hex key)) c cs f
        ∙ ap (update (lib.to_hex key) (v (lib.to_hex key))) e
        ∙ fun_ext (λ j. update_same (lib.to_hex key) v j),
    (
      back,
      set-IsMap lib lru disk encoding key (lib.to_hex key) (v (lib.to_hex key)) c.key_value_map refl
          maps,
      leads,
    ),
  )
    where
      update_same : (k : Text) (g : View lib.Bytes) (j : Text) → update k (g k) g j ≡ g j
      update_same k g j = ground (arith, same→eq Text-discrete k j)

  get_at :
      (key : lib.Bytes) (db : Db lib lru disk encoding)
      → db.cache ≡ none
      → get lib lru disk encoding key db ≡ get_past_cache lib lru disk encoding (lib.to_hex key) db
  unfolding get
  get_at key db e = ground (arith, e)

  get_past-cases :
      (k : Text) (db : Db lib lru disk encoding) (f : View lib.Bytes)
      → Shows lib lru disk encoding db.disk f
      → (get_past_cache lib lru disk encoding k db ≡ some (shown db.checkpoints f k, db))
        ⊎ (get_past_cache lib lru disk encoding k db
            ≡ some (
              shown db.checkpoints f k,
              keep_value lib lru disk encoding k (shown db.checkpoints f k) db,
            ))
  unfolding get_past_cache get_from_disk
  get_past-cases k db f shows =
      elim (Option-cases (lookup lib lru disk encoding k db.checkpoints)) [
        | inr (x, hit) ↦
            inl (ground (arith, hit, lookup-shown lib lru disk encoding k db.checkpoints f))
        | inl miss ↦
            let below : shown db.checkpoints f k ≡ f k =
              ground (arith, miss, lookup-shown lib lru disk encoding k db.checkpoints f) in
            elim (Option-cases (f k)) [
              | inl nothing ↦
                  let stored =
                    subst (Stands lib lru disk encoding (disk.get db.disk k)) nothing (shows k) in
                  inr (ground (arith, miss, below, stored, nothing))
              | inr (x, here) ↦
                  elim (subst (Stands lib lru disk encoding (disk.get db.disk k)) here (shows k)) [
                    | inl as_put ↦ inr (
                        ground (
                          arith,
                          miss,
                          below,
                          as_put,
                          here,
                          of_disk-to_disk lib lru disk encoding x,
                        ))
                    | inr in_batch ↦ inr (
                        ground (
                          arith,
                          miss,
                          below,
                          in_batch,
                          here,
                          of_disk-to_disk_in_batch lib lru disk encoding x,
                        ))
                  ]
            ]
      ]

  -- `get` returns what is shown, and changes nothing of it.
  pub get_law :
      (key : lib.Bytes) (db : Db lib lru disk encoding) (v : View lib.Bytes)
      (us : List (View lib.Bytes))
      → Tracks lib lru disk encoding db v us
      → (t : Db lib lru disk encoding) × (get lib lru disk encoding key db
          ≡ some (v (lib.to_hex key), t))
        × Tracks lib lru disk encoding t v us
  get_law key db v us (f, no_cache, shows, e, leads) =
      let kept = keep_law key db.disk db.checkpoints db.cache v us (f, no_cache, shows, e, leads) in
      elim (get_past-cases (lib.to_hex key) db f shows) [
        | inl as_is ↦ (
          db,
          get_at key db no_cache
              ∙ subst
                  (λ g.
                    get_past_cache lib lru disk encoding (lib.to_hex key) db
                    ≡ some (g (lib.to_hex key), db))
                  e as_is,
          (f, no_cache, shows, e, leads),
        )
        | inr read ↦ (
          keep_value lib lru disk encoding (lib.to_hex key) (v (lib.to_hex key)) db,
          get_at key db no_cache
              ∙ subst
                  (λ g.
                    get_past_cache lib lru disk encoding (lib.to_hex key) db
                    ≡ some (
                      g (lib.to_hex key),
                      keep_value lib lru disk encoding (lib.to_hex key) (g (lib.to_hex key)) db,
                    ))
                  e read,
          kept,
        )
      ]

  keep_at_rest :
      (k : Text) (x : Option lib.Bytes) (s : disk.Store)
      → keep_value lib lru disk encoding k x (db_of lib lru disk encoding s [] none)
        ≡ db_of lib lru disk encoding s [] none
  unfolding keep_value
  keep_at_rest k x s = refl

  -- Without checkpoints the disk holds what is shown, and a read changes nothing.
  pub at_rest :
      (s : disk.Store) (cs : List (Checkpoint lib.Bytes)) (cache : Option lru.Entries)
      (v : View lib.Bytes)
      → Tracks lib lru disk encoding (db_of lib lru disk encoding s cs cache) v []
      → (cs ≡ [])
        × Shows lib lru disk encoding s v
        × ((key : lib.Bytes)
            → get lib lru disk encoding key (db_of lib lru disk encoding s cs cache)
              ≡ some (v (lib.to_hex key), db_of lib lru disk encoding s cs cache))
  at_rest s (c ∷ cs) cache v (f, no_cache, shows, e, leads) = absurd leads
  at_rest s [] (some entries) v (f, no_cache, shows, e, leads) = absurd (ground (arith, no_cache))
  at_rest s [] none v (f, no_cache, shows, e, leads) = (
    refl,
    subst (Shows lib lru disk encoding s) e shows,
    λ key.
        get_at key (db_of lib lru disk encoding s [] none) refl
        ∙ elim (get_past-cases (lib.to_hex key) (db_of lib lru disk encoding s [] none) f shows) [
          | inl as_is ↦
              as_is ∙ ap (λ g. some (g (lib.to_hex key), db_of lib lru disk encoding s [] none)) e
          | inr read ↦
              read
              ∙ ap (λ d. some (f (lib.to_hex key), d))
                  (keep_at_rest (lib.to_hex key) (f (lib.to_hex key)) s)
              ∙ ap (λ g. some (g (lib.to_hex key), db_of lib lru disk encoding s [] none)) e
        ],
  )
