-- ===== src/Trie/CheckpointDb/Views.antt =====
-- What a checkpointed database shows: the latest value of a key, down to the disk.
use simple_p2p_blockchain.Common.{
  List, [], ◌∷◌, map, Option, none, some, Text, Text-discrete, ◌≡◌, refl, sym, ap, ◌∙◌, arith,
  fun_ext, if◌then◌else◌, Bool-cases, inl, inr, subst, ◌⊎◌,
}
use simple_p2p_blockchain.Common.Maps
use simple_p2p_blockchain.Common.Maps.{
  Map, same, same→eq, same_refl, get-set, get-nil, DistinctKeys, set-DistinctKeys,
}
use simple_p2p_blockchain.Utils.Bytes.{HexLibrary, unprefixed_hex_to_bytes-to_hex}
use simple_p2p_blockchain.Trie.CheckpointDb.{
  Checkpoint, BatchOp, put_op, del_op, Disk, DiskValue, ValueEncoding, string_encoding,
  bytes_encoding, json_encoding, write_all, Lru, to_disk, to_disk_in_batch, of_disk,
  to_disk_or_none, converted_op, lookup, set_latest, batch_ops, merge,
}

abbrev pub View : Type 0 → Type 0
View B = Text → Option B

abbrev pub update : {B : Type 0} → Text → Option B → View B → View B
update key value f j = if same Text-discrete key j then value else f j

-- The checkpoints above a view.
abbrev pub shown : {B : Type 0} → List (Checkpoint B) → View B → View B
shown [] f k = f k
shown (c ∷ cs) f k = elim (Maps.get Text-discrete k c.key_value_map) [
  | none ↦ shown cs f k
  | some v ↦ v
]

module _ (lib : HexLibrary) (lru : Lru lib.Bytes) (disk : Disk (DiskValue lib.Bytes)) where
  -- A value is read back from the disk in every encoding.
  pub of_disk-to_disk :
      (encoding : ValueEncoding) (value : lib.Bytes)
      → of_disk lib lru disk encoding (to_disk lib lru disk encoding value) ≡ some value
  of_disk-to_disk string_encoding value = unprefixed_hex_to_bytes-to_hex lib value
  of_disk-to_disk bytes_encoding value = refl
  of_disk-to_disk json_encoding value = unprefixed_hex_to_bytes-to_hex lib value

  pub of_disk-to_disk_in_batch :
      (encoding : ValueEncoding) (value : lib.Bytes)
      → of_disk lib lru disk encoding (to_disk_in_batch lib lru disk encoding value) ≡ some value
  of_disk-to_disk_in_batch string_encoding value = unprefixed_hex_to_bytes-to_hex lib value
  of_disk-to_disk_in_batch bytes_encoding value = refl
  of_disk-to_disk_in_batch json_encoding value = refl

module _ (lib : HexLibrary) (lru : Lru lib.Bytes) (disk : Disk (DiskValue lib.Bytes))
    (encoding : ValueEncoding) where
  -- Each key once, and each the text of bytes.
  abbrev pub IsKeyed : Map Text (Option lib.Bytes) → Type 0
  IsKeyed [] = Unit
  IsKeyed ((k, v) ∷ m) = ((bytes : lib.Bytes) × (k ≡ lib.to_hex bytes)) × IsKeyed m

  abbrev pub IsMap : Map Text (Option lib.Bytes) → Type 0
  IsMap m = DistinctKeys Text-discrete m × IsKeyed m

  set-IsKeyed :
      (key : lib.Bytes) (k : Text) (v : Option lib.Bytes) (m : Map Text (Option lib.Bytes))
      → k ≡ lib.to_hex key
      → IsKeyed m
      → IsKeyed (Maps.set Text-discrete k v m)
  unfolding Maps.set
  set-IsKeyed key k v [] e h = ((key, e), tt)
  set-IsKeyed key k v ((j, w) ∷ m) e h = elim (Bool-cases (same Text-discrete j k)) [
    | inl hit ↦ rw hit h
    | inr miss ↦ rw miss (h.0, set-IsKeyed key k v m e h.1)
  ]

  pub set-IsMap :
      (key : lib.Bytes) (k : Text) (v : Option lib.Bytes) (m : Map Text (Option lib.Bytes))
      → k ≡ lib.to_hex key
      → IsMap m
      → IsMap (Maps.set Text-discrete k v m)
  set-IsMap key k v m e h = (set-DistinctKeys Text-discrete k v m h.0, set-IsKeyed key k v m e h.1)

  -- What stands on the disk for a value: what `put` makes of it or what `batch` does, which differ
  -- only for `ValueEncoding.JSON`.
  abbrev pub Stands : Option (DiskValue lib.Bytes) → Option lib.Bytes → Type 0
  Stands stored none = stored ≡ none
  Stands stored (some value) =
      (stored ≡ some (to_disk lib lru disk encoding value))
      ⊎ (stored ≡ some (to_disk_in_batch lib lru disk encoding value))

  abbrev pub Shows : disk.Store → View lib.Bytes → Type 0
  Shows s f = (k : Text) → Stands (disk.get s k) (f k)

  store-Shows :
      (s : disk.Store) (f : View lib.Bytes) (k : Text) (stored : Option (DiskValue lib.Bytes))
      (v : Option lib.Bytes)
      → Stands stored v
      → Shows s f
      → Shows (disk.write s k stored) (update k v f)
  store-Shows s f k stored v stands h j = elim (Bool-cases (same Text-discrete k j)) [
    | inl hit ↦
        subst (λ o. Stands o (update k v f j)) (sym (disk.get-write s k j stored)) (rw hit stands)
    | inr miss ↦
        subst (λ o. Stands o (update k v f j)) (sym (disk.get-write s k j stored)) (rw miss (h j))
  ]

  pub write-Shows :
      (s : disk.Store) (f : View lib.Bytes) (k : Text) (v : Option lib.Bytes)
      → Shows s f
      → Shows (disk.write s k (to_disk_or_none lib lru disk encoding v)) (update k v f)
  write-Shows s f k none h = store-Shows s f k none none refl h
  write-Shows s f k (some value) h = store-Shows s f k _ (some value) (inl refl) h

  -- A batch, on a view.
  abbrev pub update_all : List (BatchOp lib.Bytes) → View lib.Bytes → View lib.Bytes
  update_all [] f = f
  update_all (put_op key value ∷ ops) f = update_all ops (update (lib.to_hex key) (some value) f)
  update_all (del_op key ∷ ops) f = update_all ops (update (lib.to_hex key) none f)

  write_all-Shows :
      (ops : List (BatchOp lib.Bytes)) (s : disk.Store) (f : View lib.Bytes)
      → Shows s f
      → Shows
          (write_all disk.write s (map (converted_op lib lru disk encoding) ops))
          (update_all ops f)
  unfolding converted_op
  write_all-Shows [] s f h = h
  write_all-Shows (put_op key value ∷ ops) s f h =
      write_all-Shows ops _ _ (store-Shows s f (lib.to_hex key) _ (some value) (inr refl) h)
  write_all-Shows (del_op key ∷ ops) s f h =
      write_all-Shows ops _ _ (write-Shows s f (lib.to_hex key) none h)

  pub batch-Shows :
      (ops : List (BatchOp lib.Bytes)) (s : disk.Store) (f : View lib.Bytes)
      → Shows s f
      → Shows (disk.batch s (map (converted_op lib lru disk encoding) ops)) (update_all ops f)
  batch-Shows ops s f h j =
      subst (λ o. Stands o (update_all ops f j))
        (sym (disk.get-batch s (map (converted_op lib lru disk encoding) ops) j))
        (write_all-Shows ops s f h j)

  pub shown-set_latest :
      (k : Text) (v : Option lib.Bytes) (c : Checkpoint lib.Bytes)
      (cs : List (Checkpoint lib.Bytes)) (f : View lib.Bytes)
      → shown (set_latest lib lru disk encoding k v c ∷ cs) f ≡ update k v (shown (c ∷ cs) f)
  unfolding set_latest
  shown-set_latest k v c cs f =
      fun_ext (λ j. ground (arith, get-set Text-discrete k j v c.key_value_map))

  -- The map of the last checkpoint as a view of its own.
  abbrev pub overlay : Map Text (Option lib.Bytes) → View lib.Bytes → View lib.Bytes
  overlay m f k = elim (Maps.get Text-discrete k m) [ none ↦ f k | some v ↦ v ]

  overlay-entry :
      (k : Text) (v : Option lib.Bytes) (m : Map Text (Option lib.Bytes)) (f : View lib.Bytes)
      → Maps.get Text-discrete k m ≡ none
      → overlay m (update k v f) ≡ overlay ((k, v) ∷ m) f
  unfolding Maps.get
  overlay-entry k v m f miss = fun_ext (λ j. ground (arith, same→eq Text-discrete k j, miss))

  overlay-nil : (f : View lib.Bytes) → overlay [] f ≡ f
  unfolding Maps.get
  overlay-nil f = refl

  -- The operations of the last commit do to a view what the map shows.
  pub batch_ops_lem :
      (m : Map Text (Option lib.Bytes)) (f : View lib.Bytes)
      → IsMap m
      → (ops : List (BatchOp lib.Bytes)) × (batch_ops lib lru disk encoding m ≡ some ops)
        × (update_all ops f ≡ overlay m f)
  unfolding batch_ops
  batch_ops_lem [] f h = ([], refl, sym (overlay-nil f))
  batch_ops_lem ((k, none) ∷ m) f (distinct, ((bytes, e), keyed)) =
      let (ops, e', shows) = batch_ops_lem m (update k none f) (distinct.1, keyed) in
      (
        del_op bytes ∷ ops,
        ground (arith, e, unprefixed_hex_to_bytes-to_hex lib bytes, e'),
        ap (λ x. update_all ops (update x none f)) (sym e)
            ∙ shows
            ∙ overlay-entry k none m f distinct.0,
      )
  batch_ops_lem ((k, some v) ∷ m) f (distinct, ((bytes, e), keyed)) =
      let (ops, e', shows) = batch_ops_lem m (update k (some v) f) (distinct.1, keyed) in
      (
        put_op bytes v ∷ ops,
        ground (arith, e, unprefixed_hex_to_bytes-to_hex lib bytes, e'),
        ap (λ x. update_all ops (update x (some v) f)) (sym e)
            ∙ shows
            ∙ overlay-entry k (some v) m f distinct.0,
      )

  pub overlay-merge :
      (m lower : Map Text (Option lib.Bytes)) (f : View lib.Bytes)
      → DistinctKeys Text-discrete m
      → overlay (merge lib lru disk encoding m lower) f ≡ overlay m (overlay lower f)
  unfolding merge
  overlay-merge [] lower f h = sym (overlay-nil (overlay lower f))
  overlay-merge ((k, v) ∷ m) lower f h =
      overlay-merge m (Maps.set Text-discrete k v lower) f h.1
      ∙ ap (overlay m) (fun_ext (λ j. ground (arith, get-set Text-discrete k j v lower)))
      ∙ overlay-entry k v m (overlay lower f) h.0

  pub merge-IsMap :
      (m lower : Map Text (Option lib.Bytes))
      → IsMap m
      → IsMap lower
      → IsMap (merge lib lru disk encoding m lower)
  unfolding merge
  merge-IsMap [] lower h l = l
  merge-IsMap ((k, v) ∷ m) lower (distinct, ((bytes, e), keyed)) l =
      merge-IsMap m (Maps.set Text-discrete k v lower) (distinct.1, keyed)
        (set-IsMap bytes k v lower e l)

  -- The loop of `get`.
  pub lookup-shown :
      (k : Text) (cs : List (Checkpoint lib.Bytes)) (f : View lib.Bytes)
      → shown cs f k ≡ elim (lookup lib lru disk encoding k cs) as (λ x. Option lib.Bytes) [
        | none ↦ f k
        | some v ↦ v
      ]
  unfolding lookup
  lookup-shown k [] f = refl
  lookup-shown k (c ∷ cs) f = ground (arith, lookup-shown k cs f)
