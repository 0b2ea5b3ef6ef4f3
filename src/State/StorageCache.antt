-- ===== src/State/StorageCache.antt =====
-- packages/state-manager/src/cache/storage.ts.
pub mod Views
pub mod Slots
pub mod Checkpointing
pub mod Calls
use simple_p2p_blockchain.Common.{ℕ, List, [], ◌∷◌, ◌++◌, Option, none, some, Text, Text-discrete}
use simple_p2p_blockchain.Common.Maps
use simple_p2p_blockchain.Checkpoints.{◌>>=◌}
use simple_p2p_blockchain.State.{CacheStore}

-- `StorageCacheMap` and `DiffStorageCacheMap`, and one map of `_diffCache`.
abbrev pub StorageMap : Type 0
StorageMap = Maps.Map Text (List ℕ)

abbrev pub DiffStorageMap : Type 0
DiffStorageMap = Maps.Map Text (Option (List ℕ))

abbrev pub DiffMap : Type 0
DiffMap = Maps.Map Text DiffStorageMap

-- The ordered map, and `_diffCache` with the latest map first; `_checkpoints` is one less than their number.
pub record StorageCache (M : Type 0) : Type 0 where
  pub elements : M
  pub diffs : List DiffMap

-- `?? new Map()`
abbrev pub or_new {ℓ} : {A : Type ℓ} → Option (List A) → List A
or_new none = []
or_new (some m) = m

-- `hexToBytes('0x80')`, the RLP encoding of nothing.
abbrev pub empty_value : List ℕ
empty_value = 0x80 ∷ []

module _ (store : CacheStore StorageMap) where
  abbrev pub Cache : Type 0
  Cache = StorageCache store.Map

  unfoldable pub new_cache : Cache
  new_cache = record { elements = store.empty; diffs = [] ∷ [] }

  unfoldable pub get_in : store.Map → Text → Text → Option (List ℕ)
  get_in elements address key = elim (store.get elements address) [
    | none ↦ none
    | some m ↦ Maps.get Text-discrete key m
  ]

  unfoldable pub get : Text → Text → Cache → Option (List ℕ)
  get address key c = get_in c.elements address key

  -- `_saveCachePreState` in one map; where the key is there, setting the same map again changes nothing.
  unfoldable pub save_in : Text → Text → store.Map → DiffMap → DiffMap
  save_in address key elements diff =
      let slots = or_new (Maps.get Text-discrete address diff) in
      elim (Maps.get Text-discrete key slots) [
        | none ↦
            Maps.set Text-discrete address
              (Maps.set Text-discrete key (get_in elements address key) slots) diff
        | some old ↦ diff
      ]

  unfoldable pub save_cache_pre_state : Text → Text → Cache → Option Cache
  save_cache_pre_state address key c = elim c.diffs [
    | [] ↦ none
    | diff ∷ diffs ↦ some (record c { diffs = save_in address key c.elements diff ∷ diffs })
  ]

  unfoldable pub set_slot : Text → Text → List ℕ → store.Map → store.Map
  set_slot address key value elements =
      store.set elements address
        (Maps.set Text-discrete key value (or_new (store.get elements address)))

  unfoldable pub put : Text → Text → List ℕ → Cache → Option Cache
  put address key value c = do
    d ← save_cache_pre_state address key c
    some (record d { elements = set_slot address key value d.elements })

  unfoldable pub del : Text → Text → Cache → Option Cache
  del address key c = do
    d ← save_cache_pre_state address key c
    some (record d { elements = set_slot address key empty_value d.elements })

  -- The differences do not record it, as in the source.
  unfoldable pub clear_storage : Text → Cache → Cache
  clear_storage address c = record c { elements = store.set c.elements address [] }

  -- The inner loop of `flush`.
  unfoldable pub flush_slots :
      Text → StorageMap → DiffStorageMap → List (Text × Text × Option (List ℕ))
  flush_slots address storage [] = []
  flush_slots address storage ((key, old) ∷ slots) =
      (address, key, Maps.get Text-discrete key storage) ∷ flush_slots address storage slots

  -- `none` is the internal error.
  unfoldable pub flush_items : DiffMap → store.Map → Option (List (Text × Text × Option (List ℕ)))
  flush_items [] elements = some []
  flush_items ((address, slots) ∷ diff) elements =
      let rest = flush_items diff elements in
      elim (store.get elements address) [
        | none ↦ none
        | some storage ↦ rest >>= λ items. some (flush_slots address storage slots ++ items)
      ]

  unfoldable pub flush : Cache → Option (List (Text × Text × Option (List ℕ)) × Cache)
  flush c = elim c.diffs [
    | [] ↦ none
    | diff ∷ diffs ↦
        flush_items diff c.elements >>= λ items. some (items, record c { diffs = [] ∷ diffs })
  ]

  -- One round of the inner loop of `revert`.
  unfoldable pub restore : Text → Text → Option (List ℕ) → store.Map → store.Map
  restore address key none elements =
      store.set elements address
        (Maps.delete Text-discrete key (or_new (store.get elements address)))
  restore address key (some value) elements = set_slot address key value elements

  unfoldable pub restore_slots : Text → DiffStorageMap → store.Map → store.Map
  restore_slots address [] elements = elements
  restore_slots address ((key, old) ∷ slots) elements =
      restore_slots address slots (restore address key old elements)

  unfoldable pub restore_all : DiffMap → store.Map → store.Map
  restore_all [] elements = elements
  restore_all ((address, slots) ∷ diff) elements =
      restore_all diff (restore_slots address slots elements)

  unfoldable pub revert : Cache → Option Cache
  revert c = elim c.diffs [
    | [] ↦ none
    | diff ∷ diffs ↦ some (record { elements = restore_all diff c.elements; diffs = diffs })
  ]

  -- The loops of `commit`: an older value stays.
  unfoldable pub merge : DiffMap → DiffMap → DiffMap
  merge [] lower = lower
  merge ((address, slots) ∷ diff) lower = merge diff (
      Maps.set Text-discrete address
        (Maps.merge_absent Text-discrete slots (or_new (Maps.get Text-discrete address lower)))
        lower)

  -- Without a checkpoint there is no lower map, and the first entry throws.
  unfoldable pub commit : Cache → Option Cache
  commit c = elim c.diffs [
    | [] ↦ none
    | [] ∷ [] ↦ some (record c { diffs = [] })
    | (entry ∷ diff) ∷ [] ↦ none
    | diff ∷ lower ∷ diffs ↦ some (record c { diffs = merge diff lower ∷ diffs })
  ]

  unfoldable pub checkpoint : Cache → Cache
  checkpoint c = record c { diffs = [] ∷ c.diffs }

  unfoldable pub clear : Cache → Cache
  clear c = record c { elements = store.empty }
