-- ===== src/State/ElementCache.antt =====
-- packages/state-manager/src/cache/account.ts, and code.ts, whose class differs in the elements only.
pub mod Views
use simple_p2p_blockchain.Common.{ℕ, List, [], ◌∷◌, ◌++◌, Option, none, some, Text, Text-discrete}
use simple_p2p_blockchain.Common.Maps
use simple_p2p_blockchain.Checkpoints.{◌>>=◌}
use simple_p2p_blockchain.State.{CacheStore}

-- One map of `_diffCache`: for each key the element before the first change, undefined if there was none.
abbrev pub DiffMap : Type 0 → Type 0
DiffMap E = Maps.Map Text (Option E)

-- The ordered map, and `_diffCache` with the latest map first. `_checkpoints` is one less than the number
-- of these maps, in the constructor and after each operation.
pub record ElementCache (M E : Type 0) : Type 0 where
  pub elements : M
  pub diffs : List (DiffMap E)

module _ {E : Type 0} (store : CacheStore E) where
  abbrev pub Cache : Type 0
  Cache = ElementCache store.Map E

  unfoldable pub new_cache : Cache
  new_cache = record { elements = store.empty; diffs = [] ∷ [] }

  -- `_saveCachePreState` in one map.
  unfoldable pub save_in : Text → store.Map → DiffMap E → DiffMap E
  save_in key elements diff = Maps.set_absent Text-discrete key (store.get elements key) diff

  unfoldable pub save_cache_pre_state : Text → Cache → Option Cache
  save_cache_pre_state key c = elim c.diffs [
    | [] ↦ none
    | diff ∷ diffs ↦ some (record c { diffs = save_in key c.elements diff ∷ diffs })
  ]

  -- What `put` and `del` have in common: the pre-state is saved, and the element replaced.
  unfoldable pub set_element : Text → E → Cache → Option Cache
  set_element key element c = do
    d ← save_cache_pre_state key c
    some (record d { elements = store.set d.elements key element })

  unfoldable pub get : Text → Cache → Option E
  get key c = store.get c.elements key

  -- The loop of `flush`.
  unfoldable pub flush_items : DiffMap E → store.Map → List (Text × E)
  flush_items [] elements = []
  flush_items ((key, old) ∷ diff) elements =
      let rest = flush_items diff elements in
      elim (store.get elements key) [ none ↦ rest | some element ↦ (key, element) ∷ rest ]

  unfoldable pub flush : Cache → Option (List (Text × E) × Cache)
  flush c = elim c.diffs [
    | [] ↦ none
    | diff ∷ diffs ↦ some (flush_items diff c.elements, record c { diffs = [] ∷ diffs })
  ]

  -- One round of the loop of `revert`.
  unfoldable pub restore : Text → Option E → store.Map → store.Map
  restore key none elements = store.erase elements key
  restore key (some element) elements = store.set elements key element

  unfoldable pub restore_all : DiffMap E → store.Map → store.Map
  restore_all [] elements = elements
  restore_all ((key, old) ∷ diff) elements = restore_all diff (restore key old elements)

  unfoldable pub revert : Cache → Option Cache
  revert c = elim c.diffs [
    | [] ↦ none
    | diff ∷ diffs ↦ some (record { elements = restore_all diff c.elements; diffs = diffs })
  ]

  -- The loop of `commit`: an older element stays.
  unfoldable pub merge : DiffMap E → DiffMap E → DiffMap E
  merge diff lower = Maps.merge_absent Text-discrete diff lower

  -- Without a checkpoint there is no lower map, and the first entry throws.
  unfoldable pub commit : Cache → Option Cache
  commit c = elim c.diffs [
    | [] ↦ none
    | [] ∷ [] ↦ some (record c { diffs = [] })
    | (entry ∷ diff) ∷ [] ↦ none
    | diff ∷ lower ∷ diffs ↦ some (record c { diffs = merge diff lower ∷ diffs })
  ]

  unfoldable pub checkpoint : Cache → Cache
  checkpoint c = record c { diffs = [] ∷ c.diffs }

  -- The differences stay, as in the source.
  unfoldable pub clear : Cache → Cache
  clear c = record c { elements = store.empty }
