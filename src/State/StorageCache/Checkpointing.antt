-- ===== src/State/StorageCache/Checkpointing.antt =====
-- The operations of the storage cache on what it shows, now and at its checkpoints.
use simple_p2p_blockchain.Common.{ℕ, List, [], ◌∷◌, some, Text, ◌≡◌, refl, sym, ap, ◌∙◌, fun_ext}
use simple_p2p_blockchain.Common.Maps
use simple_p2p_blockchain.Common.Maps.{
  same, same→eq, same_refl, get-nil, get-set, get-delete, or_else, DistinctKeys, set-DistinctKeys,
  get-merge_absent, merge_absent-DistinctKeys,
}
use simple_p2p_blockchain.Checkpoints.Diffs.{
  Leads, Leads-IsGood, Leads-change, Leads-checkpoint, Leads-commit,
}
use simple_p2p_blockchain.State.{CacheStore}
use simple_p2p_blockchain.State.StorageCache.{
  StorageMap, DiffMap, Cache, empty_value, save_in, set_slot, put, del, save_cache_pre_state,
  restore_all, revert, merge, commit, checkpoint,
}
use simple_p2p_blockchain.State.StorageCache.Views.{View, update, undo, IsDiff, old_at}
use simple_p2p_blockchain.State.StorageCache.Slots.{
  view, view-set_slot, save_in-IsDiff, undo-save_in, view-restore_all, merge-IsDiff, undo-merge,
}

module _ (store : CacheStore StorageMap) where
  abbrev pub cache_of : store.Map → List DiffMap → Cache store
  cache_of elements diffs = record { elements = elements; diffs = diffs }

  -- The cache shows the view, and its differences lead back to the views at its checkpoints.
  abbrev pub Tracks : Cache store → View → List View → Type 0
  Tracks c v us = (view store c.elements ≡ v) × Leads undo IsDiff v c.diffs us

  -- `put` and `del` differ in the value only.
  replace_slot-Tracks :
      (address key : Text) (value : List ℕ) (elements : store.Map) (diff : DiffMap)
      (diffs : List DiffMap) (v : View) (us : List View)
      → Tracks (cache_of elements (diff ∷ diffs)) v us
      → Tracks
          (cache_of
            (set_slot store address key value elements)
            (save_in store address key elements diff ∷ diffs))
          (update address key (some value) v)
          us
  replace_slot-Tracks address key value elements diff diffs v us (shown, leads) =
      let now : view store (set_slot store address key value elements)
          ≡ update address key (some value) v =
        fun_ext (λ a. fun_ext (λ k.
          view-set_slot store address key value elements a k
          ∙ ap (λ f. update address key (some value) f a k) shown)) in
      let saved = save_in store address key elements diff in
      (
        now,
        Leads-change undo IsDiff v (update address key (some value) v) diff saved diffs us leads
            (save_in-IsDiff store address key elements diff
              (Leads-IsGood undo IsDiff v diff diffs us leads))
            (sym (ap (undo saved) now)
              ∙ undo-save_in store address key value elements diff
              ∙ ap (undo diff) shown),
      )

  pub put_law :
      (address key : Text) (value : List ℕ) (elements : store.Map) (diffs : List DiffMap) (v : View)
      (us : List View)
      → Tracks (cache_of elements diffs) v us
      → (t : Cache store) × (put store address key value (cache_of elements diffs) ≡ some t)
        × Tracks t (update address key (some value) v) us
  unfolding put save_cache_pre_state
  put_law address key value elements [] v us h = absurd h.1
  put_law address key value elements (diff ∷ diffs) v us h =
      (_, refl, replace_slot-Tracks address key value elements diff diffs v us h)

  pub del_law :
      (address key : Text) (elements : store.Map) (diffs : List DiffMap) (v : View) (us : List View)
      → Tracks (cache_of elements diffs) v us
      → (t : Cache store) × (del store address key (cache_of elements diffs) ≡ some t)
        × Tracks t (update address key (some empty_value) v) us
  unfolding del save_cache_pre_state
  del_law address key elements [] v us h = absurd h.1
  del_law address key elements (diff ∷ diffs) v us h =
      (_, refl, replace_slot-Tracks address key empty_value elements diff diffs v us h)

  pub revert_law :
      (elements : store.Map) (diffs : List DiffMap) (v u : View) (us : List View)
      → Tracks (cache_of elements diffs) v (u ∷ us)
      → (t : Cache store) × (revert store (cache_of elements diffs) ≡ some t) × Tracks t u us
  unfolding revert
  revert_law elements [] v u us h = absurd h.1
  revert_law elements (diff ∷ []) v u us h = absurd h.1
  revert_law elements (diff ∷ lower ∷ diffs) v u us (shown, (good, e, leads)) = (
    cache_of (restore_all store diff elements) (lower ∷ diffs),
    refl,
    (
      fun_ext (λ a. fun_ext (λ k. view-restore_all store diff elements good a k))
          ∙ ap (undo diff) shown
          ∙ e,
      leads,
    ),
  )

  commit_merged :
      (elements : store.Map) (diff lower : DiffMap) (diffs : List DiffMap)
      → commit store (cache_of elements (diff ∷ lower ∷ diffs))
        ≡ some (cache_of elements (merge store diff lower ∷ diffs))
  unfolding commit
  commit_merged elements [] lower diffs = refl
  commit_merged elements (entry ∷ diff) lower diffs = refl

  pub commit_law :
      (elements : store.Map) (diffs : List DiffMap) (v u : View) (us : List View)
      → Tracks (cache_of elements diffs) v (u ∷ us)
      → (t : Cache store) × (commit store (cache_of elements diffs) ≡ some t) × Tracks t v us
  commit_law elements [] v u us h = absurd h.1
  commit_law elements (diff ∷ []) v u us h = absurd h.1
  commit_law elements (diff ∷ lower ∷ diffs) v u us (shown, leads) = (
    cache_of elements (merge store diff lower ∷ diffs),
    commit_merged elements diff lower diffs,
    (
      shown,
      Leads-commit undo IsDiff v u diff lower (merge store diff lower) diffs us leads
          (merge-IsDiff store diff lower leads.0
            (Leads-IsGood undo IsDiff u lower diffs us leads.2))
          (undo-merge store diff lower v leads.0),
    ),
  )

  pub checkpoint_law :
      (c : Cache store) (v : View) (us : List View)
      → Tracks c v us
      → Tracks (checkpoint store c) v (v ∷ us)
  unfolding checkpoint old_at Maps.get
  checkpoint_law c v us (shown, leads) =
      (shown, Leads-checkpoint undo IsDiff v [] c.diffs us leads tt refl)
