-- ===== src/State/StorageCache/Calls.antt =====
-- Whole transactions on the storage cache.
use simple_p2p_blockchain.Common.{List, [], ℕ, Option, none, some, Text, ◌≡◌, ap, fun_ext, arith}
use simple_p2p_blockchain.Checkpoints.{Checkpointed, Script, run, spec, run_lem}
use simple_p2p_blockchain.State.{CacheStore}
use simple_p2p_blockchain.State.StorageCache.{
  StorageMap, Cache, new_cache, get, get_in, put, del, revert, commit, checkpoint, empty_value,
}
use simple_p2p_blockchain.State.StorageCache.Views.{View, update}
use simple_p2p_blockchain.State.StorageCache.Checkpointing.{
  Tracks, put_law, del_law, revert_law, commit_law, checkpoint_law,
}

-- The operations that change a slot.
pub data StorageCall : Type 0 where
  put_slot : Text → Text → List ℕ → StorageCall
  delete_slot : Text → Text → StorageCall

unfoldable pub apply : StorageCall → View → View
apply (put_slot address key value) f = update address key (some value) f
apply (delete_slot address key) f = update address key (some empty_value) f

module _ (store : CacheStore StorageMap) where
  unfoldable pub write : StorageCall → Cache store → Option (Cache store)
  write (put_slot address key value) c = put store address key value c
  write (delete_slot address key) c = del store address key c

  pub write_law :
      (w : StorageCall) (c : Cache store) (v : View) (us : List View)
      → Tracks store c v us
      → (t : Cache store) × (write w c ≡ some t) × Tracks store t (apply w v) us
  unfolding write apply
  write_law (put_slot address key value) c v us h =
      put_law store address key value c.elements c.diffs v us h
  write_law (delete_slot address key) c v us h = del_law store address key c.elements c.diffs v us h

  unfoldable pub cache_checkpointed : Checkpointed (Cache store) View StorageCall
  cache_checkpointed = record {
    write = write;
    checkpoint = checkpoint store;
    commit = commit store;
    revert = revert store;
    apply = apply;
    Tracks = Tracks store;
    write_law = write_law;
    checkpoint_law = checkpoint_law store;
    commit_law = λ c v u us h. commit_law store c.elements c.diffs v u us h;
    revert_law = λ c v u us h. revert_law store c.elements c.diffs v u us h;
  }

  get_in_empty : (a k : Text) → get_in store store.empty a k ≡ none
  unfolding get_in
  get_in_empty a k = ground (arith, store.get-empty a)

  -- A script of `put` and `del` of slots and of nested calls, each of which ends by `commit` or by
  -- `revert`, run on a new storage cache throws nothing, and `get` then answers as on a plain
  -- function from addresses and keys to values, in which a reverted call has changed nothing and a
  -- deleted slot has the encoding of nothing.
  pub storage_calls_lem :
      (script : Script StorageCall)
      → (t : Cache store) × (run cache_checkpointed script (new_cache store) ≡ some t)
        × ((address key : Text)
            → get store address key t ≡ spec cache_checkpointed script (λ a k. none) address key)
  unfolding cache_checkpointed new_cache get
  storage_calls_lem script =
      let (t, e, (shown, leads)) =
        run_lem cache_checkpointed script (new_cache store) (λ a k. none) []
          (fun_ext (λ a. fun_ext (λ k. get_in_empty a k)), tt) in
      (t, e, λ a k. ap (λ f. f a k) shown)
