-- ===== src/Tests/State.antt =====
-- The caches of the state manager, over association lists.
use simple_p2p_blockchain.Common.{
  ℕ, List, [], ◌∷◌, none, some, Text, Text-discrete, ◌≡◌, true, false,
}
use simple_p2p_blockchain.Common.Maps
use simple_p2p_blockchain.Common.Maps.{get-nil, get-set, get-delete}
use simple_p2p_blockchain.Checkpoints.{Script, done, then_write, then_call, run, spec}
use simple_p2p_blockchain.State.{CacheStore}
use simple_p2p_blockchain.State.ElementCache
use simple_p2p_blockchain.State.StorageCache
use simple_p2p_blockchain.State.StorageCache.{StorageMap}
use simple_p2p_blockchain.State.StorageCache.Calls.{
  StorageCall, put_slot, delete_slot, cache_checkpointed, storage_calls_lem,
}
use simple_p2p_blockchain.State.AccountCache
use simple_p2p_blockchain.State.AccountCache.{AccountElement}
use simple_p2p_blockchain.State.AccountCache.Calls.{
  AccountCall, put_account, delete_account, account_checkpointed, account_calls_lem,
}

abbrev assoc_store : (E : Type 0) → CacheStore E
assoc_store E = record {
  Map = Maps.Map Text E;
  empty = [];
  get = λ m k. Maps.get Text-discrete k m;
  set = λ m k e. Maps.set Text-discrete k e m;
  erase = λ m k. Maps.delete Text-discrete k m;
  get-empty = λ j. get-nil Text-discrete j;
  get-set = λ m k j e. get-set Text-discrete k j e m;
  get-erase = λ m k j. get-delete Text-discrete k j m;
}

abbrev slot_script : Script StorageCall
slot_script = then_write (put_slot (1 ∷ []) (2 ∷ []) (7 ∷ [])) (
    then_call
      (then_write (delete_slot (1 ∷ []) (2 ∷ []))
        (then_call (then_write (put_slot (3 ∷ []) (4 ∷ []) (8 ∷ [])) done) false done))
      true (then_call (then_write (put_slot (5 ∷ []) (2 ∷ []) (9 ∷ [])) done) false done))

storage_calls_lem_example :
    (t : StorageCache.Cache (assoc_store StorageMap)) × (run
        (cache_checkpointed (assoc_store StorageMap))
        slot_script
        (StorageCache.new_cache (assoc_store StorageMap))
      ≡ some t)
    × ((address key : Text)
        → StorageCache.get (assoc_store StorageMap) address key t
          ≡ spec
              (cache_checkpointed (assoc_store StorageMap))
              slot_script
              (λ a k. none)
              address
              key)
storage_calls_lem_example = storage_calls_lem (assoc_store StorageMap) slot_script

-- Addresses stand for themselves.
abbrev own_hex : List ℕ → Text
own_hex bytes = bytes

abbrev account_script : Script AccountCall
account_script = then_write (put_account (1 ∷ []) (some (7 ∷ []))) (
    then_call
      (then_write (delete_account (1 ∷ []))
        (then_call (then_write (put_account (3 ∷ []) none) done) false done))
      true (then_call (then_write (put_account (5 ∷ []) (some (9 ∷ []))) done) false done))

account_calls_lem_example :
    (t : ElementCache.Cache (assoc_store AccountElement)) × (run
        (account_checkpointed own_hex (assoc_store AccountElement))
        account_script
        (ElementCache.new_cache (assoc_store AccountElement))
      ≡ some t)
    × ((address : List ℕ)
        → AccountCache.get own_hex (assoc_store AccountElement) address t
          ≡ spec
              (account_checkpointed own_hex (assoc_store AccountElement))
              account_script
              (λ j. none)
              (own_hex address))
account_calls_lem_example = account_calls_lem own_hex (assoc_store AccountElement) account_script
