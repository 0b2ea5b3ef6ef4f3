-- ===== src/State.antt =====
-- packages/state-manager/src/cache: the caches of accounts, code and storage, with their checkpoints.
pub mod ElementCache
pub mod StorageCache
pub mod AccountCache
pub mod CodeCache
use simple_p2p_blockchain.Common.{Text, Text-discrete, Option, none, some, ◌≡◌, if◌then◌else◌}
use simple_p2p_blockchain.Common.Maps

-- What the caches rely on in the ordered map of @js-sdsl/ordered-map: an element is found under its key
-- until it is replaced or erased. (An LRU cache keeps it too, as long as it does not evict.)
pub record CacheStore (E : Type 0) : Type 1 where
  pub Map : Type 0
  pub empty : Map
  pub get : Map → Text → Option E
  pub set : Map → Text → E → Map
  pub erase : Map → Text → Map
  pub get-empty : (j : Text) → get empty j ≡ none
  pub get-set :
      (m : Map) (k j : Text) (e : E)
      → get (set m k e) j ≡ (if Maps.same Text-discrete k j then some e else get m j)
  pub get-erase :
      (m : Map) (k j : Text)
      → get (erase m k) j ≡ (if Maps.same Text-discrete k j then none else get m j)
