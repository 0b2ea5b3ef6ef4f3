-- ===== src/State/CodeCache.antt =====
-- packages/state-manager/src/cache/code.ts: the code of contracts, under their addresses in hexadecimal.
pub mod Calls
use simple_p2p_blockchain.Common.{ℕ, List, Option, none, some, Text}
use simple_p2p_blockchain.State.{CacheStore}
use simple_p2p_blockchain.State.ElementCache
use simple_p2p_blockchain.State.ElementCache.{Cache, set_element}

-- `CodeCacheElement`; without a code none exists.
pub record CodeElement : Type 0 where
  pub code : Option (List ℕ)

-- `hex` is `bytesToHex` of ethereum-cryptography.
module _ (hex : List ℕ → Text) (store : CacheStore CodeElement) where
  unfoldable pub put : List ℕ → Option (List ℕ) → Cache store → Option (Cache store)
  put address code c = set_element store (hex address) (record { code = code }) c

  unfoldable pub get : List ℕ → Cache store → Option CodeElement
  get address c = ElementCache.get store (hex address) c

  unfoldable pub del : List ℕ → Cache store → Option (Cache store)
  del address c = set_element store (hex address) (record { code = none }) c
