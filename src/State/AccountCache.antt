-- ===== src/State/AccountCache.antt =====
-- packages/state-manager/src/cache/account.ts: the accounts, under their addresses in hexadecimal.
pub mod Calls
use simple_p2p_blockchain.Common.{ℕ, List, Option, none, some, Text}
use simple_p2p_blockchain.State.{CacheStore}
use simple_p2p_blockchain.State.ElementCache
use simple_p2p_blockchain.State.ElementCache.{Cache, set_element}

-- `AccountCacheElement`; without a serialization the account is known not to exist in the trie.
pub record AccountElement : Type 0 where
  pub account_rlp : Option (List ℕ)

-- `hex` is `bytesToHex` of ethereum-cryptography.
module _ (hex : List ℕ → Text) (store : CacheStore AccountElement) where
  -- `account_rlp` is what `serialize` or `serializeWithPartialInfo` returned, or undefined.
  unfoldable pub put : List ℕ → Option (List ℕ) → Cache store → Option (Cache store)
  put address account_rlp c =
      set_element store (hex address) (record { account_rlp = account_rlp }) c

  unfoldable pub get : List ℕ → Cache store → Option AccountElement
  get address c = ElementCache.get store (hex address) c

  unfoldable pub del : List ℕ → Cache store → Option (Cache store)
  del address c = set_element store (hex address) (record { account_rlp = none }) c
