-- ===== src/State/AccountCache/Calls.antt =====
-- Whole transactions on the cache of accounts.
use simple_p2p_blockchain.Common.{
  List, [], ℕ, Option, none, some, Text, ◌≡◌, ap, fun_ext, if◌then◌else◌,
}
use simple_p2p_blockchain.Common.Maps.{same}
use simple_p2p_blockchain.Common.{Text-discrete}
use simple_p2p_blockchain.Checkpoints.{Checkpointed, Script, run, spec, run_lem}
use simple_p2p_blockchain.State.{CacheStore}
use simple_p2p_blockchain.State.ElementCache
use simple_p2p_blockchain.State.ElementCache.{Cache, new_cache, revert, commit, checkpoint}
use simple_p2p_blockchain.State.ElementCache.Views.{
  View, Tracks, write_law, revert_law, commit_law, checkpoint_law,
}
use simple_p2p_blockchain.State.AccountCache.{AccountElement, put, get, del}

-- The operations that change an account.
pub data AccountCall : Type 0 where
  put_account : List ℕ → Option (List ℕ) → AccountCall
  delete_account : List ℕ → AccountCall

module _ (hex : List ℕ → Text) (store : CacheStore AccountElement) where
  unfoldable pub write : AccountCall → Cache store → Option (Cache store)
  write (put_account address account_rlp) c = put hex store address account_rlp c
  write (delete_account address) c = del hex store address c

  -- What an operation does to the accounts as a function of the address in hexadecimal.
  unfoldable pub apply : AccountCall → View AccountElement → View AccountElement
  apply (put_account address account_rlp) f j =
      if same Text-discrete (hex address) j
      then some (record { account_rlp = account_rlp })
      else f j
  apply (delete_account address) f j =
      if same Text-discrete (hex address) j then some (record { account_rlp = none }) else f j

  pub account-write_law :
      (w : AccountCall) (c : Cache store) (v : View AccountElement)
      (us : List (View AccountElement))
      → Tracks store c v us
      → (t : Cache store) × (write w c ≡ some t) × Tracks store t (apply w v) us
  unfolding write apply put del
  account-write_law (put_account address account_rlp) c v us h =
      write_law store (hex address) (record { account_rlp = account_rlp }) c.elements c.diffs v us h
  account-write_law (delete_account address) c v us h =
      write_law store (hex address) (record { account_rlp = none }) c.elements c.diffs v us h

  unfoldable pub account_checkpointed : Checkpointed (Cache store) (View AccountElement) AccountCall
  account_checkpointed = record {
    write = write;
    checkpoint = checkpoint store;
    commit = commit store;
    revert = revert store;
    apply = apply;
    Tracks = Tracks store;
    write_law = account-write_law;
    checkpoint_law = λ c v us h. checkpoint_law store c v us h;
    commit_law = λ c v u us h. commit_law store c.elements c.diffs v u us h;
    revert_law = λ c v u us h. revert_law store c.elements c.diffs v u us h;
  }

  -- A script of `put` and `del` of accounts and of nested calls, each of which ends by `commit` or
  -- by `revert`, run on a new account cache throws nothing, and `get` then answers as on a plain
  -- function from addresses in hexadecimal to elements, in which a reverted call has changed
  -- nothing.
  pub account_calls_lem :
      (script : Script AccountCall)
      → (t : Cache store) × (run account_checkpointed script (new_cache store) ≡ some t)
        × ((address : List ℕ)
            → get hex store address t ≡ spec account_checkpointed script (λ j. none) (hex address))
  unfolding account_checkpointed new_cache get ElementCache.get
  account_calls_lem script =
      let (t, e, (shown, leads)) =
        run_lem account_checkpointed script (new_cache store) (λ j. none) []
          (fun_ext (λ j. store.get-empty j), tt) in
      (t, e, λ address. ap (λ f. f (hex address)) shown)
