-- ===== src/State/CodeCache/Calls.antt =====
-- Whole transactions on the cache of code.
use simple_p2p_blockchain.Common.{
  List, [], ℕ, Option, none, some, Text, ◌≡◌, ap, fun_ext, if◌then◌else◌,
}
use simple_p2p_blockchain.Common.Maps.{same}
use simple_p2p_blockchain.Common.{Text-discrete}
use simple_p2p_blockchain.Checkpoints.{Checkpointed, Script, run, spec, run_lem}
use simple_p2p_blockchain.State.{CacheStore}
use simple_p2p_blockchain.State.ElementCache
use simple_p2p_blockchain.State.ElementCache.{Cache, new_cache, revert, commit, checkpoint}
use simple_p2p_blockchain.State.ElementCache.Views.{
  View, Tracks, write_law, revert_law, commit_law, checkpoint_law,
}
use simple_p2p_blockchain.State.CodeCache.{CodeElement, put, get, del}

-- The operations that change a code.
pub data CodeCall : Type 0 where
  put_code : List ℕ → Option (List ℕ) → CodeCall
  delete_code : List ℕ → CodeCall

module _ (hex : List ℕ → Text) (store : CacheStore CodeElement) where
  unfoldable pub write : CodeCall → Cache store → Option (Cache store)
  write (put_code address code) c = put hex store address code c
  write (delete_code address) c = del hex store address c

  -- What an operation does to the code as a function of the address in hexadecimal.
  unfoldable pub apply : CodeCall → View CodeElement → View CodeElement
  apply (put_code address code) f j =
      if same Text-discrete (hex address) j then some (record { code = code }) else f j
  apply (delete_code address) f j =
      if same Text-discrete (hex address) j then some (record { code = none }) else f j

  pub code-write_law :
      (w : CodeCall) (c : Cache store) (v : View CodeElement) (us : List (View CodeElement))
      → Tracks store c v us
      → (t : Cache store) × (write w c ≡ some t) × Tracks store t (apply w v) us
  unfolding write apply put del
  code-write_law (put_code address code) c v us h =
      write_law store (hex address) (record { code = code }) c.elements c.diffs v us h
  code-write_law (delete_code address) c v us h =
      write_law store (hex address) (record { code = none }) c.elements c.diffs v us h

  unfoldable pub code_checkpointed : Checkpointed (Cache store) (View CodeElement) CodeCall
  code_checkpointed = record {
    write = write;
    checkpoint = checkpoint store;
    commit = commit store;
    revert = revert store;
    apply = apply;
    Tracks = Tracks store;
    write_law = code-write_law;
    checkpoint_law = λ c v us h. checkpoint_law store c v us h;
    commit_law = λ c v u us h. commit_law store c.elements c.diffs v u us h;
    revert_law = λ c v u us h. revert_law store c.elements c.diffs v u us h;
  }

  -- c
  pub code_calls_lem :
      (script : Script CodeCall)
      → (t : Cache store) × (run code_checkpointed script (new_cache store) ≡ some t)
        × ((address : List ℕ)
            → get hex store address t ≡ spec code_checkpointed script (λ j. none) (hex address))
  unfolding code_checkpointed new_cache get ElementCache.get
  code_calls_lem script =
      let (t, e, (shown, leads)) =
        run_lem code_checkpointed script (new_cache store) (λ j. none) []
          (fun_ext (λ j. store.get-empty j), tt) in
      (t, e, λ address. ap (λ f. f (hex address)) shown)
