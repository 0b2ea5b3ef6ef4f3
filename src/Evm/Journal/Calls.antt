-- ===== src/Evm/Journal/Calls.antt =====
-- Whole transactions on the journal.
use simple_p2p_blockchain.Common.{
  ℕ, zero, suc, List, [], Option, some, Text, Text-discrete, ◌≡◌, refl, ap, ◌∙◌, arith, fun_ext,
  false, ◌||◌, if◌then◌else◌,
}
use simple_p2p_blockchain.Common.Maps
use simple_p2p_blockchain.Common.Maps.{Map, same, get-nil}
use simple_p2p_blockchain.Checkpoints.{Checkpointed, Script, run, spec, run_lem}
use simple_p2p_blockchain.Evm.Journal.{
  TextSet, has, Journal, DiffItem, new_journal, is_warmed_address, is_warmed_storage, touch_account,
  add_warmed_address, add_warmed_storage, checkpoint, commit, revert, ripemd,
}
use simple_p2p_blockchain.Evm.Journal.Views.{
  Fact, warm_address, warm_storage, touched, View, view, undo, has_slot,
}
use simple_p2p_blockchain.Evm.Journal.Changes.{warm, warm_slot_of, touch}
use simple_p2p_blockchain.Evm.Journal.Levels.{Leads}
use simple_p2p_blockchain.Evm.Journal.Tracking.{Tracks, touch_law}
use simple_p2p_blockchain.Evm.Journal.Warming.{warm_law, warm_storage_law}
use simple_p2p_blockchain.Evm.Journal.Reverting.{checkpoint_law, commit_law, revert_law}

pub data JournalCall : Type 0 where
  access_address : Text → JournalCall
  access_storage : Text → Text → JournalCall
  touch_address : Text → JournalCall

unfoldable pub write : JournalCall → Journal → Option Journal
write (access_address a) j = add_warmed_address a j
write (access_storage a k) j = add_warmed_storage a k j
write (touch_address a) j = touch_account a j

unfoldable pub apply : JournalCall → View → View
apply (access_address a) f = warm a f
apply (access_storage a k) f = warm_slot_of a k (warm a f)
apply (touch_address a) f = touch a f

-- `w` is what is always warm.
module _ (w : Map Text TextSet) where
  pub write_law :
      (c : JournalCall) (j : Journal) (v : View) (us : List View)
      → Tracks w j v us
      → (i : Journal) × (write c j ≡ some i) × Tracks w i (apply c v) us
  unfolding write apply
  write_law (access_address a) j v us h = let (i, e, k, here) = warm_law w j v us a h in (i, e, k)
  write_law (access_storage a k) j v us h = warm_storage_law w a k j v us h
  write_law (touch_address a) j v us h = touch_law w j v us a h

  unfoldable pub journal_checkpointed : Checkpointed Journal View JournalCall
  journal_checkpointed = record {
    write = write;
    checkpoint = checkpoint;
    commit = commit;
    revert = revert;
    apply = apply;
    Tracks = Tracks w;
    write_law = write_law;
    checkpoint_law = checkpoint_law w;
    commit_law = commit_law w;
    revert_law = revert_law w;
  }

  is_warmed_address-eq :
      (j : Journal) (a : Text)
      → j.always_warm ≡ w
      → is_warmed_address a j ≡ (view j.journal j.touched (warm_address a) || has a w)
  unfolding is_warmed_address
  is_warmed_address-eq j a e = rw e refl

  is_warmed_storage-eq :
      (j : Journal) (a k : Text)
      → j.always_warm ≡ w
      → is_warmed_storage a k j ≡ (view j.journal j.touched (warm_storage a k) || has_slot a k w)
  unfolding is_warmed_storage
  is_warmed_storage-eq j a k e = ground (arith, e, get-nil {V = Unit {0}} Text-discrete k)

  none_shown : (x : Fact) → view [] [] x ≡ false
  unfolding Maps.get
  none_shown (warm_address a) = refl
  none_shown (warm_storage a k) = refl
  none_shown (touched a) = ground arith

  Leads-height : (h : ℕ) (v : View) (ds : List (ℕ × DiffItem)) → Leads undo h v ds [] → h ≡ 0
  Leads-height zero v ds leads = refl
  Leads-height (suc h) v ds leads = absurd leads

  -- A script of accesses, touches and nested calls, each of which ends by `commit` or by `revert`,
  -- run on a new journal with any addresses always warm and no access list reported, throws
  -- nothing and comes back to height 0; an address or a slot is then warm exactly if it is always
  -- warm or was accessed outside every reverted call, and an account other than the precompile 0x3
  -- is touched exactly if it was touched outside every reverted call.
  pub journal_calls_lem :
      (script : Script JournalCall)
      → (t : Journal) × (run journal_checkpointed script (record new_journal { always_warm = w })
          ≡ some t)
        × (t.height ≡ 0)
        × ((a : Text)
            → is_warmed_address a t
              ≡ (spec journal_checkpointed script (λ x. false) (warm_address a) || has a w))
        × ((a k : Text)
            → is_warmed_storage a k t ≡ (
                spec journal_checkpointed script (λ x. false) (warm_storage a k) || has_slot a k w))
        × ((a : Text)
            → (if same Text-discrete a ripemd then false else has a t.touched)
              ≡ spec journal_checkpointed script (λ x. false) (touched a))
  unfolding journal_checkpointed
  journal_calls_lem script =
      let (t, e, (no_list, always, shown, items, leads)) =
        run_lem journal_checkpointed script (record new_journal { always_warm = w }) (λ x. false) []
          (refl, refl, fun_ext none_shown, (tt, tt), refl) in
      (
        t,
        e,
        Leads-height t.height (spec journal_checkpointed script (λ x. false)) t.diffs leads,
        (λ a. is_warmed_address-eq t a always ∙ ap (λ f. f (warm_address a) || has a w) shown),
        (λ a k.
            is_warmed_storage-eq t a k always
            ∙ ap (λ f. f (warm_storage a k) || has_slot a k w) shown),
        (λ a. ap (λ f. f (touched a)) shown),
      )
