-- ===== src/Tests/Journal.antt =====
-- The journal of warm addresses.
use simple_p2p_blockchain.Common.{
  [], ◌∷◌, some, Text, Text-discrete, ◌≡◌, true, false, ◌||◌, if◌then◌else◌,
}
use simple_p2p_blockchain.Common.Maps.{Map, same}
use simple_p2p_blockchain.Checkpoints.{Script, done, then_write, then_call, run, spec}
use simple_p2p_blockchain.Evm.Journal.{
  TextSet, Journal, has, new_journal, is_warmed_address, is_warmed_storage, ripemd,
}
use simple_p2p_blockchain.Evm.Journal.Views.{warm_address, warm_storage, touched, has_slot}
use simple_p2p_blockchain.Evm.Journal.Calls.{
  JournalCall, access_address, access_storage, touch_address, journal_checkpointed,
  journal_calls_lem,
}

-- A call at height 1 that opens a second one, commits it, opens a third and reverts it, and reverts.
abbrev script : Script JournalCall
script = then_write (access_storage (1 ∷ []) (2 ∷ [])) (
    then_call
      (then_write (access_address (3 ∷ [])) (
        then_call (then_write (access_storage (3 ∷ []) (4 ∷ [])) done) false
          (then_call (then_write (touch_address (5 ∷ [])) done) true done)))
      true (then_write (touch_address (1 ∷ [])) done))

abbrev always : Map Text TextSet
always = (9 ∷ [], (2 ∷ [], tt) ∷ []) ∷ []

journal_calls_lem_example :
    (t : Journal) × (run
        (journal_checkpointed always)
        script
        (record new_journal { always_warm = always })
      ≡ some t)
    × (t.height ≡ 0)
    × ((a : Text)
        → is_warmed_address a t ≡ (
            spec (journal_checkpointed always) script (λ x. false) (warm_address a)
            || has a always))
    × ((a k : Text)
        → is_warmed_storage a k t ≡ (
            spec (journal_checkpointed always) script (λ x. false) (warm_storage a k)
            || has_slot a k always))
    × ((a : Text)
        → (if same Text-discrete a ripemd then false else has a t.touched)
          ≡ spec (journal_checkpointed always) script (λ x. false) (touched a))
journal_calls_lem_example = journal_calls_lem always script
