-- ===== src/Evm/Journal/Warming.antt =====
-- Accesses of addresses and slots keep what the journal shows, and the way back to its checkpoints.
use simple_p2p_blockchain.Common.{
  ℕ, List, [], ◌∷◌, ◌≡◌, refl, arith, fun_ext, true, false, none, some, subst, Text, Text-discrete,
  Bool-cases, inl, inr,
}
use simple_p2p_blockchain.Common.Maps
use simple_p2p_blockchain.Common.Maps.{
  Map, same, same→eq, same_refl, get-set, DistinctKeys, set-DistinctKeys,
}
use simple_p2p_blockchain.Evm.Journal.{
  TextSet, has, add, DiffItem, Journal, add_warmed_address, warm_slot, add_warmed_storage,
  change_last, list_address, list_slot,
}
use simple_p2p_blockchain.Evm.Journal.Views.{
  Fact, warm_address, warm_storage, touched, View, view, has_slot,
}
use simple_p2p_blockchain.Evm.Journal.Changes.{
  warm, warm_slot_of, with_slot, view-warm, undo-warm, view-warm_slot, undo-warm_slot,
}
use simple_p2p_blockchain.Evm.Journal.Tracking.{
  Tracks, journal_of, changed, unchanged, diffs-cases, has-get, has-set_self,
}

module _ (w : Map Text TextSet) (j : Journal) (v : View) (us : List View) where
  warm_hot :
      (a : Text) → has a j.journal ≡ true → j.access_list ≡ none → add_warmed_address a j ≡ some j
  unfolding add_warmed_address list_address
  warm_hot a hot no_list = ground (arith, hot, no_list)

  warm_cold :
      (a : Text) (k : ℕ) (d : DiffItem) (ds : List (ℕ × DiffItem))
      → has a j.journal ≡ false
      → j.access_list ≡ none
      → j.diffs ≡ (k, d) ∷ ds
      → add_warmed_address a j
        ≡ some (
            journal_of
              (Maps.set Text-discrete a [] j.journal)
              j.touched
              ((k, record d { addresses = add a d.addresses }) ∷ ds)
              j)
  unfolding add_warmed_address change_last list_address
  warm_cold a k d ds cold no_list eq = ground (arith, cold, eq, no_list)

  warm-hot_view :
      (a : Text)
      → has a j.journal ≡ true
      → warm a (view j.journal j.touched) ≡ view j.journal j.touched
  warm-hot_view a hot = fun_ext at
    where
      at : (x : Fact) → warm a (view j.journal j.touched) x ≡ view j.journal j.touched x
      at (warm_address b) = ground (arith, same→eq Text-discrete a b, hot)
      at (warm_storage b k) = refl
      at (touched b) = refl

  pub warm_law :
      (a : Text)
      → Tracks w j v us
      → (i : Journal) × (add_warmed_address a j ≡ some i)
        × Tracks w i (warm a v) us
        × (has a i.journal ≡ true)
  warm_law a h = elim (Bool-cases (has a j.journal)) [
    | inl hot ↦ (j, warm_hot a hot h.0, unchanged w j v us (warm a) h (warm-hot_view a hot), hot)
    | inr cold ↦
        let (k, d, ds, eq, item) = diffs-cases w j v us h in
        (
          _,
          warm_cold a k d ds cold h.0 eq,
          changed w j (Maps.set Text-discrete a [] j.journal) j.touched k d _ ds (warm a) v us eq h
              item (view-warm j.journal j.touched d a cold)
              (undo-warm j.journal j.touched d a cold),
          has-set_self a [] j.journal,
        )
  ]

  slot_hot :
      (a k : Text)
      → has a j.journal ≡ true
      → has_slot a k j.journal ≡ true
      → warm_slot a k j ≡ some j
  unfolding warm_slot
  slot_hot a k here hot = ground (arith, here, hot)

  slot_cold :
      (a k : Text) (slots : TextSet) (n : ℕ) (d : DiffItem) (ds : List (ℕ × DiffItem))
      → Maps.get Text-discrete a j.journal ≡ some slots
      → has_slot a k j.journal ≡ false
      → j.diffs ≡ (n, d) ∷ ds
      → warm_slot a k j
        ≡ some (
            journal_of
              (Maps.set Text-discrete a (add k slots) j.journal)
              j.touched
              ((n, with_slot j.journal j.touched d a k) ∷ ds)
              j)
  unfolding warm_slot change_last
  slot_cold a k slots n d ds here cold eq = ground (arith, here, cold, eq)

  slot-hot_view :
      (a k : Text)
      → has_slot a k j.journal ≡ true
      → warm_slot_of a k (view j.journal j.touched) ≡ view j.journal j.touched
  slot-hot_view a k hot = fun_ext at
    where
      at : (x : Fact) → warm_slot_of a k (view j.journal j.touched) x ≡ view j.journal j.touched x
      at (warm_address b) = refl
      at (warm_storage b i) =
          ground (arith, same→eq Text-discrete a b, same→eq Text-discrete k i, hot)
      at (touched b) = refl

  warm_slot_law :
      (a k : Text)
      → has a j.journal ≡ true
      → Tracks w j v us
      → (i : Journal) × (warm_slot a k j ≡ some i) × Tracks w i (warm_slot_of a k v) us
  warm_slot_law a k here h = elim (Bool-cases (has_slot a k j.journal)) [
    | inl hot ↦
        (j, slot_hot a k here hot, unchanged w j v us (warm_slot_of a k) h (slot-hot_view a k hot))
    | inr cold ↦
        let (n, d, ds, eq, item) = diffs-cases w j v us h in
        let (slots, is_here) = has-get a j.journal here in
        (
          _,
          slot_cold a k slots n d ds is_here cold eq,
          changed w j (Maps.set Text-discrete a (add k slots) j.journal) j.touched n d _ ds
              (warm_slot_of a k) v us eq h (set-DistinctKeys Text-discrete a _ d.slots item)
              (view-warm_slot j.journal j.touched d a k slots is_here)
              (undo-warm_slot j.journal j.touched d a k cold),
        )
  ]

  list_slot-none : (a k : Text) → j.access_list ≡ none → list_slot a k j ≡ some j
  unfolding list_slot
  list_slot-none a k no_list = ground (arith, no_list)

-- Also where the address is warm, and `addWarmedStorage` skips `addWarmedAddress`.
add_warmed_storage-steps :
    (a k : Text) (j i g : Journal)
    → j.access_list ≡ none
    → g.access_list ≡ none
    → add_warmed_address a j ≡ some i
    → warm_slot a k i ≡ some g
    → add_warmed_storage a k j ≡ some g
unfolding add_warmed_storage
add_warmed_storage-steps a k j i g no_list no_list' e e' = elim (Bool-cases (has a j.journal)) [
  | inl hot ↦ ground (
    arith,
    hot,
    subst (λ o. o ≡ some i) (warm_hot [] j (λ x. false) [] a hot no_list) e,
    e',
    list_slot-none [] g (λ x. false) [] a k no_list',
  )
  | inr cold ↦ ground (arith, cold, e, e', list_slot-none [] g (λ x. false) [] a k no_list')
]

pub warm_storage_law :
    (w : Map Text TextSet) (a k : Text) (j : Journal) (v : View) (us : List View)
    → Tracks w j v us
    → (i : Journal) × (add_warmed_storage a k j ≡ some i)
      × Tracks w i (warm_slot_of a k (warm a v)) us
warm_storage_law w a k j v us h =
    let (i, e, h', here) = warm_law w j v us a h in
    let (g, e', h'') = warm_slot_law w i (warm a v) us a k here h' in
    (g, add_warmed_storage-steps a k j i g h.0 h''.0 e e', h'')
