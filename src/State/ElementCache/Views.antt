-- ===== src/State/ElementCache/Views.antt =====
-- What the cache of elements shows, and how its differences lead back to its checkpoints.
use simple_p2p_blockchain.Common.{
  List, [], ◌∷◌, Option, none, some, Text, Text-discrete, ◌≡◌, refl, sym, ap, ◌∙◌, arith, fun_ext,
  if◌then◌else◌,
}
use simple_p2p_blockchain.Common.Maps
use simple_p2p_blockchain.Common.Maps.{
  same, same→eq, same_refl, get-nil, or_else, DistinctKeys, get-set_absent, set_absent-DistinctKeys,
  get-merge_absent, merge_absent-DistinctKeys,
}
use simple_p2p_blockchain.Checkpoints.{Checkpointed}
use simple_p2p_blockchain.Checkpoints.Diffs.{
  Leads, Leads-IsGood, Leads-change, Leads-checkpoint, Leads-commit,
}
use simple_p2p_blockchain.State.{CacheStore}
use simple_p2p_blockchain.State.ElementCache.{
  DiffMap, Cache, save_in, save_cache_pre_state, set_element, restore, restore_all, revert, merge,
  commit, checkpoint,
}

abbrev pub View : Type 0 → Type 0
View E = Text → Option E

abbrev pub update : {E : Type 0} → Text → Option E → View E → View E
update key e f j = if same Text-discrete key j then e else f j

-- The view before the changes that a map of differences records.
abbrev pub undo : {E : Type 0} → DiffMap E → View E → View E
undo diff f j = elim (Maps.get Text-discrete j diff) [ none ↦ f j | some old ↦ old ]

abbrev pub IsDiff : {E : Type 0} → DiffMap E → Type 0
IsDiff diff = DistinctKeys Text-discrete diff

module _ {E : Type 0} (store : CacheStore E) where
  abbrev pub view : store.Map → View E
  view elements key = store.get elements key

  save_in-IsDiff :
      (key : Text) (elements : store.Map) (diff : DiffMap E)
      → IsDiff diff
      → IsDiff (save_in store key elements diff)
  unfolding save_in
  save_in-IsDiff key elements diff h =
      set_absent-DistinctKeys Text-discrete key (store.get elements key) diff h

  undo-save_in :
      (key : Text) (e : E) (elements : store.Map) (diff : DiffMap E)
      → undo (save_in store key elements diff) (view (store.set elements key e))
        ≡ undo diff (view elements)
  unfolding save_in
  undo-save_in key e elements diff = fun_ext (λ j. ground (
    arith,
    get-set_absent Text-discrete key j (store.get elements key) diff,
    store.get-set elements key j e,
    same→eq Text-discrete key j,
  ))

  view-restore :
      (key : Text) (old : Option E) (elements : store.Map) (j : Text)
      → view (restore store key old elements) j ≡ update key old (view elements) j
  unfolding restore
  view-restore key none elements j = store.get-erase elements key j
  view-restore key (some e) elements j = store.get-set elements key j e

  -- `revert` brings back the view before the level.
  view-restore_all :
      (diff : DiffMap E) (elements : store.Map)
      → IsDiff diff
      → (j : Text) → view (restore_all store diff elements) j ≡ undo diff (view elements) j
  unfolding restore_all Maps.get
  view-restore_all [] elements h j = refl
  view-restore_all ((key, old) ∷ diff) elements h j = ground (
    arith,
    view-restore_all diff (restore store key old elements) h.1 j,
    view-restore key old elements j,
    same→eq Text-discrete key j,
    h.0,
  )

  undo-merge :
      (diff lower : DiffMap E) (f : View E)
      → undo (merge store diff lower) f ≡ undo lower (undo diff f)
  unfolding merge
  undo-merge diff lower f =
      fun_ext (λ j. ground (arith, get-merge_absent Text-discrete diff lower j))

  abbrev pub cache_of : store.Map → List (DiffMap E) → Cache store
  cache_of elements diffs = record { elements = elements; diffs = diffs }

  -- The cache shows the view, and its differences lead back to the views at its checkpoints.
  abbrev pub Tracks : Cache store → View E → List (View E) → Type 0
  Tracks c v us = (view c.elements ≡ v) × Leads undo IsDiff v c.diffs us

  pub write_law :
      (key : Text) (e : E) (elements : store.Map) (diffs : List (DiffMap E)) (v : View E)
      (us : List (View E))
      → Tracks (cache_of elements diffs) v us
      → (t : Cache store) × (set_element store key e (cache_of elements diffs) ≡ some t)
        × Tracks t (update key (some e) v) us
  unfolding set_element save_cache_pre_state
  write_law key e elements [] v us h = absurd h.1
  write_law key e elements (diff ∷ diffs) v us (shown, leads) =
      let now : view (store.set elements key e) ≡ update key (some e) v =
        fun_ext (λ j. store.get-set elements key j e ∙ ap (λ f. update key (some e) f j) shown) in
      let saved = save_in store key elements diff in
      (
        cache_of (store.set elements key e) (saved ∷ diffs),
        refl,
        (
          now,
          Leads-change undo IsDiff v (update key (some e) v) diff saved diffs us leads
              (save_in-IsDiff key elements diff (Leads-IsGood undo IsDiff v diff diffs us leads))
              (sym (ap (undo saved) now) ∙ undo-save_in key e elements diff ∙ ap (undo diff) shown),
        ),
      )

  pub revert_law :
      (elements : store.Map) (diffs : List (DiffMap E)) (v u : View E) (us : List (View E))
      → Tracks (cache_of elements diffs) v (u ∷ us)
      → (t : Cache store) × (revert store (cache_of elements diffs) ≡ some t) × Tracks t u us
  unfolding revert
  revert_law elements [] v u us h = absurd h.1
  revert_law elements (diff ∷ []) v u us h = absurd h.1
  revert_law elements (diff ∷ lower ∷ diffs) v u us (shown, (good, e, leads)) = (
    cache_of (restore_all store diff elements) (lower ∷ diffs),
    refl,
    (fun_ext (view-restore_all diff elements good) ∙ ap (undo diff) shown ∙ e, leads),
  )

  commit_merged :
      (elements : store.Map) (diff lower : DiffMap E) (diffs : List (DiffMap E))
      → commit store (cache_of elements (diff ∷ lower ∷ diffs))
        ≡ some (cache_of elements (merge store diff lower ∷ diffs))
  unfolding commit
  commit_merged elements [] lower diffs = refl
  commit_merged elements (entry ∷ diff) lower diffs = refl

  pub checkpoint_law :
      (c : Cache store) (v : View E) (us : List (View E))
      → Tracks c v us
      → Tracks (checkpoint store c) v (v ∷ us)
  unfolding checkpoint Maps.get
  checkpoint_law c v us (shown, leads) =
      (shown, Leads-checkpoint undo IsDiff v [] c.diffs us leads tt refl)

  pub commit_law :
      (elements : store.Map) (diffs : List (DiffMap E)) (v u : View E) (us : List (View E))
      → Tracks (cache_of elements diffs) v (u ∷ us)
      → (t : Cache store) × (commit store (cache_of elements diffs) ≡ some t) × Tracks t v us
  commit_law elements [] v u us h = absurd h.1
  commit_law elements (diff ∷ []) v u us h = absurd h.1
  commit_law elements (diff ∷ lower ∷ diffs) v u us (shown, leads) = (
    cache_of elements (merge store diff lower ∷ diffs),
    commit_merged elements diff lower diffs,
    (
      shown,
      Leads-commit undo IsDiff v u diff lower (merge store diff lower) diffs us leads
          (unfold merge in
            merge_absent-DistinctKeys Text-discrete diff lower
              (Leads-IsGood undo IsDiff u lower diffs us leads.2))
          (undo-merge diff lower v),
    ),
  )

  -- The cache with its checkpoints; an operation replaces one element.
  abbrev pub cache_checkpointed : Checkpointed (Cache store) (View E) (Text × E)
  cache_checkpointed = record {
    write = λ w. set_element store w.0 w.1;
    checkpoint = checkpoint store;
    commit = commit store;
    revert = revert store;
    apply = λ w. update w.0 (some w.1);
    Tracks = Tracks;
    write_law = λ w c v us h. write_law w.0 w.1 c.elements c.diffs v us h;
    checkpoint_law = λ c v us h. checkpoint_law c v us h;
    commit_law = λ c v u us h. commit_law c.elements c.diffs v u us h;
    revert_law = λ c v u us h. revert_law c.elements c.diffs v u us h;
  }
