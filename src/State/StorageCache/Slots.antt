-- ===== src/State/StorageCache/Slots.antt =====
-- What each loop of the storage cache does to what it shows.
use simple_p2p_blockchain.Common.{
  ℕ, List, [], ◌∷◌, Option, none, some, Text, Text-discrete, ◌≡◌, refl, arith, fun_ext,
  if◌then◌else◌, Option-cases, inl, inr, ◌⊎◌,
}
use simple_p2p_blockchain.Common.Maps
use simple_p2p_blockchain.Common.Maps.{
  same, same→eq, same_refl, get-nil, get-set, get-delete, or_else, DistinctKeys, set-DistinctKeys,
  get-merge_absent, merge_absent-DistinctKeys,
}
use simple_p2p_blockchain.State.{CacheStore}
use simple_p2p_blockchain.State.StorageCache.{
  StorageMap, DiffStorageMap, DiffMap, or_new, get_in, save_in, set_slot, restore, restore_slots,
  restore_all, merge,
}
use simple_p2p_blockchain.State.StorageCache.Views.{
  View, update, old_at, undo, IsDiff, or_new-DistinctKeys, set-IsDiff, old_at-set, old_at-eq,
  old_at-entry, old_at_empty,
}

module _ (store : CacheStore StorageMap) where
  abbrev pub view : store.Map → View
  view elements address key = get_in store elements address key

  get_in-eq :
      (elements : store.Map) (a k : Text)
      → get_in store elements a k ≡ Maps.get Text-discrete k (or_new (store.get elements a))
  unfolding get_in
  get_in-eq elements a k = elim (Option-cases (store.get elements a)) [
    | inl miss ↦ ground (arith, get-nil {V = List ℕ} Text-discrete k)
    | inr (m, hit) ↦ ground arith
  ]

  get_in-set :
      (address : Text) (m : StorageMap) (elements : store.Map) (a k : Text)
      → get_in store (store.set elements address m) a k ≡ (
          if same Text-discrete address a
          then Maps.get Text-discrete k m
          else get_in store elements a k)
  get_in-set address m elements a k = ground (
    arith,
    get_in-eq (store.set elements address m) a k,
    get_in-eq elements a k,
    store.get-set elements address a m,
  )

  pub view-set_slot :
      (address key : Text) (value : List ℕ) (elements : store.Map) (a k : Text)
      → view (set_slot store address key value elements) a k
        ≡ update address key (some value) (view elements) a k
  unfolding set_slot
  view-set_slot address key value elements a k = ground (
    arith,
    get_in-set address (Maps.set Text-discrete key value (or_new (store.get elements address)))
        elements a k,
    get-set Text-discrete key k value (or_new (store.get elements address)),
    get_in-eq elements address k,
    same→eq Text-discrete address a,
  )

  view-restore :
      (address key : Text) (old : Option (List ℕ)) (elements : store.Map) (a k : Text)
      → view (restore store address key old elements) a k
        ≡ update address key old (view elements) a k
  view-restore address key none elements a k =
      unfold restore in
      ground (
        arith,
        get_in-set address (Maps.delete Text-discrete key (or_new (store.get elements address)))
            elements a k,
        get-delete Text-discrete key k (or_new (store.get elements address)),
        get_in-eq elements address k,
        same→eq Text-discrete address a,
      )
  view-restore address key (some value) elements a k =
      unfold restore in view-set_slot address key value elements a k

  save_in-cases :
      (address key : Text) (elements : store.Map) (diff : DiffMap)
      → ((old_at diff address key ≡ none)
          × (save_in store address key elements diff
              ≡ Maps.set Text-discrete address
                  (Maps.set Text-discrete key
                    (get_in store elements address key)
                    (or_new (Maps.get Text-discrete address diff)))
                  diff))
        ⊎ ((old : Option (List ℕ)) × (old_at diff address key ≡ some old)
            × (save_in store address key elements diff ≡ diff))
  unfolding save_in old_at
  save_in-cases address key elements diff =
      elim (Option-cases
        (Maps.get Text-discrete key (or_new (Maps.get Text-discrete address diff)))) [
          | inl miss ↦ inl (miss, ground arith)
          | inr (old, hit) ↦ inr (old, hit, ground arith)
        ]

  pub save_in-IsDiff :
      (address key : Text) (elements : store.Map) (diff : DiffMap)
      → IsDiff diff
      → IsDiff (save_in store address key elements diff)
  save_in-IsDiff address key elements diff h = elim (save_in-cases address key elements diff) [
    | inl (miss, e) ↦ rw e (
        set-IsDiff address _ diff h
          (set-DistinctKeys Text-discrete key _ _ (or_new-DistinctKeys diff address h)))
    | inr (old, hit, e) ↦ rw e h
  ]

  pub undo-save_in :
      (address key : Text) (value : List ℕ) (elements : store.Map) (diff : DiffMap)
      → undo
          (save_in store address key elements diff)
          (view (set_slot store address key value elements))
        ≡ undo diff (view elements)
  undo-save_in address key value elements diff = fun_ext (λ a. fun_ext (λ k. at a k))
    where
      at :
          (a k : Text)
          → undo
              (save_in store address key elements diff)
              (view (set_slot store address key value elements))
              a
              k
            ≡ undo diff (view elements) a k
      at a k = elim (save_in-cases address key elements diff) [
        | inl (miss, e) ↦ rw e (
            ground (
              arith,
              view-set_slot address key value elements a k,
              old_at-set address
                  (Maps.set Text-discrete key (get_in store elements address key)
                    (or_new (Maps.get Text-discrete address diff)))
                  diff a k,
              get-set Text-discrete key k (get_in store elements address key)
                  (or_new (Maps.get Text-discrete address diff)),
              same→eq Text-discrete address a,
              same→eq Text-discrete key k,
              old_at-eq diff a k,
              miss,
            ))
        | inr (old, hit, e) ↦ rw e (
            ground (
              arith,
              view-set_slot address key value elements a k,
              same→eq Text-discrete address a,
              same→eq Text-discrete key k,
              hit,
            ))
      ]

  view-restore_slots :
      (address : Text) (slots : DiffStorageMap) (elements : store.Map)
      → DistinctKeys Text-discrete slots
      → (a k : Text)
      → view (restore_slots store address slots elements) a k ≡ (
          if same Text-discrete address a
          then elim (Maps.get Text-discrete k slots) as (λ x. Option (List ℕ)) [
            | none ↦ view elements a k
            | some old ↦ old
          ]
          else view elements a k)
  unfolding restore_slots Maps.get
  view-restore_slots address [] elements h a k = ground arith
  view-restore_slots address ((key, old) ∷ slots) elements h a k = ground (
    arith,
    view-restore_slots address slots (restore store address key old elements) h.1 a k,
    view-restore address key old elements a k,
    same→eq Text-discrete key k,
    h.0,
  )

  old_at-none :
      (diff : DiffMap) (a k : Text) → Maps.get Text-discrete a diff ≡ none → old_at diff a k ≡ none
  unfolding old_at
  old_at-none diff a k h = rw h (get-nil {V = Option (List ℕ)} Text-discrete k)

  pub view-restore_all :
      (diff : DiffMap) (elements : store.Map)
      → IsDiff diff
      → (a k : Text) → view (restore_all store diff elements) a k ≡ undo diff (view elements) a k
  unfolding restore_all
  view-restore_all [] elements h a k = unfold old_at Maps.get in refl
  view-restore_all ((address, slots) ∷ diff) elements h a k = ground (
    arith,
    view-restore_all diff (restore_slots store address slots elements) h.2 a k,
    view-restore_slots address slots elements h.1 a k,
    old_at-entry address slots diff a k,
    old_at-none diff address k h.0,
    same→eq Text-discrete address a,
  )

  old_at-merge :
      (diff lower : DiffMap)
      → IsDiff diff
      → (a k : Text)
      → old_at (merge store diff lower) a k
        ≡ or_else Text-discrete (old_at lower a k) (old_at diff a k)
  unfolding merge
  old_at-merge [] lower h a k = ground (arith, old_at_empty a k)
  old_at-merge ((address, slots) ∷ diff) lower h a k = ground (
    arith,
    old_at-merge diff
        (Maps.set Text-discrete address
          (Maps.merge_absent Text-discrete slots (or_new (Maps.get Text-discrete address lower)))
          lower)
        h.2 a k,
    old_at-set address
        (Maps.merge_absent Text-discrete slots (or_new (Maps.get Text-discrete address lower)))
        lower a k,
    get-merge_absent Text-discrete slots (or_new (Maps.get Text-discrete address lower)) k,
    old_at-eq lower address k,
    old_at-entry address slots diff a k,
    old_at-none diff address k h.0,
    same→eq Text-discrete address a,
  )

  pub merge-IsDiff :
      (diff lower : DiffMap) → IsDiff diff → IsDiff lower → IsDiff (merge store diff lower)
  unfolding merge
  merge-IsDiff [] lower h k = k
  merge-IsDiff ((address, slots) ∷ diff) lower h k = merge-IsDiff diff _ h.2 (
      set-IsDiff address _ lower k
        (merge_absent-DistinctKeys Text-discrete slots _ (or_new-DistinctKeys lower address k)))

  pub undo-merge :
      (diff lower : DiffMap) (f : View)
      → IsDiff diff
      → undo (merge store diff lower) f ≡ undo lower (undo diff f)
  undo-merge diff lower f h =
      fun_ext (λ a. fun_ext (λ k. ground (arith, old_at-merge diff lower h a k)))
