-- ===== src/State/StorageCache/Views.antt =====
-- What the storage cache shows, and how its differences lead back to its checkpoints.
use simple_p2p_blockchain.Common.{
  ℕ, List, [], ◌∷◌, Option, none, some, Text, Text-discrete, ◌≡◌, refl, arith, if◌then◌else◌,
  Bool-cases, inl, inr,
}
use simple_p2p_blockchain.Common.Maps
use simple_p2p_blockchain.Common.Maps.{
  same, same→eq, same_refl, get-nil, get-set, get-delete, or_else, DistinctKeys, set-DistinctKeys,
  get-merge_absent, merge_absent-DistinctKeys,
}
use simple_p2p_blockchain.State.StorageCache.{DiffStorageMap, DiffMap, or_new}

abbrev pub View : Type 0
View = Text → Text → Option (List ℕ)

abbrev pub update : Text → Text → Option (List ℕ) → View → View
update address key value f a k =
    if same Text-discrete address a
    then (if same Text-discrete key k then value else f a k)
    else f a k

-- What the differences hold for a slot.
unfoldable pub old_at : DiffMap → Text → Text → Option (Option (List ℕ))
old_at diff a k = Maps.get Text-discrete k (or_new (Maps.get Text-discrete a diff))

-- The view before the changes that a map of differences records.
abbrev pub undo : DiffMap → View → View
undo diff f a k = elim (old_at diff a k) [ none ↦ f a k | some old ↦ old ]

-- Each address once, and in each map each key once.
abbrev pub IsDiff : DiffMap → Type 0
IsDiff [] = Unit
IsDiff ((address, slots) ∷ diff) =
    (Maps.get Text-discrete address diff ≡ none) × DistinctKeys Text-discrete slots × IsDiff diff

pub or_new-DistinctKeys :
    (diff : DiffMap) (a : Text)
    → IsDiff diff
    → DistinctKeys Text-discrete (or_new (Maps.get Text-discrete a diff))
unfolding Maps.get
or_new-DistinctKeys [] a h = tt
or_new-DistinctKeys ((address, slots) ∷ diff) a h =
    elim (Bool-cases (same Text-discrete address a)) [
      | inl hit ↦ rw hit h.1
      | inr miss ↦ rw miss (or_new-DistinctKeys diff a h.2)
    ]

pub set-IsDiff :
    (address : Text) (slots : DiffStorageMap) (diff : DiffMap)
    → IsDiff diff
    → DistinctKeys Text-discrete slots
    → IsDiff (Maps.set Text-discrete address slots diff)
unfolding Maps.set
set-IsDiff address slots [] h k = (get-nil Text-discrete address, k, tt)
set-IsDiff address slots ((j, m) ∷ diff) h k = elim (Bool-cases (same Text-discrete j address)) [
  | inl hit ↦ rw hit (h.0, k, h.2)
  | inr miss ↦ rw miss (
    ground (
      arith,
      get-set Text-discrete address j slots diff,
      same→eq Text-discrete address j,
      same_refl Text-discrete j,
      h.0,
    ),
    h.1,
    set-IsDiff address slots diff h.2 k,
  )
]

pub old_at-set :
    (address : Text) (slots : DiffStorageMap) (diff : DiffMap) (a k : Text)
    → old_at (Maps.set Text-discrete address slots diff) a k
      ≡ (if same Text-discrete address a then Maps.get Text-discrete k slots else old_at diff a k)
unfolding old_at
old_at-set address slots diff a k = ground (arith, get-set Text-discrete address a slots diff)

pub old_at-eq :
    (diff : DiffMap) (a k : Text)
    → old_at diff a k ≡ Maps.get Text-discrete k (or_new (Maps.get Text-discrete a diff))
unfolding old_at
old_at-eq diff a k = refl

pub old_at-entry :
    (address : Text) (slots : DiffStorageMap) (diff : DiffMap) (a k : Text)
    → old_at ((address, slots) ∷ diff) a k
      ≡ (if same Text-discrete address a then Maps.get Text-discrete k slots else old_at diff a k)
unfolding old_at Maps.get
old_at-entry address slots diff a k = ground arith

pub old_at_empty : (a k : Text) → old_at [] a k ≡ none
unfolding old_at Maps.get
old_at_empty a k = refl
