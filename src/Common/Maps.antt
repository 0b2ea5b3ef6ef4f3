-- ===== src/Common/Maps.antt =====
-- A JavaScript `Map` as an association list in insertion order, over keys with decidable equality.
use mathlib.Core.Path.{◌≡◌, refl}
use mathlib.Core.Bool.{Bool, true, false}
use mathlib.Core.Option.{Option, none, some}
use mathlib.Core.List.{List, [], ◌∷◌}
use native.Mathlib.Omega.{arith}
use mathlib.Core.Logic.{◌⊎◌, inl, inr}
use simple_p2p_blockchain.Common.Tests.{if◌then◌else◌, Bool-cases, Option-cases}

abbrev pub Map {ℓ κ} : Type ℓ → Type κ → Type (ℓ ⊔ κ)
Map K V = List (K × V)

-- `a === b`
unfoldable pub same {ℓ} : {K : Type ℓ} → Discrete K → K → K → Bool
same d a b = elim (d a b) [ yes _ ↦ true | no _ ↦ false ]

module _ {ℓ} {K : Type ℓ} (d : Discrete K) where
  pub same_refl : (a : K) → same d a a ≡ true
  unfolding same
  same_refl a = ground (arith, d a a)

  pub same→eq : (a b : K) → same d a b ≡ true → a ≡ b
  unfolding same
  same→eq a b h = ground (arith, d a b)

module _ {ℓ κ} {K : Type ℓ} {V : Type κ} (d : Discrete K) where
  unfoldable pub get : K → Map K V → Option V
  get k [] = none
  get k ((j, v) ∷ m) = if same d j k then some v else get k m

  -- An entry keeps its place; a new one comes last.
  unfoldable pub set : K → V → Map K V → Map K V
  set k v [] = (k, v) ∷ []
  set k v ((j, w) ∷ m) = let rest = set k v m in if same d j k then (j, v) ∷ m else (j, w) ∷ rest

  unfoldable pub delete : K → Map K V → Map K V
  delete k [] = []
  delete k ((j, v) ∷ m) = let rest = delete k m in if same d j k then rest else (j, v) ∷ rest

  pub get-nil : (k : K) → get k [] ≡ none
  unfolding get
  get-nil k = refl

  pub get-set :
      (k j : K) (v : V) (m : Map K V) → get j (set k v m) ≡ (if same d k j then some v else get j m)
  unfolding get set
  get-set k j v [] = refl
  get-set k j v ((i, w) ∷ m) = ground (
    arith,
    get-set k j v m,
    same→eq d i k,
    same→eq d k j,
    same→eq d i j,
    same_refl d k,
    same_refl d j,
  )

  pub get-delete :
      (k j : K) (m : Map K V) → get j (delete k m) ≡ (if same d k j then none else get j m)
  unfolding get delete
  get-delete k j [] = ground arith
  get-delete k j ((i, w) ∷ m) = ground (
    arith,
    get-delete k j m,
    same→eq d i k,
    same→eq d k j,
    same→eq d i j,
    same_refl d k,
    same_refl d j,
  )

  -- No key has two entries.
  abbrev pub DistinctKeys : Map K V → Type (ℓ ⊔ κ)
  DistinctKeys [] = Unit
  DistinctKeys ((j, v) ∷ m) = (get j m ≡ none) × DistinctKeys m

  pub set-DistinctKeys : (k : K) (v : V) (m : Map K V) → DistinctKeys m → DistinctKeys (set k v m)
  unfolding set
  set-DistinctKeys k v [] h = (get-nil k, tt)
  set-DistinctKeys k v ((j, w) ∷ m) h = elim (Bool-cases (same d j k)) [
    | inl hit ↦ rw hit h
    | inr miss ↦ rw miss (
      ground (arith, get-set k j v m, same→eq d k j, same→eq d j k, same_refl d j, h.0),
      set-DistinctKeys k v m h.1,
    )
  ]

  -- `if (!map.has(k)) map.set(k, v)`
  unfoldable pub set_absent : K → V → Map K V → Map K V
  set_absent k v m = elim (get k m) [ none ↦ set k v m | some w ↦ m ]

  abbrev pub or_else : Option V → Option V → Option V
  or_else none b = b
  or_else (some a) b = some a

  set_absent-cases :
      (k : K) (v : V) (m : Map K V)
      → ((get k m ≡ none) × (set_absent k v m ≡ set k v m))
        ⊎ ((w : V) × (get k m ≡ some w) × (set_absent k v m ≡ m))
  unfolding set_absent
  set_absent-cases k v m = elim (Option-cases (get k m)) [
    | inl miss ↦ inl (miss, ground arith)
    | inr (w, hit) ↦ inr (w, hit, ground arith)
  ]

  pub get-set_absent :
      (k j : K) (v : V) (m : Map K V)
      → get j (set_absent k v m) ≡ or_else (get j m) (if same d k j then some v else none)
  get-set_absent k j v m = elim (set_absent-cases k v m) [
    | inl (miss, e) ↦ rw e (ground (arith, get-set k j v m, same→eq d k j, miss))
    | inr (w, hit, e) ↦ rw e (ground (arith, same→eq d k j, hit))
  ]

  pub set_absent-DistinctKeys :
      (k : K) (v : V) (m : Map K V) → DistinctKeys m → DistinctKeys (set_absent k v m)
  set_absent-DistinctKeys k v m h = elim (set_absent-cases k v m) [
    | inl (miss, e) ↦ rw e (set-DistinctKeys k v m h)
    | inr (w, hit, e) ↦ rw e h
  ]

  -- A loop over `upper` of `set_absent` in `lower`.
  unfoldable pub merge_absent : Map K V → Map K V → Map K V
  merge_absent [] lower = lower
  merge_absent ((k, v) ∷ upper) lower = merge_absent upper (set_absent k v lower)

  pub merge_absent-DistinctKeys :
      (upper lower : Map K V) → DistinctKeys lower → DistinctKeys (merge_absent upper lower)
  unfolding merge_absent
  merge_absent-DistinctKeys [] lower h = h
  merge_absent-DistinctKeys ((k, v) ∷ upper) lower h =
      merge_absent-DistinctKeys upper (set_absent k v lower) (set_absent-DistinctKeys k v lower h)

  pub get-merge_absent :
      (upper lower : Map K V) (j : K)
      → get j (merge_absent upper lower) ≡ or_else (get j lower) (get j upper)
  unfolding merge_absent get
  get-merge_absent [] lower j = ground arith
  get-merge_absent ((k, v) ∷ upper) lower j =
      ground (arith, get-merge_absent upper (set_absent k v lower) j, get-set_absent k j v lower)
