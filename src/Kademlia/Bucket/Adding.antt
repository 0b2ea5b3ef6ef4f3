-- ===== src/Kademlia/Bucket/Adding.antt =====
-- `add`, `get` and `remove` on a tree in order: what each id is answered afterwards.
use simple_p2p_blockchain.Common.{
  ℕ, ◌≤◌, ◌≡◌, refl, ◌∙◌, arith, Bool, true, false, List, Option, none, some, length, get_elem?,
  Bool-cases, inl, inr, All,
}
use simple_p2p_blockchain.Kademlia.{Contact}
use simple_p2p_blockchain.Kademlia.Bucket.{
  Node, leaf, find_leaf, at_leaf, goes_right, split, redistribute, KBucket, index_of, get,
}
use simple_p2p_blockchain.Kademlia.Bucket.Leaves.{
  DecidesEquality, find, Distinct, same_side, find-redistribute, Distinct-redistribute,
  length-redistribute, All-redistribute, index_of-cases,
}
use simple_p2p_blockchain.Kademlia.Bucket.Lookup.{
  WellPlaced, get_in, get_in-at_leaf_self, get_in-at_leaf_other, at_leaf-WellPlaced, find_leaf-leaf,
  find_leaf-right, find_leaf-left,
}

-- Any id may stand below the root.
abbrev pub AnyId : List ℕ → Type 0
AnyId id = Unit

module _ (equals : List ℕ → List ℕ → Bool) (spec : DecidesEquality equals) where
  -- The tree of a bucket is in order.
  abbrev pub IsValid : KBucket → Type 0
  IsValid kb = WellPlaced equals kb.nodes_per_bucket AnyId 0 kb.root

  at_index :
      (cs : List Contact) (id : List ℕ)
      → elim (index_of equals cs id) as (λ x. Option Contact) [
        | none ↦ none
        | some i ↦ get_elem? cs i
      ]
        ≡ find equals cs id
  at_index cs id = elim (index_of-cases equals spec cs id) [
    | inl (e, f) ↦ rw (e, f)
    | inr (i, c, e, g, f, same, lt) ↦ rw (e, f, g)
  ]

  pub get-eq-get_in : (id : List ℕ) (kb : KBucket) → get equals id kb ≡ get_in equals id 0 kb.root
  unfolding get
  get-eq-get_in id kb = at_index (find_leaf id 0 kb.root).0 id

  -- A leaf's contacts replaced, the leaf staying a leaf.
  module _ (k : ℕ) (root : Node) (id : List ℕ) (g : List Contact → List Contact) where
    abbrev pub replaced : Node
    replaced = at_leaf (λ cs ns b. leaf (g cs) ns) id 0 root

    abbrev pub here : List Contact
    here = (find_leaf id 0 root).0

    pub replaced_self : get_in equals id 0 replaced ≡ find equals (g here) id
    replaced_self =
        get_in-at_leaf_self equals (λ cs ns b. leaf (g cs) ns) id 0 root ∙ rw find_leaf-leaf

    pub replaced_other :
        (j : List ℕ)
        → find equals (g here) j ≡ find equals here j
        → get_in equals j 0 replaced ≡ get_in equals j 0 root
    replaced_other j h =
        get_in-at_leaf_other equals (λ cs ns b. leaf (g cs) ns) id j 0 root (rw find_leaf-leaf h)

    pub replaced-WellPlaced :
        length (g here) ≤ k
        → Distinct equals (g here)
        → ((Q : List ℕ → Type 0) → Q id → All (λ c. Q c.id) here → All (λ c. Q c.id) (g here))
        → WellPlaced equals k AnyId 0 root
        → WellPlaced equals k AnyId 0 replaced
    replaced-WellPlaced size once keep h =
        at_leaf-WellPlaced equals (λ cs ns b. leaf (g cs) ns) id k 0 root AnyId tt
          (λ Q q w. (size, keep Q q w.1, once)) h

  -- A split changes no answer, and keeps the order.
  pub get_in-split :
      (local_id j : List ℕ) (cs : List Contact) (bit : ℕ)
      → get_in equals j bit (split local_id cs bit) ≡ find equals cs j
  unfolding split same_side
  get_in-split local_id j cs bit = elim (Bool-cases (goes_right j bit)) [
    | inl right ↦
        rw (find_leaf-right j bit _ _ right, find_leaf-leaf)
          (rw (find-redistribute equals spec true bit cs j, right) refl)
    | inr left ↦
        rw (find_leaf-left j bit _ _ left, find_leaf-leaf)
          (rw (find-redistribute equals spec false bit cs j, left) refl)
  ]

  pub split-WellPlaced :
      (k : ℕ) (local_id : List ℕ) (cs : List Contact) (bit : ℕ) (ns : Bool) (Q : List ℕ → Type 0)
      → WellPlaced equals k Q bit (leaf cs ns)
      → WellPlaced equals k Q bit (split local_id cs bit)
  unfolding split
  split-WellPlaced k local_id cs bit ns Q h = (side false, side true)
    where
      side :
          (s : Bool)
          → (length (redistribute s bit cs) ≤ k)
            × All (λ c. Q c.id × (goes_right c.id bit ≡ s)) (redistribute s bit cs)
            × Distinct equals (redistribute s bit cs)
      side s = (
        omega (arith, length-redistribute equals spec s bit cs, h.0),
        All-redistribute (λ c. Q c.id) s bit cs h.1,
        Distinct-redistribute equals spec s bit cs h.2,
      )
