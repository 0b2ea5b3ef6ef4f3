-- ===== src/Kademlia/Bucket/Lookup.antt =====
-- The tree: each contact stands where its id leads, and a change of one leaf is one of its ids.
use simple_p2p_blockchain.Common.{
  ℕ, ◌+◌, ◌≤◌, ◌≡◌, refl, Bool, true, false, List, Option, length, Bool-cases, inl, inr, All,
}
use simple_p2p_blockchain.Kademlia.{Contact}
use simple_p2p_blockchain.Kademlia.Bucket.{Node, leaf, inner, find_leaf, at_leaf, goes_right}
use simple_p2p_blockchain.Kademlia.Bucket.Leaves.{find, Distinct}

module _ (equals : List ℕ → List ℕ → Bool) where
  -- What stands below a node: full leaves at most, each id once, and only ids with the bits of the
  -- path, which `P` collects.
  abbrev pub WellPlaced : ℕ → (List ℕ → Type 0) → ℕ → Node → Type 0
  WellPlaced k P bit (leaf cs no_split) =
      (length cs ≤ k) × All (λ c. P c.id) cs × Distinct equals cs
  WellPlaced k P bit (inner left right) =
      WellPlaced k (λ id. P id × (goes_right id bit ≡ false)) (bit + 1) left
      × WellPlaced k (λ id. P id × (goes_right id bit ≡ true)) (bit + 1) right

  -- The contact that the tree holds for an id.
  abbrev pub get_in : List ℕ → ℕ → Node → Option Contact
  get_in id bit node = find equals (find_leaf id bit node).0 id

module _ (id : List ℕ) (bit : ℕ) (l r : Node) where
  pub find_leaf-right :
      goes_right id bit ≡ true → find_leaf id bit (inner l r) ≡ find_leaf id (bit + 1) r
  unfolding find_leaf
  find_leaf-right e = rw e

  pub find_leaf-left :
      goes_right id bit ≡ false → find_leaf id bit (inner l r) ≡ find_leaf id (bit + 1) l
  unfolding find_leaf
  find_leaf-left e = rw e

  module _ (f : List Contact → Bool → ℕ → Node) where
    pub at_leaf-right :
        goes_right id bit ≡ true → at_leaf f id bit (inner l r) ≡ inner l (at_leaf f id (bit + 1) r)
    unfolding at_leaf
    at_leaf-right e = rw e

    pub at_leaf-left :
        goes_right id bit ≡ false
        → at_leaf f id bit (inner l r) ≡ inner (at_leaf f id (bit + 1) l) r
    unfolding at_leaf
    at_leaf-left e = rw e

pub find_leaf-leaf :
    (id : List ℕ) (bit : ℕ) (cs : List Contact) (ns : Bool)
    → find_leaf id bit (leaf cs ns) ≡ (cs, ns, bit)
unfolding find_leaf
find_leaf-leaf id bit cs ns = refl

pub at_leaf-leaf :
    (f : List Contact → Bool → ℕ → Node) (id : List ℕ) (bit : ℕ) (cs : List Contact) (ns : Bool)
    → at_leaf f id bit (leaf cs ns) ≡ f cs ns bit
unfolding at_leaf
at_leaf-leaf f id bit cs ns = refl

pub find_leaf-WellPlaced :
    (equals : List ℕ → List ℕ → Bool) (k : ℕ) (id : List ℕ) (bit : ℕ) (node : Node)
    (P : List ℕ → Type 0)
    → WellPlaced equals k P bit node
    → (length (find_leaf id bit node).0 ≤ k) × Distinct equals (find_leaf id bit node).0
find_leaf-WellPlaced equals k id bit (leaf cs ns) P h = rw find_leaf-leaf (h.0, h.2)
find_leaf-WellPlaced equals k id bit (inner l r) P h = elim (Bool-cases (goes_right id bit)) [
  | inl right ↦
      rw (find_leaf-right id bit l r right) (find_leaf-WellPlaced equals k id (bit + 1) r _ h.1)
  | inr left ↦
      rw (find_leaf-left id bit l r left) (find_leaf-WellPlaced equals k id (bit + 1) l _ h.0)
]

module _ (equals : List ℕ → List ℕ → Bool) (f : List Contact → Bool → ℕ → Node) (id : List ℕ) where
  abbrev pub changed : ℕ → Node → Node
  changed bit node = let (cs, ns, b) = find_leaf id bit node in f cs ns b

  -- The id of the changed leaf sees the change.
  pub get_in-at_leaf_self :
      (bit : ℕ) (node : Node)
      → get_in equals id bit (at_leaf f id bit node)
        ≡ get_in equals id (find_leaf id bit node).2 (changed bit node)
  get_in-at_leaf_self bit (leaf cs ns) = rw (at_leaf-leaf, find_leaf-leaf)
  get_in-at_leaf_self bit (inner l r) = elim (Bool-cases (goes_right id bit)) [
    | inl right ↦
        rw
          (
            at_leaf-right id bit l r f right,
            find_leaf-right id bit l r right,
            find_leaf-right id bit l (at_leaf f id (bit + 1) r) right,
          )
          (get_in-at_leaf_self (bit + 1) r)
    | inr left ↦
        rw
          (
            at_leaf-left id bit l r f left,
            find_leaf-left id bit l r left,
            find_leaf-left id bit (at_leaf f id (bit + 1) l) r left,
          )
          (get_in-at_leaf_self (bit + 1) l)
  ]

  -- An id for which the changed leaf answers as before is not affected anywhere.
  pub get_in-at_leaf_other :
      (j : List ℕ) (bit : ℕ) (node : Node)
      → get_in equals j (find_leaf id bit node).2 (changed bit node)
        ≡ find equals (find_leaf id bit node).0 j
      → get_in equals j bit (at_leaf f id bit node) ≡ get_in equals j bit node
  get_in-at_leaf_other j bit (leaf cs ns) h =
      rw (at_leaf-leaf, find_leaf-leaf) (rw find_leaf-leaf at h)
  get_in-at_leaf_other j bit (inner l r) h = elim (Bool-cases (goes_right id bit)) [
    | inl right ↦ rw (at_leaf-right id bit l r f right) (elim (Bool-cases (goes_right j bit)) [
      | inl right' ↦
          rw (find_leaf-right j bit l r right', find_leaf-right j bit l _ right')
            (get_in-at_leaf_other j (bit + 1) r (rw (find_leaf-right id bit l r right) at h))
      | inr left' ↦ rw (find_leaf-left j bit l r left', find_leaf-left j bit l _ left')
    ])
    | inr left ↦ rw (at_leaf-left id bit l r f left) (elim (Bool-cases (goes_right j bit)) [
      | inl right' ↦ rw (find_leaf-right j bit l r right', find_leaf-right j bit _ r right')
      | inr left' ↦
          rw (find_leaf-left j bit l r left', find_leaf-left j bit _ r left')
            (get_in-at_leaf_other j (bit + 1) l (rw (find_leaf-left id bit l r left) at h))
    ])
  ]

  -- A change that keeps its leaf in order keeps the tree in order.
  pub at_leaf-WellPlaced :
      (k : ℕ) (bit : ℕ) (node : Node) (P : List ℕ → Type 0)
      → P id
      → ((Q : List ℕ → Type 0)
          → Q id
          → WellPlaced equals k Q
              (find_leaf id bit node).2
              (leaf (find_leaf id bit node).0 (find_leaf id bit node).1)
          → WellPlaced equals k Q (find_leaf id bit node).2 (changed bit node))
      → WellPlaced equals k P bit node
      → WellPlaced equals k P bit (at_leaf f id bit node)
  at_leaf-WellPlaced k bit (leaf cs ns) P p keep h =
      rw at_leaf-leaf ((rw find_leaf-leaf at keep) P p h)
  at_leaf-WellPlaced k bit (inner l r) P p keep h = elim (Bool-cases (goes_right id bit)) [
    | inl right ↦ rw (at_leaf-right id bit l r f right) (
      h.0,
      at_leaf-WellPlaced k (bit + 1) r _ (p, right) (rw (find_leaf-right id bit l r right) at keep)
          h.1,
    )
    | inr left ↦ rw (at_leaf-left id bit l r f left) (
      at_leaf-WellPlaced k (bit + 1) l _ (p, left) (rw (find_leaf-left id bit l r left) at keep)
          h.0,
      h.1,
    )
  ]
