-- ===== src/Kademlia/Bucket/Depth.antt =====
-- How deep `add` splits: the contacts of a leaf have the bits of the path, so that ids of one length
-- are told apart before their bits end.
use simple_p2p_blockchain.Common.{
  ℕ, ◌+◌, ◌<◌, ◌≡◌, refl, sym, ◌∙◌, arith, Bool, true, false, List, [], ◌∷◌, ◌++◌, ltb, Bool-cases,
  inl, inr, All, All-append,
}
use simple_p2p_blockchain.Kademlia.{Contact}
use simple_p2p_blockchain.Kademlia.Bucket.{
  Node, leaf, inner, find_leaf, at_leaf, goes_right, split, redistribute, to_array,
}
use simple_p2p_blockchain.Kademlia.Bucket.Leaves.{All-redistribute}
use simple_p2p_blockchain.Kademlia.Bucket.Lookup.{
  WellPlaced, find_leaf-leaf, find_leaf-right, find_leaf-left, at_leaf-right, at_leaf-left,
  at_leaf-leaf,
}

abbrev SamePath : List ℕ → ℕ → List ℕ → Type 0
SamePath id n other = (i : ℕ) → i < n → goes_right other i ≡ goes_right id i

All-map :
    {P Q : Contact → Type 0} (cs : List Contact) → ((c : Contact) → P c → Q c) → All P cs → All Q cs
All-map [] f h = tt
All-map (c ∷ cs) f h = (f c h.0, All-map cs f h.1)

longer_path :
    (id other : List ℕ) (n : ℕ)
    → SamePath id n other
    → goes_right other n ≡ goes_right id n
    → SamePath id (n + 1) other
longer_path id other n h e i hi = elim (Bool-cases (ltb i n)) [
  | inl below ↦ h i (ground arith)
  | inr last ↦ let same : i ≡ n = ground arith in rw same e
]

pub find_leaf-SamePath :
    (equals : List ℕ → List ℕ → Bool) (k : ℕ) (id : List ℕ) (bit : ℕ) (node : Node)
    (P : List ℕ → Type 0)
    → ((other : List ℕ) → P other → SamePath id bit other)
    → WellPlaced equals k P bit node
    → All (λ c. SamePath id (find_leaf id bit node).2 c.id) (find_leaf id bit node).0
find_leaf-SamePath equals k id bit (leaf cs ns) P f h =
    rw find_leaf-leaf (All-map cs (λ c p. f c.id p) h.1)
find_leaf-SamePath equals k id bit (inner l r) P f h = elim (Bool-cases (goes_right id bit)) [
  | inl right ↦ rw (find_leaf-right id bit l r right) (
      find_leaf-SamePath equals k id (bit + 1) r _
        (λ other p. longer_path id other bit (f other p.0) (p.1 ∙ sym right)) h.1)
  | inr left ↦ rw (find_leaf-left id bit l r left) (
      find_leaf-SamePath equals k id (bit + 1) l _
        (λ other p. longer_path id other bit (f other p.0) (p.1 ∙ sym left)) h.0)
]

-- A split leaves the id one bit deeper.
pub find_leaf-split :
    (local_id id : List ℕ) (bit : ℕ) (node : Node)
    → (find_leaf id bit (at_leaf (λ cs ns b. split local_id cs b) id bit node)).2
      ≡ (find_leaf id bit node).2 + 1
unfolding split
find_leaf-split local_id id bit (leaf cs ns) =
    rw (at_leaf-leaf, find_leaf-leaf)
      (elim (Bool-cases (goes_right id bit)) [
        | inl right ↦ rw (find_leaf-right id bit _ _ right, find_leaf-leaf) refl
        | inr left ↦ rw (find_leaf-left id bit _ _ left, find_leaf-leaf) refl
      ])
find_leaf-split local_id id bit (inner l r) = elim (Bool-cases (goes_right id bit)) [
  | inl right ↦
      rw
        (
          at_leaf-right id bit l r _ right,
          find_leaf-right id bit l r right,
          find_leaf-right id bit l (at_leaf (λ cs ns b. split local_id cs b) id (bit + 1) r) right,
        )
        (find_leaf-split local_id id (bit + 1) r)
  | inr left ↦
      rw
        (
          at_leaf-left id bit l r _ left,
          find_leaf-left id bit l r left,
          find_leaf-left id bit (at_leaf (λ cs ns b. split local_id cs b) id (bit + 1) l) r left,
        )
        (find_leaf-split local_id id (bit + 1) l)
]

module _ (P : Contact → Type 0) where
  All-left : (xs ys : List Contact) → All P (xs ++ ys) → All P xs
  All-left [] ys h = tt
  All-left (x ∷ xs) ys h = (h.0, All-left xs ys h.1)

  All-right : (xs ys : List Contact) → All P (xs ++ ys) → All P ys
  All-right [] ys h = h
  All-right (x ∷ xs) ys h = All-right xs ys h.1

  pub All-find_leaf :
      (id : List ℕ) (bit : ℕ) (node : Node)
      → All P (to_array node)
      → All P (find_leaf id bit node).0
  unfolding to_array
  All-find_leaf id bit (leaf cs ns) h = rw find_leaf-leaf h
  All-find_leaf id bit (inner l r) h = elim (Bool-cases (goes_right id bit)) [
    | inl right ↦
        rw (find_leaf-right id bit l r right)
          (All-find_leaf id (bit + 1) r (All-right (to_array l) (to_array r) h))
    | inr left ↦
        rw (find_leaf-left id bit l r left)
          (All-find_leaf id (bit + 1) l (All-left (to_array l) (to_array r) h))
  ]

  pub All-split :
      (local_id id : List ℕ) (bit : ℕ) (node : Node)
      → All P (to_array node)
      → All P (to_array (at_leaf (λ cs ns b. split local_id cs b) id bit node))
  unfolding to_array split
  All-split local_id id bit (leaf cs ns) h = rw at_leaf-leaf (
      All-append P (redistribute false bit cs) (redistribute true bit cs)
        (All-map _ (λ c p. p.0) (All-redistribute P false bit cs h))
        (All-map _ (λ c p. p.0) (All-redistribute P true bit cs h)))
  All-split local_id id bit (inner l r) h =
      let before = All-left (to_array l) (to_array r) h in
      let behind = All-right (to_array l) (to_array r) h in
      elim (Bool-cases (goes_right id bit)) [
        | inl right ↦
            rw (at_leaf-right id bit l r _ right)
              (All-append P (to_array l) _ before (All-split local_id id (bit + 1) r behind))
        | inr left ↦
            rw (at_leaf-left id bit l r _ left)
              (All-append P _ (to_array r) (All-split local_id id (bit + 1) l before) behind)
      ]
