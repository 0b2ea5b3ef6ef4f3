-- ===== src/Kademlia/Bucket/Ends.antt =====
-- `add` ends: ids of one length are told apart by their bits, so that it splits at most once for each.
use simple_p2p_blockchain.Common.{
  ℕ, zero, suc, ◌+◌, ◌*◌, ◌<◌, ◌≡◌, ◌∙◌, arith, Bool, true, List, [], ◌∷◌, none, some, ltb, length,
  Bool-cases, inl, inr, All,
}
use simple_p2p_blockchain.Kademlia.{Contact}
use simple_p2p_blockchain.Kademlia.Bucket.{find_leaf, to_array, KBucket, Event, add, goes_right}
use simple_p2p_blockchain.Kademlia.Bucket.Bits.{IsId, goes_right_ext}
use simple_p2p_blockchain.Kademlia.Bucket.Depth.{
  find_leaf-SamePath, find_leaf-split, All-find_leaf, All-split,
}
use simple_p2p_blockchain.Kademlia.Bucket.Leaves.{DecidesEquality, find, index_of-cases}
use simple_p2p_blockchain.Kademlia.Bucket.Adding.{AnyId, IsValid}
use simple_p2p_blockchain.Kademlia.Bucket.Answers.{
  OthersSame, Added, add_lem, add-found, add-room, add-ping, add-split, after_split, split_same,
}

module _ (equals : List ℕ → List ℕ → Bool) (spec : DecidesEquality equals) (l : ℕ)
    (contact : Contact) (id : IsId l contact.id) where
  -- A full leaf without the id is not below all the bits.
  not_that_deep :
      (cs : List Contact) (depth : ℕ)
      → 0 < length cs
      → find equals cs contact.id ≡ none
      → All (λ c. IsId l c.id) cs
      → All (λ c. (i : ℕ) → i < depth → goes_right c.id i ≡ goes_right contact.id i) cs
      → depth < 8 * l
  not_that_deep [] depth some_there missing ids path = absurd (omega arith)
  not_that_deep (c ∷ cs) depth some_there missing ids path = elim (Bool-cases (ltb depth (8 * l))) [
    | inl shallow ↦ ground arith
    | inr deep ↦
        let same : c.id ≡ contact.id =
          goes_right_ext l c.id contact.id ids.0 id (λ i h. path.0 i (ground (arith, h))) in
        let hit : equals c.id contact.id ≡ true = (spec c.id contact.id).1 same in
        absurd (unfold find in ground arith)
  ]

  add-some :
      (fuel : ℕ) (kb : KBucket)
      → IsValid equals spec kb
      → 0 < kb.nodes_per_bucket
      → All (λ c. IsId l c.id) (to_array kb.root)
      → 0 < fuel
      → 8 * l < (find_leaf contact.id 0 kb.root).2 + fuel
      → (r : KBucket × List Event) × (add equals fuel contact kb ≡ some r)
  add-some zero kb valid size ids positive enough = absurd (omega arith)
  add-some (suc fuel) kb valid size ids positive enough =
      let cs = (find_leaf contact.id 0 kb.root).0 in
      let depth = (find_leaf contact.id 0 kb.root).2 in
      elim (index_of-cases equals spec cs contact.id) [
        | inr (i, old, hit, at_i, found, same, lt) ↦ (_, add-found equals fuel contact kb i hit)
        | inl (miss, missing) ↦ elim (Bool-cases (ltb (length cs) kb.nodes_per_bucket)) [
          | inl room ↦ (_, add-room equals fuel contact kb miss room)
          | inr full ↦ elim (Bool-cases (find_leaf contact.id 0 kb.root).1) [
            | inl no_split ↦ (_, add-ping equals fuel contact kb miss full no_split)
            | inr may ↦
                let shallow : depth < 8 * l =
                  not_that_deep cs depth (ground arith) missing
                    (All-find_leaf (λ c. IsId l c.id) contact.id 0 kb.root ids)
                    (find_leaf-SamePath equals kb.nodes_per_bucket contact.id 0 kb.root AnyId
                      (λ other p i h. absurd (omega (arith, h))) valid) in
                let (r, e) =
                  add-some fuel (after_split equals zero contact kb)
                    (split_same equals spec contact kb valid).0 size
                    (All-split (λ c. IsId l c.id) kb.local_node_id contact.id 0 kb.root ids)
                    (omega (arith, shallow, enough))
                    (omega
                      (arith, enough, find_leaf-split kb.local_node_id contact.id 0 kb.root)) in
                (r, add-split equals fuel contact kb miss full may ∙ e)
          ]
        ]
      ]

  -- Where equality of ids is decided, the tree is in order, a leaf holds at least one contact and
  -- all ids have one length, `add` with more fuel than an id has bits ends, after however many
  -- splits, with a tree in order in which every other id is answered as before. An id that was
  -- there is answered by the arbiter's choice; one that was not is answered by the contact and
  -- reported added, or stays unanswered and a ping is asked for.
  pub add_total :
      (fuel : ℕ) (kb : KBucket)
      → IsValid equals spec kb
      → 0 < kb.nodes_per_bucket
      → All (λ c. IsId l c.id) (to_array kb.root)
      → 8 * l < fuel
      → (kb' : KBucket) × (events : List Event) × (add equals fuel contact kb ≡ some (kb', events))
        × OthersSame equals spec contact.id kb kb'
        × Added equals spec contact kb kb' events
  add_total fuel kb valid size ids enough =
      let (r, e) =
        add-some fuel kb valid size ids (omega (arith, enough)) (omega (arith, enough)) in
      let (others, answers) = add_lem equals spec contact fuel kb r.0 r.1 valid e in
      (r.0, r.1, e, others, answers)
