-- ===== src/Tests/Kademlia.antt =====
-- Buckets of one contact, and ids of one byte and of 64 bytes.
use simple_p2p_blockchain.Common.{
  ℕ, List, [], ◌∷◌, ◌≡◌, ◌≤◌, ◌<◌, ◌+◌, ◌^◌, refl, ap₂, arith, subst, Bool, true, false, ◌&&◌, some,
  none, ok, replicate, ◌==◌,
}
use simple_p2p_blockchain.Kademlia.{Contact}
use simple_p2p_blockchain.Kademlia.Bucket.{
  to_array, KBucket, leaf, inner, Event, added, removed, add, add_at, get, remove, find_leaf,
  at_leaf, index_of, goes_right, split, redistribute,
}
use simple_p2p_blockchain.Kademlia.Bucket.Leaves.{DecidesEquality, find}
use simple_p2p_blockchain.Kademlia.Bucket.Adding.{IsValid}
use simple_p2p_blockchain.Kademlia.Bucket.Answers.{OthersSame, Added, remove_lem}
use simple_p2p_blockchain.Kademlia.Bucket.Ends.{add_total}
use simple_p2p_blockchain.Kademlia.Xor.{bucket_index_from_distance, id2pk, pk2id}
use simple_p2p_blockchain.Kademlia.Xor.Distance.{bucket_index_from_distance_lem}
use simple_p2p_blockchain.Kademlia.Xor.Keys.{pk2id-id2pk}

unfoldable same_bytes : List ℕ → List ℕ → Bool
same_bytes [] [] = true
same_bytes [] (y ∷ ys) = false
same_bytes (x ∷ xs) [] = false
same_bytes (x ∷ xs) (y ∷ ys) = (x == y) && same_bytes xs ys

same_bytes_refl : (xs : List ℕ) → same_bytes xs xs ≡ true
unfolding same_bytes
same_bytes_refl [] = refl
same_bytes_refl (x ∷ xs) = ground (arith, same_bytes_refl xs)

same_bytes-eq : (xs ys : List ℕ) → same_bytes xs ys ≡ true → xs ≡ ys
unfolding same_bytes
same_bytes-eq [] [] e = refl
same_bytes-eq [] (y ∷ ys) e = absurd (ground arith)
same_bytes-eq (x ∷ xs) [] e = absurd (ground arith)
same_bytes-eq (x ∷ xs) (y ∷ ys) e = ap₂ ◌∷◌ (ground arith) (same_bytes-eq xs ys (ground arith))

same_bytes-DecidesEquality : DecidesEquality same_bytes
same_bytes-DecidesEquality a b =
    (same_bytes-eq a b, λ e. subst (λ c. same_bytes a c ≡ true) e (same_bytes_refl a))

abbrev contact : ℕ → Contact
contact n = record {
  id = n ∷ [];
  address = none;
  udp_port = some 30303;
  tcp_port = some 30303;
  vector_clock = none;
}

-- A bucket for one contact, which holds that of id 200.
abbrev one_contact : KBucket
one_contact = record {
  local_node_id = 0 ∷ [];
  nodes_per_bucket = 1;
  nodes_to_ping = 3;
  root = leaf (contact 200 ∷ []) false;
}

one_contact-IsValid : IsValid same_bytes same_bytes-DecidesEquality one_contact
one_contact-IsValid = unfold find in (omega arith, (tt, tt), (refl, tt))

-- The contact of id 5 comes after a split.
abbrev after : KBucket
after = record {
  local_node_id = 0 ∷ [];
  nodes_per_bucket = 1;
  nodes_to_ping = 3;
  root = inner (leaf (contact 5 ∷ []) false) (leaf (contact 200 ∷ []) true);
}

add_five : add same_bytes 2 (contact 5) one_contact ≡ some (after, added (contact 5) ∷ [])
unfolding add add_at find_leaf at_leaf index_of goes_right split redistribute same_bytes
add_five = refl

add_total_example :
    (kb' : KBucket) × (events : List Event) × (add same_bytes 9 (contact 5) one_contact
      ≡ some (kb', events))
    × OthersSame same_bytes same_bytes-DecidesEquality (5 ∷ []) one_contact kb'
    × Added same_bytes same_bytes-DecidesEquality (contact 5) one_contact kb' events
add_total_example =
    add_total same_bytes same_bytes-DecidesEquality 1 (contact 5) (refl, (omega arith, tt)) 9
      one_contact one_contact-IsValid (omega arith)
      (unfold to_array in ((refl, (omega arith, tt)), tt)) (omega arith)

remove_lem_example :
    OthersSame same_bytes same_bytes-DecidesEquality
      (200 ∷ [])
      one_contact
      (remove same_bytes (200 ∷ []) one_contact).0
    × (get same_bytes (200 ∷ []) (remove same_bytes (200 ∷ []) one_contact).0 ≡ none)
    × ((remove same_bytes (200 ∷ []) one_contact).1
        ≡ elim (get same_bytes (200 ∷ []) one_contact) as (λ x. List Event) [
          | none ↦ []
          | some c ↦ removed c ∷ []
        ])
remove_lem_example =
    remove_lem same_bytes same_bytes-DecidesEquality (200 ∷ []) one_contact one_contact-IsValid

bucket_index_from_distance_lem_example :
    (2 ^ bucket_index_from_distance 300 512 ≤ 300)
    × (300 < 2 ^ (bucket_index_from_distance 300 512 + 1))
    × (bucket_index_from_distance 300 512 < 512)
bucket_index_from_distance_lem_example =
    bucket_index_from_distance_lem 300 512 (omega arith) (omega arith)

pk2id-id2pk_example : pk2id (4 ∷ replicate 64 9) ≡ ok (replicate 64 9)
pk2id-id2pk_example = pk2id-id2pk (replicate 64 9) (4 ∷ replicate 64 9) (unfold id2pk in refl)
