-- ===== src/Kademlia/Xor.antt =====
-- packages/kademlia/src/xor.ts: distances of ids, bucket indices, and keys as ids.
pub mod Distance
pub mod Keys
use simple_p2p_blockchain.Common.{
  ℕ, zero, suc, ◌+◌, ◌-◌, ◌*◌, ◌/◌, bit_xor, Bool, List, [], ◌∷◌, ◌++◌, leb, ◌==◌, if◌then◌else◌,
  length, take, drop, replicate, Result, ok, err,
}

-- "Invalid public key length" and "Invalid node ID length", with the length.
pub data KeyError : Type 0 where
  invalid_public_key_length : ℕ → KeyError
  invalid_node_id_length : ℕ → KeyError

unfoldable pub xor : List ℕ → List ℕ → List ℕ
xor [] bs = []
xor (a ∷ rest) [] = []
xor (a ∷ rest) (b ∷ bs) = bit_xor a b ∷ xor rest bs

-- The loop of `bitLength`, a round for each unit of fuel.
unfoldable pub bit_length_loop : ℕ → ℕ → ℕ → ℕ
bit_length_loop zero n bits = bits
bit_length_loop (suc fuel) n bits =
    let rest = bit_length_loop fuel (n / 2) (bits + 1) in if n == 0 then bits else rest

unfoldable pub bit_length : ℕ → ℕ
bit_length n = bit_length_loop n n 0

-- `bucketIndexFromDistance`; `len - 1` is not below 0, the distance not being 0.
unfoldable pub bucket_index_from_distance : ℕ → ℕ → ℕ
bucket_index_from_distance dist id_bits =
    let index = bit_length dist - 1 in
    if dist == 0 then 0 else if leb id_bits index then id_bits - 1 else index

-- `of_hex` is `BigInt('0x' + bytesToUnprefixedHex(bytes))`.
module _ (of_hex : List ℕ → ℕ) where
  unfoldable pub xor_distance_bigint : List ℕ → List ℕ → ℕ
  unfolding xor
  xor_distance_bigint a b = let xored = xor a b in if length xored == 0 then 0 else of_hex xored

  unfoldable pub bucket_index : List ℕ → List ℕ → ℕ → ℕ
  bucket_index self_id other_id id_bits =
      bucket_index_from_distance (xor_distance_bigint self_id other_id) id_bits

unfoldable pub pk2id : List ℕ → Result KeyError (List ℕ)
pk2id pk =
    if length pk == 33
    then ok pk
    else if length pk == 65
    then ok (drop 1 pk)
    else if length pk == 64
    then ok pk
    else err (invalid_public_key_length (length pk))

unfoldable pub id2pk : List ℕ → Result KeyError (List ℕ)
id2pk id = if length id == 64 then ok (4 ∷ id) else err (invalid_node_id_length (length id))

unfoldable pub zfill : List ℕ → ℕ → Bool → List ℕ
zfill bytes size leftpad =
    let pad = replicate (size - length bytes) 0 in
    if leb size (length bytes)
    then take size bytes
    else if leftpad
    then pad ++ bytes
    else bytes ++ pad
