-- ===== src/Kademlia/Xor/Keys.antt =====
-- Public keys and node ids, and padding.
use simple_p2p_blockchain.Common.{
  ℕ, ◌-◌, ◌≤◌, ◌≡◌, arith, Bool, true, false, List, ◌∷◌, ◌++◌, leb, length, replicate,
  length-replicate, length-append, length-take, ok, ◌==◌, Bool-cases, inl, inr, if◌then◌else◌,
}
use simple_p2p_blockchain.Kademlia.Xor.{pk2id, id2pk, zfill}

-- Where `id2pk` makes a public key of a node id, `pk2id` takes it back to the id.
pub pk2id-id2pk : (id pk : List ℕ) → id2pk id ≡ ok pk → pk2id pk ≡ ok id
unfolding id2pk pk2id
pk2id-id2pk id pk e = elim (Bool-cases (length id == 64)) [
  | inl e64 ↦ let made : pk ≡ 4 ∷ id = ground arith in rw made (ground arith)
  | inr other ↦ absurd (ground arith)
]

-- `zfill` returns exactly as many bytes as are asked for, whether it pads or cuts.
pub length-zfill :
    (bytes : List ℕ) (size : ℕ) (leftpad : Bool) → length (zfill bytes size leftpad) ≡ size
unfolding zfill
length-zfill bytes size leftpad = elim (Bool-cases (leb size (length bytes))) [
  | inl long ↦ rw (long, length-take) (ground arith)
  | inr short ↦ rw short (padded leftpad (ground arith))
]
  where
    padded :
        (left : Bool)
        → length bytes ≤ size
        → length (
            if left
            then replicate (size - length bytes) 0 ++ bytes
            else bytes ++ replicate (size - length bytes) 0)
          ≡ size
    padded true h = rw (length-append, length-replicate) (omega arith)
    padded false h = rw (length-append, length-replicate) (omega arith)
