-- ===== src/Trie/Nibbles/Packing.antt =====
-- Keys to nibbles and back, and the hex prefix of a path.
use simple_p2p_blockchain.Common.{
  ℕ, ◌%◌, ◌<◌, ◌≡◌, refl, arith, Bool, true, false, List, [], ◌∷◌, ◌==◌, length, All, IsByte,
  Bool-cases, inl, inr,
}
use simple_p2p_blockchain.Trie.Nibbles.{
  bytes_to_nibbles, pack_nibbles, add_hex_prefix, set_terminator, remove_hex_prefix, is_terminator,
}

abbrev pub IsNibble : ℕ → Type 0
IsNibble n = n < 16

-- Packing the nibbles of a byte array gives the array back.
pub pack_nibbles-bytes_to_nibbles :
    (bs : List ℕ) → All IsByte bs → pack_nibbles (bytes_to_nibbles bs) ≡ bs
unfolding pack_nibbles bytes_to_nibbles
pack_nibbles-bytes_to_nibbles [] h = refl
pack_nibbles-bytes_to_nibbles (b ∷ bs) h = ground (arith, pack_nibbles-bytes_to_nibbles bs h.1)

-- The nibbles of a packed list of an even number of nibbles are that list.
pub bytes_to_nibbles-pack_nibbles :
    (ns : List ℕ) → All IsNibble ns → length ns % 2 ≡ 0 → bytes_to_nibbles (pack_nibbles ns) ≡ ns
unfolding pack_nibbles bytes_to_nibbles
bytes_to_nibbles-pack_nibbles [] h e = refl
bytes_to_nibbles-pack_nibbles (x ∷ []) h e = absurd (omega arith)
bytes_to_nibbles-pack_nibbles (x ∷ y ∷ ns) h e =
    ground (arith, bytes_to_nibbles-pack_nibbles ns h.1.1 (omega arith))

-- `removeHexPrefix` takes off what `addHexPrefix` put before a path, and `isTerminator` tells the
-- flag that was added.
pub hex_prefix_lem :
    (key : List ℕ) (terminator : Bool)
    → (remove_hex_prefix (add_hex_prefix key terminator) ≡ key)
      × (is_terminator (add_hex_prefix key terminator) ≡ terminator)
unfolding add_hex_prefix set_terminator remove_hex_prefix is_terminator
hex_prefix_lem key true = elim (Bool-cases (length key % 2 == 0)) [
  | inl e ↦ rw e (refl, refl)
  | inr e ↦ rw e (refl, refl)
]
hex_prefix_lem key false = elim (Bool-cases (length key % 2 == 0)) [
  | inl e ↦ rw e (refl, refl)
  | inr e ↦ rw e (refl, refl)
]
