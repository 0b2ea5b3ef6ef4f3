-- ===== src/Tests/Trie.antt =====
-- The trie's key encodings.
use simple_p2p_blockchain.Common.{
  ℕ, List, [], ◌∷◌, ◌≡◌, ◌≢◌, ◌⊎◌, ◌≤◌, arith, true, ok, none, length, take, get_elem?,
}
use simple_p2p_blockchain.Trie.Nibbles.{nibbles_compare, matching_nibble_length}
use simple_p2p_blockchain.Trie.Nibbles.Order.{
  lexicographic, nibbles_compare-eq-lexicographic, matching_nibble_length_lem,
}
use simple_p2p_blockchain.Trie.Compact.{
  hex_to_keybytes, nibbles_to_compact_bytes, compact_bytes_to_nibbles, terminated_nibbles,
}
use simple_p2p_blockchain.Trie.Compact.RoundTrip.{
  hex_path, compact_bytes_to_nibbles-nibbles_to_compact_bytes, hex_to_keybytes-terminated_nibbles,
}

nibbles_compare-eq-lexicographic_example :
    nibbles_compare (1 ∷ 2 ∷ []) (1 ∷ 2 ∷ 0 ∷ []) ≡ lexicographic (1 ∷ 2 ∷ []) (1 ∷ 2 ∷ 0 ∷ [])
nibbles_compare-eq-lexicographic_example =
    nibbles_compare-eq-lexicographic (1 ∷ 2 ∷ []) (1 ∷ 2 ∷ 0 ∷ [])

abbrev first_path : List ℕ
first_path = 1 ∷ 2 ∷ 3 ∷ []

abbrev second_path : List ℕ
second_path = 1 ∷ 2 ∷ 4 ∷ []

matching_nibble_length_lem_example :
    (take (matching_nibble_length first_path second_path) first_path
      ≡ take (matching_nibble_length first_path second_path) second_path)
    × (matching_nibble_length first_path second_path ≤ length first_path)
    × (matching_nibble_length first_path second_path ≤ length second_path)
    × ((get_elem? first_path (matching_nibble_length first_path second_path) ≡ none)
        ⊎ (get_elem? first_path (matching_nibble_length first_path second_path)
            ≢ get_elem? second_path (matching_nibble_length first_path second_path)))
matching_nibble_length_lem_example = matching_nibble_length_lem first_path second_path

compact_bytes_to_nibbles-nibbles_to_compact_bytes_example :
    compact_bytes_to_nibbles (nibbles_to_compact_bytes (hex_path true first_path))
    ≡ hex_path true first_path
compact_bytes_to_nibbles-nibbles_to_compact_bytes_example =
    compact_bytes_to_nibbles-nibbles_to_compact_bytes true first_path
      (omega arith, (omega arith, (omega arith, tt)))

hex_to_keybytes-terminated_nibbles_example :
    hex_to_keybytes (terminated_nibbles (18 ∷ 255 ∷ [])) ≡ ok (18 ∷ 255 ∷ [])
hex_to_keybytes-terminated_nibbles_example =
    hex_to_keybytes-terminated_nibbles (18 ∷ 255 ∷ []) (omega arith, (omega arith, tt))
