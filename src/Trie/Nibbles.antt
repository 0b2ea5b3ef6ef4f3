-- ===== src/Trie/Nibbles.antt =====
-- packages/merkel-trie/src/util/nibbles.ts and hex.ts: keys as lists of nibbles.
pub mod Packing
pub mod Order
use simple_p2p_blockchain.Common.{
  ℕ, zero, suc, ◌+◌, ◌*◌, ◌/◌, ◌%◌, Bool, true, false, List, [], ◌∷◌, ltb, ◌==◌, if◌then◌else◌,
  length, drop,
}
use simple_p2p_blockchain.Common.Int.{ℤ, pos, negsuc}

unfoldable pub bytes_to_nibbles : List ℕ → List ℕ
bytes_to_nibbles [] = []
bytes_to_nibbles (b ∷ bs) = b / 16 ∷ b % 16 ∷ bytes_to_nibbles bs

-- `nibblesTypeToPackedBytes`: an odd nibble at the end gets no byte.
unfoldable pub pack_nibbles : List ℕ → List ℕ
pack_nibbles [] = []
pack_nibbles (x ∷ []) = []
pack_nibbles (x ∷ y ∷ ns) = (x * 16 + y) % 256 ∷ pack_nibbles ns

-- The loop of `nibblesCompare` over the common positions.
unfoldable pub compare_loop : List ℕ → List ℕ → ℤ
compare_loop [] ys = pos 0
compare_loop (x ∷ xs) [] = pos 0
compare_loop (x ∷ xs) (y ∷ ys) =
    let rest = compare_loop xs ys in if ltb x y then negsuc 0 else if ltb y x then pos 1 else rest

unfoldable pub compare_lengths : ℕ → ℕ → ℤ
compare_lengths m n = if ltb m n then negsuc 0 else if ltb n m then pos 1 else pos 0

unfoldable pub nibbles_compare : List ℕ → List ℕ → ℤ
unfolding compare_loop compare_lengths
nibbles_compare xs ys = tie (compare_loop xs ys)
  where
    tie : ℤ → ℤ
    tie (pos zero) = compare_lengths (length xs) (length ys)
    tie (pos (suc n)) = pos (suc n)
    tie (negsuc n) = negsuc n

unfoldable pub matching_nibble_length : List ℕ → List ℕ → ℕ
matching_nibble_length [] ys = 0
matching_nibble_length (x ∷ xs) [] = 0
matching_nibble_length (x ∷ xs) (y ∷ ys) =
    let rest = matching_nibble_length xs ys in if x == y then rest + 1 else 0

unfoldable pub set_terminator : Bool → List ℕ → List ℕ
set_terminator terminator [] = []
set_terminator terminator (n ∷ ns) = (if terminator then n + 2 else n) ∷ ns

unfoldable pub add_hex_prefix : List ℕ → Bool → List ℕ
unfolding set_terminator
add_hex_prefix key terminator =
    set_terminator terminator (if length key % 2 == 0 then 0 ∷ 0 ∷ key else 1 ∷ key)

unfoldable pub remove_hex_prefix : List ℕ → List ℕ
remove_hex_prefix [] = []
remove_hex_prefix (n ∷ ns) = if n % 2 == 0 then drop 1 ns else ns

unfoldable pub is_terminator : List ℕ → Bool
is_terminator [] = false
is_terminator (n ∷ ns) = ltb 1 n
