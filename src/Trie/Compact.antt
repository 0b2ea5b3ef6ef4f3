-- ===== src/Trie/Compact.antt =====
-- packages/merkel-trie/src/util/encoding.ts: the hex and the compact encoding of a path.
pub mod RoundTrip
use simple_p2p_blockchain.Common.{
  ℕ, zero, suc, ◌+◌, ◌-◌, ◌*◌, ◌/◌, ◌%◌, bit_or, Bool, true, false, List, [], ◌∷◌, ◌++◌, ltb, ◌==◌,
  if◌then◌else◌, length, take, drop, get_or, Result, ok, err,
}

-- "Can't convert hex key of odd length"
pub data EncodingError : Type 0 where
  odd_length : EncodingError

unfoldable pub has_terminator : List ℕ → Bool
has_terminator [] = false
has_terminator (n ∷ []) = n == 16
has_terminator (n ∷ m ∷ ns) = has_terminator (m ∷ ns)

-- `subarray(0, length - 1)`
unfoldable pub but_last : List ℕ → List ℕ
but_last [] = []
but_last (n ∷ []) = []
but_last (n ∷ m ∷ ns) = n ∷ but_last (m ∷ ns)

-- `nibblesToBytes`: an odd nibble at the end gets no byte, and a byte keeps eight bits.
unfoldable pub nibbles_to_bytes : List ℕ → List ℕ
nibbles_to_bytes [] = []
nibbles_to_bytes (x ∷ []) = []
nibbles_to_bytes (x ∷ y ∷ ns) = bit_or (x * 16) y % 256 ∷ nibbles_to_bytes ns

unfoldable pub even_keybytes : List ℕ → Result EncodingError (List ℕ)
unfolding nibbles_to_bytes
even_keybytes hex = if length hex % 2 == 1 then err odd_length else ok (nibbles_to_bytes hex)

unfoldable pub hex_to_keybytes : List ℕ → Result EncodingError (List ℕ)
hex_to_keybytes hex = even_keybytes (if has_terminator hex then but_last hex else hex)

-- `nibblesToCompactBytes` after the terminator has been taken off; `flag` is `terminator << 5`.
unfoldable pub compact_path : ℕ → List ℕ → List ℕ
compact_path flag nibbles =
    if length nibbles % 2 == 1
    then bit_or (bit_or flag 16) (get_or nibbles 0 0) % 256 ∷ nibbles_to_bytes (drop 1 nibbles)
    else flag ∷ nibbles_to_bytes nibbles

unfoldable pub nibbles_to_compact_bytes : List ℕ → List ℕ
nibbles_to_compact_bytes nibbles =
    if has_terminator nibbles then compact_path 32 (but_last nibbles) else compact_path 0 nibbles

-- `bytesToNibbles` of this file, which ends with the terminator.
unfoldable pub terminated_nibbles : List ℕ → List ℕ
terminated_nibbles [] = 16 ∷ []
terminated_nibbles (b ∷ bs) = b / 16 ∷ b % 16 ∷ terminated_nibbles bs

-- `compactBytesToNibbles` after the terminator's test.
unfoldable pub chop : List ℕ → List ℕ
chop base = drop (2 - get_or base 0 0 % 2) base

unfoldable pub compact_bytes_to_nibbles : List ℕ → List ℕ
compact_bytes_to_nibbles [] = []
compact_bytes_to_nibbles (b ∷ bs) =
    let base = terminated_nibbles (b ∷ bs) in
    if ltb (get_or base 0 0) 2 then chop (but_last base) else chop base

unfoldable pub nibble_type_to_byte_type : List ℕ → List ℕ
nibble_type_to_byte_type [] = []
nibble_type_to_byte_type (n ∷ ns) = n % 256 ∷ nibble_type_to_byte_type ns

unfoldable pub byte_type_to_nibble_type : List ℕ → List ℕ
byte_type_to_nibble_type [] = []
byte_type_to_nibble_type (b ∷ bs) = b % 16 ∷ byte_type_to_nibble_type bs
