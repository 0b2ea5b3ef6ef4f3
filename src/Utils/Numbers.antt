-- ===== src/Utils/Numbers.antt =====
-- packages/utils/src/bytes.ts: bytes as numbers, the highest first.
pub mod RoundTrip
use simple_p2p_blockchain.Common.{
  ℕ, ◌+◌, ◌*◌, ◌^◌, List, [], ◌∷◌, Option, none, some, Text, ◌≡◌, Bool, true, false, ◌&&◌, ◌==◌,
  ltb, if◌then◌else◌, length, get_or, drop, All, IsByte,
}
use simple_p2p_blockchain.Rlp.Hex
use simple_p2p_blockchain.Rlp.Hex.{to_hex, ascii_to_base16, parse_digits}
use simple_p2p_blockchain.Utils.Bytes.{starts_0x, pad_to_even}

-- `bytesToHex` and `hexToBytes` of ethereum-cryptography: two digits a byte, the higher one first.
pub record NobleHex : Type 0 where
  pub to_text : List ℕ → Text
  pub of_text : Text → Option (List ℕ)
  pub to_text-eq : (bs : List ℕ) → All IsByte bs → to_text bs ≡ Hex.bytes_to_hex bs
  pub of_text-eq : (bs : List ℕ) → All IsByte bs → of_text (Hex.bytes_to_hex bs) ≡ some bs

-- `/^0x[0-9A-Fa-f]*$/`
unfoldable pub all_digits : Text → Bool
all_digits [] = true
all_digits (c ∷ cs) =
    let rest = all_digits cs in elim (ascii_to_base16 c) [ none ↦ false | some d ↦ rest ]

unfoldable pub is_hex_string : Text → Bool
is_hex_string hex = starts_0x hex && all_digits (drop 2 hex)

unfoldable pub strip_hex_prefix : Text → Text
strip_hex_prefix hex = if is_hex_string hex then drop 2 hex else hex

unfoldable pub strip_zeros : List ℕ → List ℕ
strip_zeros [] = []
strip_zeros (b ∷ bs) = let rest = strip_zeros bs in if b == 0 then rest else b ∷ bs

module _ (lib : NobleHex) where
  -- `none` is an error.
  unfoldable pub hex_to_bytes : Text → Option (List ℕ)
  hex_to_bytes hex =
      if starts_0x hex then lib.of_text (pad_to_even (strip_hex_prefix hex)) else none

  -- `bigIntToBytes`, of a number that is not negative.
  unfoldable pub bigint_to_bytes : ℕ → Option (List ℕ)
  bigint_to_bytes n = hex_to_bytes (48 ∷ 120 ∷ pad_to_even (to_hex n))

  unfoldable pub bigint_to_unpadded_bytes : ℕ → Option (List ℕ)
  bigint_to_unpadded_bytes n = elim (bigint_to_bytes n) [
    | none ↦ none
    | some bs ↦ some (strip_zeros bs)
  ]

  -- `BigInt(hex)` reads the digits after the prefix.
  unfoldable pub bytes_to_bigint : List ℕ → ℕ
  bytes_to_bigint bs =
      let hex = 48 ∷ 120 ∷ lib.to_text bs in
      if length hex == 2
      then 0
      else if length hex == 4
      then get_or bs 0 0
      else if length hex == 6
      then get_or bs 0 0 * 256 + get_or bs 1 0
      else parse_digits 0 (drop 2 hex)
