-- ===== src/Utils/Bytes.antt =====
-- packages/utils/src/bytes.ts and internal.ts: hexadecimal texts without a prefix.
use simple_p2p_blockchain.Common.{
  ◌%◌, ◌∷◌, Option, none, some, Text, ◌≡◌, arith, Bool, true, false, ◌&&◌, ◌==◌, if◌then◌else◌,
  length, get_or,
}

-- `Uint8Array`, and what is relied on in `bytesToHex` and `hexToBytes` of ethereum-cryptography: two
-- digits a byte, no `x`, and an array is read back from its text.
pub record HexLibrary : Type 1 where
  pub Bytes : Type 0
  pub to_hex : Bytes → Text
  pub of_hex : Text → Option Bytes
  pub of_hex-to_hex : (bytes : Bytes) → of_hex (to_hex bytes) ≡ some bytes
  pub to_hex_even : (bytes : Bytes) → (length (to_hex bytes) % 2 == 0) ≡ true
  pub to_hex_digits : (bytes : Bytes) → (get_or (to_hex bytes) 1 0 == 120) ≡ false

-- `hex.startsWith('0x')`
unfoldable pub starts_0x : Text → Bool
starts_0x hex = get_or hex 0 0 == 48 && get_or hex 1 0 == 120

unfoldable pub pad_to_even : Text → Text
pad_to_even hex = if length hex % 2 == 0 then hex else 48 ∷ hex

module _ (lib : HexLibrary) where
  -- `none` is the error.
  unfoldable pub unprefixed_hex_to_bytes : Text → Option lib.Bytes
  unprefixed_hex_to_bytes hex = if starts_0x hex then none else lib.of_hex (pad_to_even hex)

  pub unprefixed_hex_to_bytes-to_hex :
      (bytes : lib.Bytes) → unprefixed_hex_to_bytes (lib.to_hex bytes) ≡ some bytes
  unfolding unprefixed_hex_to_bytes starts_0x pad_to_even
  unprefixed_hex_to_bytes-to_hex bytes =
      ground (arith, lib.of_hex-to_hex bytes, lib.to_hex_even bytes, lib.to_hex_digits bytes)
