-- ===== src/Rlp/Hex/Digits.antt =====
-- Hexadecimal texts of bytes, read back: `bytesToHex`, `hexToBytes` and `parseHexByte`.
use simple_p2p_blockchain.Common.{
  ℕ, ◌+◌, ◌*◌, ◌/◌, ◌%◌, ◌<◌, ◌≡◌, refl, List, [], ◌∷◌, some, ok, length, All, IsByte, arith, ◌≢◌,
  false,
}
use simple_p2p_blockchain.Rlp.Hex.{
  hex_char, bytes_to_hex, ascii_to_base16, parse_digits, parse_hex_byte, hex_pairs, hex_to_bytes,
  is_hex_string,
}

pub ascii_to_base16-hex_char : (d : ℕ) → d < 16 → ascii_to_base16 (hex_char d) ≡ some d
unfolding ascii_to_base16 hex_char
ascii_to_base16-hex_char d h = ground arith

pub hex_pairs-bytes_to_hex : (bs : List ℕ) → All IsByte bs → hex_pairs (bytes_to_hex bs) ≡ ok bs
unfolding hex_pairs bytes_to_hex
hex_pairs-bytes_to_hex [] h = refl
hex_pairs-bytes_to_hex (b ∷ bs) h = ground (
  arith,
  ascii_to_base16-hex_char (b / 16),
  ascii_to_base16-hex_char (b % 16),
  hex_pairs-bytes_to_hex bs,
)

pub length-bytes_to_hex : (bs : List ℕ) → length (bytes_to_hex bs) ≡ 2 * length bs
unfolding bytes_to_hex
length-bytes_to_hex [] = refl
length-bytes_to_hex (b ∷ bs) = omega (arith, length-bytes_to_hex bs)

hex_char-ne-x : (d : ℕ) → d < 16 → hex_char d ≢ 120
unfolding hex_char
hex_char-ne-x d h = ground arith

is_hex_string-bytes_to_hex : (bs : List ℕ) → All IsByte bs → is_hex_string (bytes_to_hex bs) ≡ false
unfolding is_hex_string bytes_to_hex
is_hex_string-bytes_to_hex [] h = refl
is_hex_string-bytes_to_hex (b ∷ bs) h = ground (arith, hex_char-ne-x (b % 16))

-- `hexToBytes` reads back every byte array that `bytesToHex` wrote.
pub hex_to_bytes-bytes_to_hex :
    (bs : List ℕ) → All IsByte bs → hex_to_bytes (bytes_to_hex bs) ≡ ok bs
unfolding hex_to_bytes
hex_to_bytes-bytes_to_hex bs h =
    ground (arith, is_hex_string-bytes_to_hex bs, length-bytes_to_hex bs, hex_pairs-bytes_to_hex bs)

-- The number that bytes stand for, the highest first.
unfoldable pub of_bytes : ℕ → List ℕ → ℕ
of_bytes acc [] = acc
of_bytes acc (b ∷ bs) = of_bytes (acc * 256 + b) bs

pub parse_digits-bytes_to_hex :
    (bs : List ℕ) (acc : ℕ) → All IsByte bs → parse_digits acc (bytes_to_hex bs) ≡ of_bytes acc bs
unfolding parse_digits bytes_to_hex of_bytes
parse_digits-bytes_to_hex [] acc h = refl
parse_digits-bytes_to_hex (b ∷ bs) acc h = ground (
  arith,
  ascii_to_base16-hex_char (b / 16),
  ascii_to_base16-hex_char (b % 16),
  parse_digits-bytes_to_hex bs ((acc * 16 + b / 16) * 16 + b % 16),
)

-- `parseHexByte` of the text of a byte array that is not empty does not throw and returns the
-- number that the bytes stand for, the highest first.
pub parse_hex_byte-bytes_to_hex :
    (b : ℕ) (bs : List ℕ)
    → All IsByte (b ∷ bs)
    → parse_hex_byte (bytes_to_hex (b ∷ bs)) ≡ ok (of_bytes 0 (b ∷ bs))
unfolding parse_hex_byte bytes_to_hex of_bytes parse_digits
parse_hex_byte-bytes_to_hex b bs h = ground (
  arith,
  ascii_to_base16-hex_char (b / 16),
  ascii_to_base16-hex_char (b % 16),
  parse_digits-bytes_to_hex bs (b / 16 * 16 + b % 16),
)
