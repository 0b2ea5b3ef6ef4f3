-- ===== src/Utils/Numbers/RoundTrip.antt =====
-- Numbers written as bytes and read back.
use simple_p2p_blockchain.Common.{
  ℕ, suc, ◌^◌, ◌<◌, ◌≤◌, List, [], ◌∷◌, some, ◌≡◌, refl, ◌∙◌, ap, arith, true, length, All, IsByte,
  Bool-cases, inl, inr, ◌==◌, ◌/◌, ◌%◌,
}
use simple_p2p_blockchain.Rlp.Hex
use simple_p2p_blockchain.Rlp.Hex.{to_hex, bytes_to_hex, number_to_hex}
use simple_p2p_blockchain.Rlp.Hex.Digits.{
  of_bytes, length-bytes_to_hex, parse_digits-bytes_to_hex, ascii_to_base16-hex_char,
}
use simple_p2p_blockchain.Rlp.Hex.Bytes.{be, number_to_hex-be, be-IsByte, of_bytes-be, length-be}
use simple_p2p_blockchain.Utils.Bytes.{starts_0x, pad_to_even}
use simple_p2p_blockchain.Utils.Numbers.{
  NobleHex, all_digits, is_hex_string, strip_hex_prefix, strip_zeros, hex_to_bytes, bigint_to_bytes,
  bigint_to_unpadded_bytes, bytes_to_bigint,
}

all_digits-bytes_to_hex : (bs : List ℕ) → All IsByte bs → all_digits (bytes_to_hex bs) ≡ true
unfolding all_digits bytes_to_hex
all_digits-bytes_to_hex [] h = refl
all_digits-bytes_to_hex (b ∷ bs) h = ground (
  arith,
  ascii_to_base16-hex_char (b / 16),
  ascii_to_base16-hex_char (b % 16),
  all_digits-bytes_to_hex bs h.1,
)

pad_to_even-bytes_to_hex : (bs : List ℕ) → pad_to_even (bytes_to_hex bs) ≡ bytes_to_hex bs
unfolding pad_to_even
pad_to_even-bytes_to_hex bs = ground (arith, length-bytes_to_hex bs)

pads_agree : (n : ℕ) → pad_to_even (to_hex n) ≡ number_to_hex n
unfolding pad_to_even number_to_hex Hex.pad_to_even
pads_agree n = refl

pad_to_even-to_hex : (n : ℕ) → pad_to_even (to_hex n) ≡ bytes_to_hex (be n)
pad_to_even-to_hex n = pads_agree n ∙ number_to_hex-be n

of_bytes-strip_zeros : (bs : List ℕ) → of_bytes 0 (strip_zeros bs) ≡ of_bytes 0 bs
unfolding strip_zeros of_bytes
of_bytes-strip_zeros [] = refl
of_bytes-strip_zeros (b ∷ bs) = ground (arith, of_bytes-strip_zeros bs)

strip_zeros-IsByte : (bs : List ℕ) → All IsByte bs → All IsByte (strip_zeros bs)
unfolding strip_zeros
strip_zeros-IsByte [] h = tt
strip_zeros-IsByte (b ∷ bs) h = elim (Bool-cases (b == 0)) [
  | inl zero_byte ↦ rw zero_byte (strip_zeros-IsByte bs h.1)
  | inr other ↦ rw other h
]

length-strip_zeros : (bs : List ℕ) → length (strip_zeros bs) ≤ length bs
unfolding strip_zeros
length-strip_zeros [] = omega arith
length-strip_zeros (b ∷ bs) = ground (arith, length-strip_zeros bs)

module _ (lib : NobleHex) where
  hex_to_bytes-bytes_to_hex :
      (bs : List ℕ) → All IsByte bs → hex_to_bytes lib (48 ∷ 120 ∷ bytes_to_hex bs) ≡ some bs
  unfolding hex_to_bytes strip_hex_prefix is_hex_string starts_0x
  hex_to_bytes-bytes_to_hex bs h =
      ground (arith, all_digits-bytes_to_hex bs h, pad_to_even-bytes_to_hex bs, lib.of_text-eq bs h)

  pub bigint_to_bytes-be : (n : ℕ) → bigint_to_bytes lib n ≡ some (be n)
  unfolding bigint_to_bytes
  bigint_to_bytes-be n =
      ap (λ text. hex_to_bytes lib (48 ∷ 120 ∷ text)) (pad_to_even-to_hex n)
      ∙ hex_to_bytes-bytes_to_hex (be n) (be-IsByte n)

  pub bytes_to_bigint-of_bytes :
      (bs : List ℕ) → All IsByte bs → bytes_to_bigint lib bs ≡ of_bytes 0 bs
  unfolding bytes_to_bigint of_bytes
  bytes_to_bigint-of_bytes [] h = ground (arith, lib.to_text-eq [] h, length-bytes_to_hex [])
  bytes_to_bigint-of_bytes (b ∷ []) h =
      ground (arith, lib.to_text-eq (b ∷ []) h, length-bytes_to_hex (b ∷ []))
  bytes_to_bigint-of_bytes (b ∷ c ∷ []) h =
      ground (arith, lib.to_text-eq (b ∷ c ∷ []) h, length-bytes_to_hex (b ∷ c ∷ []))
  bytes_to_bigint-of_bytes (b ∷ c ∷ d ∷ bs) h = ground (
    arith,
    lib.to_text-eq (b ∷ c ∷ d ∷ bs) h,
    length-bytes_to_hex (b ∷ c ∷ d ∷ bs),
    parse_digits-bytes_to_hex (b ∷ c ∷ d ∷ bs) 0 h,
  )

  -- c
  pub bytes_to_bigint-bigint_to_unpadded_bytes :
      (k n : ℕ)
      → n < 256 ^ suc k
      → (bs : List ℕ) × (bigint_to_unpadded_bytes lib n ≡ some bs)
        × (bytes_to_bigint lib bs ≡ n)
        × All IsByte bs
        × (length bs ≤ suc k)
  unfolding bigint_to_unpadded_bytes
  bytes_to_bigint-bigint_to_unpadded_bytes k n small = (
    strip_zeros (be n),
    ground (arith, bigint_to_bytes-be n),
    bytes_to_bigint-of_bytes (strip_zeros (be n)) (strip_zeros-IsByte (be n) (be-IsByte n))
        ∙ of_bytes-strip_zeros (be n)
        ∙ of_bytes-be n,
    strip_zeros-IsByte (be n) (be-IsByte n),
    omega (arith, length-strip_zeros (be n), length-be k n small),
  )
