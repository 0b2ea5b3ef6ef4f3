-- ===== src/Rlp/Spec.antt =====
-- What an item is encoded as, in plain arithmetic, and `encode` against it.
use simple_p2p_blockchain.Common.{
  ℕ, ◌+◌, ◌/◌, ◌*◌, ◌^◌, ◌<◌, ◌≤◌, ◌&&◌, List, [], ◌∷◌, ◌++◌, ltb, ◌==◌, if◌then◌else◌, length,
  get_or, ok, ◌≡◌, refl, All, IsByte, arith, length-append, Bool-cases, inl, inr, lt→ltb,
}
use simple_p2p_blockchain.Rlp.{Item, Items, leaf, list, end, next, to_input, to_inputs}
use simple_p2p_blockchain.Rlp.Hex.{bytes_to_hex, to_bytes}
use simple_p2p_blockchain.Rlp.Hex.Digits.{hex_to_bytes-bytes_to_hex, length-bytes_to_hex}
use simple_p2p_blockchain.Rlp.Hex.Bytes.{be, number_to_hex-be, be-IsByte, length-be}
use simple_p2p_blockchain.Rlp.Encode.{
  encode_length, encode_bytes, encode, encode_all, output_length, concat_bytes,
}

-- The bytes before a payload of `len` bytes.
unfoldable pub header : ℕ → ℕ → List ℕ
header len offset =
    if ltb len 56 then (len + offset) ∷ [] else (offset + 55 + length (be len)) ∷ be len

unfoldable pub rlp_bytes : List ℕ → List ℕ
unfolding header
rlp_bytes bs =
    if length bs == 1 && ltb (get_or bs 0 0) 128 then bs else header (length bs) 128 ++ bs

unfoldable mutual
  unfolding rlp_bytes

  pub rlp : Item → List ℕ
  rlp (leaf bs) = rlp_bytes bs
  rlp (list xs) = header (length (rlp_all xs)) 192 ++ rlp_all xs

  pub rlp_all : Items → List ℕ
  rlp_all end = []
  rlp_all (next x xs) = rlp x ++ rlp_all xs

-- Byte arrays hold bytes, and each payload has a length below 2 ^ 64.
unfoldable mutual
  pub Fits : Item → Type 0
  Fits (leaf bs) = All IsByte bs × (length bs < 256 ^ 8)
  Fits (list xs) = FitsAll xs × (length (rlp_all xs) < 256 ^ 8)

  pub FitsAll : Items → Type 0
  FitsAll end = Unit
  FitsAll (next x xs) = Fits x × FitsAll xs

append-bytes_to_hex :
    (as' bs : List ℕ) → bytes_to_hex as' ++ bytes_to_hex bs ≡ bytes_to_hex (as' ++ bs)
unfolding bytes_to_hex
append-bytes_to_hex [] bs = refl
append-bytes_to_hex (a ∷ as') bs = ground (arith, append-bytes_to_hex as' bs)

be_byte : (n : ℕ) → n < 256 → be n ≡ n ∷ []
unfolding be
be_byte n h = ground (arith, lt→ltb n 256 h)

double_half : (n : ℕ) → 2 * n / 2 ≡ n
double_half n = omega arith

first_byte_fits :
    (len offset : ℕ) → len < 256 ^ 8 → offset ≤ 192 → offset + 55 + length (be len) < 256
first_byte_fits len offset h ho = omega (arith, length-be 7 len h)

-- For a length below 2 ^ 64 and an offset of at most 192, `encodeLength` does not throw and
-- returns the header that is defined by arithmetic.
pub encode_length-header :
    (len offset : ℕ)
    → len < 256 ^ 8
    → offset ≤ 192
    → encode_length len offset ≡ ok (header len offset)
unfolding encode_length header
encode_length-header len offset h ho = elim (Bool-cases (ltb len 56)) [
  | inl small ↦ rw small
  | inr large ↦
      rw
        (
          large,
          number_to_hex-be len,
          length-bytes_to_hex (be len),
          double_half (length (be len)),
          number_to_hex-be,
          be_byte _ (first_byte_fits len offset h ho),
          append-bytes_to_hex,
        )
        (hex_to_bytes-bytes_to_hex ((offset + 55 + length (be len)) ∷ be len)
          (first_byte_fits len offset h ho, be-IsByte len))
]

length-concat : (out : List (List ℕ)) → output_length out ≡ length (concat_bytes out)
unfolding output_length concat_bytes
length-concat [] = refl
length-concat (a ∷ out) = omega (arith, length-append a (concat_bytes out), length-concat out)

encode_bytes-rlp_bytes : (bs : List ℕ) → length bs < 256 ^ 8 → encode_bytes bs ≡ ok (rlp_bytes bs)
unfolding encode_bytes rlp_bytes
encode_bytes-rlp_bytes bs h = ground (arith, encode_length-header (length bs) 128)

mutual
  unfolding encode to_bytes to_input rlp Fits output_length concat_bytes

  encode-rlp : (x : Item) → Fits x → encode (to_input x) ≡ ok (rlp x)
  encode-rlp (leaf bs) h = encode_bytes-rlp_bytes bs h.1
  encode-rlp (list xs) h =
      let (out, e, c) = encode_all-rlp_all xs h.0 in
      ground (arith, e, c, encode_length-header (length (rlp_all xs)) 192, length-concat out)

  encode_all-rlp_all :
      (xs : Items)
      → FitsAll xs
      → (out : List (List ℕ)) × (encode_all (to_inputs xs) ≡ ok out)
        × (concat_bytes out ≡ rlp_all xs)
  encode_all-rlp_all end h = ([], refl, refl)
  encode_all-rlp_all (next x xs) h =
      let (out, e, c) = encode_all-rlp_all xs h.1 in (rlp x ∷ out, rw (encode-rlp x h.0, e), rw c)

-- For every item of byte arrays whose payloads are shorter than 2 ^ 64 bytes, `encode`, which
-- works on hexadecimal texts, returns the encoding that is defined by arithmetic.
pub encode-eq-rlp : (x : Item) → Fits x → encode (to_input x) ≡ ok (rlp x)
encode-eq-rlp x h = encode-rlp x h
