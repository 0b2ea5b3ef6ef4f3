-- ===== src/Tests/Rlp.antt =====
-- RLP: the list of the bytes 5, of "dog" and of an empty list, as the package's own examples have it.
use simple_p2p_blockchain.Common.{
  ℕ, List, [], ◌∷◌, ◌++◌, ◌≡◌, ◌≢◌, refl, arith, true, false, ok, err,
}
use simple_p2p_blockchain.Rlp.{Item, leaf, list, end, next, to_input, bytes, stuck}
use simple_p2p_blockchain.Rlp.Hex.{to_bytes, safe_slice, bytes_to_hex, hex_to_bytes}
use simple_p2p_blockchain.Rlp.Hex.Digits.{hex_to_bytes-bytes_to_hex}
use simple_p2p_blockchain.Rlp.Encode.{
  encode, encode_length, encode_bytes, output_length, concat_bytes,
}
use simple_p2p_blockchain.Rlp.Decode.{
  decode, decode_item, short_string, decode_bytes, plain, decoded,
}
use simple_p2p_blockchain.Rlp.Spec.{rlp, Fits, FitsAll, encode-eq-rlp}
use simple_p2p_blockchain.Rlp.RoundTrip.{decode-encode}
use simple_p2p_blockchain.Rlp.RoundTrip.Canonical.{decode_bytes-canonical}
use simple_p2p_blockchain.Rlp.RoundTrip.Total.{decode_bytes-ne-stuck}

abbrev dog : Item
dog = list (next (leaf (5 ∷ [])) (next (leaf (100 ∷ 111 ∷ 103 ∷ [])) (next (list end) end)))

dog-Fits : Fits dog
unfolding Fits FitsAll rlp
dog-Fits = (
  (
    ((omega arith, tt), omega arith),
    (((omega arith, (omega arith, (omega arith, tt))), omega arith), ((tt, omega arith), tt)),
  ),
  omega arith,
)

encode-dog : encode (to_input dog) ≡ ok (198 ∷ 5 ∷ 131 ∷ 100 ∷ 111 ∷ 103 ∷ 192 ∷ [])
unfolding encode to_input to_bytes encode_bytes encode_length output_length concat_bytes
encode-dog = refl

decode-encode_example :
    (bs : List ℕ) × (encode (to_input dog) ≡ ok bs)
    × (decode (bytes bs) false ≡ ok (plain dog))
    × (decode (bytes (bs ++ 7 ∷ [])) true ≡ ok (decoded dog (7 ∷ [])))
decode-encode_example = decode-encode dog (7 ∷ []) dog-Fits

encode-eq-rlp_example : encode (to_input dog) ≡ ok (rlp dog)
encode-eq-rlp_example = encode-eq-rlp dog dog-Fits

read_back : decode_bytes (129 ∷ 200 ∷ 7 ∷ []) ≡ ok (leaf (200 ∷ []), 7 ∷ [])
unfolding decode_bytes decode_item short_string safe_slice
read_back = refl

decode_bytes-canonical_example : rlp (leaf (200 ∷ [])) ++ 7 ∷ [] ≡ 129 ∷ 200 ∷ 7 ∷ []
decode_bytes-canonical_example =
    decode_bytes-canonical (129 ∷ 200 ∷ 7 ∷ []) (7 ∷ []) (leaf (200 ∷ []))
      (omega arith, (omega arith, (omega arith, tt))) read_back

decode_bytes-ne-stuck_example : decode_bytes (200 ∷ 131 ∷ []) ≢ err stuck
decode_bytes-ne-stuck_example = decode_bytes-ne-stuck (200 ∷ 131 ∷ [])

hex_to_bytes-bytes_to_hex_example : hex_to_bytes (bytes_to_hex (18 ∷ 171 ∷ [])) ≡ ok (18 ∷ 171 ∷ [])
hex_to_bytes-bytes_to_hex_example =
    hex_to_bytes-bytes_to_hex (18 ∷ 171 ∷ []) (omega arith, (omega arith, tt))
