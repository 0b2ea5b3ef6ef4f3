-- ===== src/Rlp/Encode.antt =====
-- packages/rlp/src/encode.ts.
use simple_p2p_blockchain.Common.{
  ℕ, ◌+◌, ◌/◌, ◌&&◌, List, [], ◌∷◌, ◌++◌, ltb, ◌==◌, if◌then◌else◌, length, get_or, Result, ok,
  ◌>>=◌,
}
use simple_p2p_blockchain.Rlp.{
  Error, Input, Inputs, bytes, text, number, negative, nothing, array, nil, cons,
}
use simple_p2p_blockchain.Rlp.Hex.{number_to_hex, hex_to_bytes, to_bytes}

unfoldable pub concat_bytes : List (List ℕ) → List ℕ
concat_bytes [] = []
concat_bytes (a ∷ as') = a ++ concat_bytes as'

-- `outputLength` of `encode`.
unfoldable pub output_length : List (List ℕ) → ℕ
output_length [] = 0
output_length (a ∷ as') = length a + output_length as'

unfoldable pub encode_length : ℕ → ℕ → Result Error (List ℕ)
encode_length len offset =
    if ltb len 56
    then ok ((len + offset) ∷ [])
    else let hex_length = number_to_hex len in
      let l_length = length hex_length / 2 in
      let first_byte = number_to_hex (offset + 55 + l_length) in
      hex_to_bytes (first_byte ++ hex_length)

-- The branch of `encode` for what is no array.
unfoldable pub encode_bytes : List ℕ → Result Error (List ℕ)
encode_bytes buf =
    if length buf == 1 && ltb (get_or buf 0 0) 128
    then ok buf
    else do prefix ← encode_length (length buf) 128; ok (prefix ++ buf)

unfoldable mutual
  pub encode : Input → Result Error (List ℕ)
  encode (array xs) = do
    output ← encode_all xs
    prefix ← encode_length (output_length output) 192
    ok (prefix ++ concat_bytes output)
  encode (bytes bs) = to_bytes (bytes bs) >>= encode_bytes
  encode (text s) = to_bytes (text s) >>= encode_bytes
  encode (number n) = to_bytes (number n) >>= encode_bytes
  encode (negative n) = to_bytes (negative n) >>= encode_bytes
  encode nothing = to_bytes nothing >>= encode_bytes

  pub encode_all : Inputs → Result Error (List (List ℕ))
  encode_all nil = ok []
  encode_all (cons x xs) = do encoded ← encode x; rest ← encode_all xs; ok (encoded ∷ rest)
