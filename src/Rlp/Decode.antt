-- ===== src/Rlp/Decode.antt =====
-- packages/rlp/src/decode.ts.
use simple_p2p_blockchain.Common.{
  ℕ, zero, suc, ◌+◌, ◌-◌, ◌*◌, ◌&&◌, List, [], ◌∷◌, ltb, leb, ◌==◌, if◌then◌else◌, length, get_or,
  Bool, true, false, drop, Result, ok, err, ◌>>=◌, ◌>>◌, throw_if, not,
}
use simple_p2p_blockchain.Rlp.{
  Error, Input, Item, Items, bytes, text, nothing, array, nil, leaf, list, end, next,
  invalid_byte_sequence, extra_zeros, invalid_prefix, not_enough_bytes, string_too_short,
  list_too_short, total_length_too_large, remainder_not_zero, stuck,
}
use simple_p2p_blockchain.Rlp.Hex.{bytes_to_hex, parse_hex_byte, safe_slice, to_bytes}

-- `v[0]` of an empty array is undefined, which is not 0.
unfoldable pub decode_length : List ℕ → Result Error ℕ
decode_length v = do throw_if (get_or v 0 1 == 0) extra_zeros; parse_hex_byte (bytes_to_hex v)

-- The branch `firstByte <= 0xb7`.
unfoldable pub short_string : ℕ → List ℕ → Result Error (Item × List ℕ)
short_string first_byte input =
    let len = first_byte - 0x7f in
    do
      content ← if first_byte == 0x80 then ok [] else safe_slice input 1 len
      throw_if (len == 2 && ltb (get_or content 0 0x80) 0x80) invalid_prefix
      ok (leaf content, drop len input)

-- The branch `firstByte <= 0xbf`.
unfoldable pub long_string : ℕ → List ℕ → Result Error (Item × List ℕ)
long_string first_byte input =
    let l_length = first_byte - 0xb6 in
    do
      throw_if (ltb (length input - 1) l_length) not_enough_bytes
      len_bytes ← safe_slice input 1 l_length
      len ← decode_length len_bytes
      throw_if (leb len 55) string_too_short
      content ← safe_slice input l_length (len + l_length)
      ok (leaf content, drop (len + l_length) input)

-- The branches for a list: the bytes of its items, and what follows them.
unfoldable pub short_list : ℕ → List ℕ → Result Error (List ℕ × List ℕ)
short_list first_byte input =
    let len = first_byte - 0xbf in do inner ← safe_slice input 1 len; ok (inner, drop len input)

unfoldable pub long_list : ℕ → List ℕ → Result Error (List ℕ × List ℕ)
long_list first_byte input =
    let l_length = first_byte - 0xf6 in
    do
      len_bytes ← safe_slice input 1 l_length
      len ← decode_length len_bytes
      throw_if (ltb len 56) list_too_short
      throw_if (ltb (length input) (l_length + len)) total_length_too_large
      inner ← safe_slice input l_length (l_length + len)
      ok (inner, drop (l_length + len) input)

unfoldable pub list_payload : ℕ → List ℕ → Result Error (List ℕ × List ℕ)
list_payload first_byte input =
    if leb first_byte 0xf7 then short_list first_byte input else long_list first_byte input

-- `_decode`, and its loop `while (innerRemainder.length)`. A first byte that is undefined fails all
-- tests and ends at `parseHexByte('')`.
unfoldable mutual
  pub decode_item : ℕ → List ℕ → Result Error (Item × List ℕ)
  decode_item zero input = err stuck
  decode_item (suc f) [] = err invalid_byte_sequence
  decode_item (suc f) (b ∷ bs) =
      if leb b 0x7f
      then ok (leaf (b ∷ []), bs)
      else if leb b 0xb7
      then short_string b (b ∷ bs)
      else if leb b 0xbf
      then long_string b (b ∷ bs)
      else do
        (inner, rest) ← list_payload b (b ∷ bs)
        items ← decode_items f inner
        ok (list items, rest)

  pub decode_items : ℕ → List ℕ → Result Error Items
  decode_items zero [] = ok end
  decode_items zero (b ∷ bs) = err stuck
  decode_items (suc f) [] = ok end
  decode_items (suc f) (b ∷ bs) = do
    (x, rest) ← decode_item f (b ∷ bs)
    xs ← decode_items f rest
    ok (next x xs)

-- Twice the length, and one more round, is enough fuel.
unfoldable pub decode_bytes : List ℕ → Result Error (Item × List ℕ)
decode_bytes input = decode_item (2 * length input + 1) input

-- What `decode` returns: the data alone, or with `stream` the data and the remainder.
pub data Output : Type 0 where
  plain : Item → Output
  decoded : Item → List ℕ → Output

-- The first test of `decode`; a number has no length.
unfoldable pub is_empty_input : Input → Bool
is_empty_input nothing = true
is_empty_input (bytes []) = true
is_empty_input (text []) = true
is_empty_input (array nil) = true
is_empty_input _ = false

-- An empty input gives the data alone also with `stream`.
unfoldable pub decode : Input → Bool → Result Error Output
decode input stream = if is_empty_input input then ok (plain (leaf [])) else do
  input_bytes ← to_bytes input
  (x, rest) ← decode_bytes input_bytes
  if stream
      then ok (decoded x rest)
      else (throw_if (not (length rest == 0)) remainder_not_zero >> ok (plain x))
