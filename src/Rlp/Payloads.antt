-- ===== src/Rlp/Payloads.antt =====
-- How each branch of `_decode` reads a payload behind its header.

use simple_p2p_blockchain.Common.{
  ℕ, suc, ◌+◌, ◌^◌, ◌<◌, ◌≤◌, List, [], ◌∷◌, ◌++◌, ltb, leb, length, get_or, drop, take-append,
  drop-append, ok, ◌≡◌, refl, All, IsByte, arith, length-append, Bool-cases, inl, inr, append_assoc,
  false, ltb→lt,
}
use simple_p2p_blockchain.Rlp.{leaf}
use simple_p2p_blockchain.Rlp.Hex.{safe_slice}
use simple_p2p_blockchain.Rlp.Hex.Digits.{of_bytes, parse_hex_byte-bytes_to_hex}
use simple_p2p_blockchain.Rlp.Hex.Bytes.{be, be-IsByte, length-be, of_bytes-be, be_head}
use simple_p2p_blockchain.Rlp.Decode.{
  decode_length, short_string, long_string, short_list, long_list, list_payload, decode_item,
}
use simple_p2p_blockchain.Rlp.Spec.{header}

-- A slice of the middle part.
slice_middle :
    (pre mid post : List ℕ)
    → safe_slice (pre ++ mid ++ post) (length pre) (length pre + length mid) ≡ ok mid
unfolding safe_slice
slice_middle pre mid post = ground (
  arith,
  length-append pre mid,
  length-append (pre ++ mid) post,
  take-append (pre ++ mid) post,
  drop-append pre mid,
)

drop_middle : (pre mid post : List ℕ) → drop (length pre + length mid) (pre ++ mid ++ post) ≡ post
drop_middle pre mid post = ground (arith, length-append pre mid, drop-append (pre ++ mid) post)

decode_length_cons :
    (x : ℕ) (bs : List ℕ)
    → All IsByte (x ∷ bs)
    → 0 < x
    → decode_length (x ∷ bs) ≡ ok (of_bytes 0 (x ∷ bs))
unfolding decode_length
decode_length_cons x bs b p = ground (arith, parse_hex_byte-bytes_to_hex x bs b)

-- `decodeLength` reads the bytes of a number.
decode_length-be : (n : ℕ) → 0 < n → decode_length (be n) ≡ ok n
decode_length-be n h = go (be n) (be-IsByte n) (be_head n h) (of_bytes-be n)
  where
    go :
        (bs : List ℕ)
        → All IsByte bs
        → 0 < get_or bs 0 0
        → of_bytes 0 bs ≡ n
        → decode_length bs ≡ ok n
    go [] b p e = absurd (omega arith)
    go (x ∷ bs) b p e = ground (arith, decode_length_cons x bs b p)

-- A short payload behind its header.
short_payload :
    (offset : ℕ) (p rest : List ℕ)
    → (safe_slice ((length p + offset) ∷ (p ++ rest)) 1 (length p + 1) ≡ ok p)
      × (drop (length p + 1) ((length p + offset) ∷ (p ++ rest)) ≡ rest)
short_payload offset p rest = ground (
  arith,
  slice_middle ((length p + offset) ∷ []) p rest,
  drop_middle ((length p + offset) ∷ []) p rest,
)

short_string-header :
    (p rest : List ℕ)
    → length p < 56
    → (length p ≡ 1 → 128 ≤ get_or p 0 0)
    → short_string (length p + 128) ((length p + 128) ∷ (p ++ rest)) ≡ ok (leaf p, rest)
unfolding short_string
short_string-header [] rest h c = refl
short_string-header (x ∷ p) rest h c = ground (arith, short_payload 128 (x ∷ p) rest)

short_list-header :
    (p rest : List ℕ) → short_list (length p + 192) ((length p + 192) ∷ (p ++ rest)) ≡ ok (p, rest)
unfolding short_list
short_list-header p rest = ground (arith, short_payload 192 p rest)

-- The two slices of a long payload, and what follows it.
module _ (fb : ℕ) (lens p rest : List ℕ) where
  long_length : safe_slice (fb ∷ (lens ++ p ++ rest)) 1 (length lens + 1) ≡ ok lens
  long_length = ground (arith, append_assoc lens p rest, slice_middle (fb ∷ []) lens (p ++ rest))

  long_content :
      safe_slice (fb ∷ (lens ++ p ++ rest)) (length lens + 1) (length p + (length lens + 1)) ≡ ok p
  long_content = ground (arith, slice_middle (fb ∷ lens) p rest)

  long_rest : drop (length p + (length lens + 1)) (fb ∷ (lens ++ p ++ rest)) ≡ rest
  long_rest = ground (arith, drop_middle (fb ∷ lens) p rest)

  length-long : length (fb ∷ (lens ++ p ++ rest)) ≡ suc (length lens + length p + length rest)
  length-long = omega (arith, length-append (lens ++ p) rest, length-append lens p)

module _ (p rest : List ℕ) (large : 56 ≤ length p) where
  abbrev lens : List ℕ
  lens = be (length p)

  long_string-header :
      long_string (128 + 55 + length lens) ((128 + 55 + length lens) ∷ (lens ++ p ++ rest))
      ≡ ok (leaf p, rest)
  unfolding long_string
  long_string-header = ground (
    arith,
    length-long (128 + 55 + length lens) lens p rest,
    long_length (128 + 55 + length lens) lens p rest,
    decode_length-be (length p),
    long_content (128 + 55 + length lens) lens p rest,
    long_rest (128 + 55 + length lens) lens p rest,
  )

  long_list-header :
      long_list (192 + 55 + length lens) ((192 + 55 + length lens) ∷ (lens ++ p ++ rest))
      ≡ ok (p, rest)
  unfolding long_list
  long_list-header = ground (
    arith,
    length-long (192 + 55 + length lens) lens p rest,
    long_length (192 + 55 + length lens) lens p rest,
    decode_length-be (length p),
    long_content (192 + 55 + length lens) lens p rest,
    long_rest (192 + 55 + length lens) lens p rest,
  )

-- Both list branches.
pub list_payload-header :
    (p rest : List ℕ)
    → length p < 256 ^ 8
    → (b : ℕ) × (bs : List ℕ) × (header (length p) 192 ++ p ++ rest ≡ b ∷ bs)
      × (leb b 0xbf ≡ false)
      × (list_payload b (b ∷ bs) ≡ ok (p, rest))
unfolding header list_payload
list_payload-header p rest h = elim (Bool-cases (ltb (length p) 56)) [
  | inl small ↦
      rw small
        (length p + 192, p ++ rest, refl, ground arith, ground (arith, short_list-header p rest))
  | inr large ↦ rw large (
    192 + 55 + length (be (length p)),
    be (length p) ++ p ++ rest,
    ground (arith, append_assoc (be (length p)) p rest),
    ground arith,
    ground (arith, long_list-header p rest, length-be 7 (length p)),
  )
]

module _ (f : ℕ) (p rest : List ℕ) where
  decode_item-short :
      length p < 56
      → (length p ≡ 1 → 128 ≤ get_or p 0 0)
      → decode_item (suc f) ((length p + 128) ∷ (p ++ rest)) ≡ ok (leaf p, rest)
  unfolding decode_item
  decode_item-short h c = ground (arith, short_string-header p rest h c)

  decode_item-long :
      56 ≤ length p
      → length p < 256 ^ 8
      → decode_item (suc f) ((128 + 55 + length (be (length p))) ∷ (be (length p) ++ p ++ rest))
        ≡ ok (leaf p, rest)
  unfolding decode_item
  decode_item-long large h =
      ground (arith, long_string-header p rest large, length-be 7 (length p) h)

  -- Every payload that is not a single byte below 128.
  pub decode_item-headed :
      length p < 256 ^ 8
      → (length p ≡ 1 → 128 ≤ get_or p 0 0)
      → decode_item (suc f) (header (length p) 128 ++ p ++ rest) ≡ ok (leaf p, rest)
  unfolding header
  decode_item-headed h c = elim (Bool-cases (ltb (length p) 56)) [
    | inl small ↦ rw small (decode_item-short (omega (arith, ltb→lt _ _ small)) c)
    | inr large ↦ rw large (decode_item-long (ground arith) h)
  ]
