-- ===== src/Rlp/RoundTrip/Canonical.antt =====
-- `_decode` accepts nothing but what `encode` writes: the decoder is strict.
use simple_p2p_blockchain.Common.{
  ℕ, zero, suc, ◌<◌, ◌≤◌, List, [], ◌∷◌, ◌++◌, leb, length, ok, ◌≡◌, All, IsByte, arith, Bool-cases,
  Result-cases, ◌≢◌, inl, inr, leb→le,
}
use simple_p2p_blockchain.Rlp.{Item, Items, list, next}
use simple_p2p_blockchain.Rlp.Decode.{list_payload, decode_item, decode_items, decode_bytes}
use simple_p2p_blockchain.Rlp.Spec.{header, rlp_bytes, rlp, rlp_all}
use simple_p2p_blockchain.Rlp.RoundTrip.Branches.{
  short_string-canonical, long_string-canonical, list_payload-canonical, IsByte-inner, IsByte-rest,
}

decode_item_inv :
    (f b : ℕ) (bs rest : List ℕ) (x : Item)
    → 0xbf < b
    → decode_item (suc f) (b ∷ bs) ≡ ok (x, rest)
    → (p : List ℕ) × (xs : Items) × (list_payload b (b ∷ bs) ≡ ok (p, rest))
      × (decode_items f p ≡ ok xs)
      × (x ≡ list xs)
unfolding decode_item
decode_item_inv f b bs rest x lo h = elim (Result-cases (list_payload b (b ∷ bs))) [
  | inr (er, e) ↦ absurd (ground arith)
  | inl ((p, r), e) ↦ elim (Result-cases (decode_items f p)) [
    | inr (er, d) ↦ absurd (ground arith)
    | inl (xs, d) ↦ (p, xs, ground arith, d, ground arith)
  ]
]

decode_items_inv :
    (f b : ℕ) (bs : List ℕ) (xs : Items)
    → decode_items (suc f) (b ∷ bs) ≡ ok xs
    → (x : Item) × (rest : List ℕ) × (ys : Items) × (decode_item f (b ∷ bs) ≡ ok (x, rest))
      × (decode_items f rest ≡ ok ys)
      × (xs ≡ next x ys)
unfolding decode_item
decode_items_inv f b bs xs h = elim (Result-cases (decode_item f (b ∷ bs))) [
  | inr (er, e) ↦ absurd (ground arith)
  | inl ((x, rest), e) ↦ elim (Result-cases (decode_items f rest)) [
    | inr (er, d) ↦ absurd (ground arith)
    | inl (ys, d) ↦ (x, rest, ys, ground arith, d, ground arith)
  ]
]

-- The branches for byte arrays.
decode_item_bytes :
    (f b : ℕ) (bs rest : List ℕ) (x : Item)
    → All IsByte bs
    → b ≤ 0xbf
    → decode_item (suc f) (b ∷ bs) ≡ ok (x, rest)
    → rlp x ++ rest ≡ b ∷ bs
unfolding decode_item
decode_item_bytes f b bs rest x hb hi h = elim (Bool-cases (leb b 0x7f)) [
  | inl single ↦ unfold rlp rlp_bytes in ground arith
  | inr more ↦ elim (Bool-cases (leb b 0xb7)) [
    | inl short ↦ short_string-canonical b bs rest x (ground arith) (ground arith) (ground arith)
    | inr long ↦ long_string-canonical b bs rest x hb (ground arith) (ground arith)
  ]
]

decode_item_no_fuel : (input : List ℕ) {r : Item × List ℕ} → decode_item zero input ≢ ok r
unfolding decode_item
decode_item_no_fuel input e = cc

decode_item_nothing : (f : ℕ) {r : Item × List ℕ} → decode_item (suc f) [] ≢ ok r
unfolding decode_item
decode_item_nothing f e = cc

decode_items_no_fuel : (b : ℕ) (bs : List ℕ) {xs : Items} → decode_items zero (b ∷ bs) ≢ ok xs
unfolding decode_item
decode_items_no_fuel b bs e = cc

decode_items_nothing : (f : ℕ) (xs : Items) → decode_items f [] ≡ ok xs → rlp_all xs ≡ []
unfolding decode_item rlp
decode_items_nothing zero xs e = ground arith
decode_items_nothing (suc f) xs e = ground arith

mutual
  unfolding rlp

  item-canonical :
      (f : ℕ) (input rest : List ℕ) (x : Item)
      → All IsByte input
      → decode_item f input ≡ ok (x, rest)
      → rlp x ++ rest ≡ input
  item-canonical zero input rest x hb h = absurd (decode_item_no_fuel input h)
  item-canonical (suc f) [] rest x hb h = absurd (decode_item_nothing f h)
  item-canonical (suc f) (b ∷ bs) rest x hb h = elim (Bool-cases (leb b 0xbf)) [
    | inl str ↦ decode_item_bytes f b bs rest x hb.1 (leb→le b 0xbf str) h
    | inr lst ↦
        let (p, xs, e, d, ex) = decode_item_inv f b bs rest x (ground arith) h in
        let whole = list_payload-canonical b bs p rest hb.1 (ground arith) e in
        let items =
          items-canonical f p xs (IsByte-inner (header (length p) 192) p rest (b ∷ bs) whole hb)
            d in
        rw (ex, items) whole
  ]

  items-canonical :
      (f : ℕ) (input : List ℕ) (xs : Items)
      → All IsByte input
      → decode_items f input ≡ ok xs
      → rlp_all xs ≡ input
  items-canonical zero [] xs hb h = decode_items_nothing zero xs h
  items-canonical zero (b ∷ bs) xs hb h = absurd (decode_items_no_fuel b bs h)
  items-canonical (suc f) [] xs hb h = decode_items_nothing (suc f) xs h
  items-canonical (suc f) (b ∷ bs) xs hb h =
      let (x, rest, ys, e, d, ex) = decode_items_inv f b bs xs h in
      let whole = item-canonical f (b ∷ bs) rest x hb e in
      let tail = items-canonical f rest ys (IsByte-rest (rlp x) rest (b ∷ bs) whole hb) d in
      rw (ex, tail) whole

-- Whenever `_decode` accepts a byte array, the encoding of the item that it returns, followed by
-- the remainder that it returns, is that byte array: it accepts canonical encodings only.
pub decode_bytes-canonical :
    (input rest : List ℕ) (x : Item)
    → All IsByte input
    → decode_bytes input ≡ ok (x, rest)
    → rlp x ++ rest ≡ input
unfolding decode_bytes
decode_bytes-canonical input rest x hb h = item-canonical _ input rest x hb h
