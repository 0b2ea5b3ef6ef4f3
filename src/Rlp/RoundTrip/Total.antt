-- ===== src/Rlp/RoundTrip/Total.antt =====
-- `_decode` ends on every input: the model's fuel is never used up.
use simple_p2p_blockchain.Common.{
  ℕ, zero, suc, ◌+◌, ◌-◌, ◌*◌, ◌<◌, ◌≤◌, List, [], ◌∷◌, leb, length, take, ok, err, ◌≡◌, ◌≢◌, arith,
  length-take, length-drop, Bool-cases, Result-cases, leb→le, inl, inr,
}
use simple_p2p_blockchain.Rlp.{Item, stuck}
use simple_p2p_blockchain.Rlp.Hex.{safe_slice, bytes_to_hex, parse_hex_byte}
use simple_p2p_blockchain.Rlp.Decode.{
  decode_length, short_string, long_string, short_list, long_list, list_payload, decode_item,
  decode_items, decode_bytes,
}

safe_slice-ne-stuck : (input : List ℕ) (s e : ℕ) → safe_slice input s e ≢ err stuck
unfolding safe_slice
safe_slice-ne-stuck input s e h = ground arith

parse_hex_byte-ne-stuck : (cs : List ℕ) → parse_hex_byte cs ≢ err stuck
unfolding parse_hex_byte
parse_hex_byte-ne-stuck [] h = cc
parse_hex_byte-ne-stuck (c ∷ cs) h = ground arith

decode_length-ne-stuck : (v : List ℕ) → decode_length v ≢ err stuck
unfolding decode_length
decode_length-ne-stuck v h = ground (arith, parse_hex_byte-ne-stuck (bytes_to_hex v))

module _ (b : ℕ) (input : List ℕ) where
  short_string-ne-stuck : short_string b input ≢ err stuck
  unfolding short_string
  short_string-ne-stuck h = ground (arith, safe_slice-ne-stuck input 1 (b - 127))

  long_string-ne-stuck : long_string b input ≢ err stuck
  unfolding long_string
  long_string-ne-stuck h = grind (arith, safe_slice-ne-stuck, decode_length-ne-stuck)

  short_list-ne-stuck : short_list b input ≢ err stuck
  unfolding short_list
  short_list-ne-stuck h = ground (arith, safe_slice-ne-stuck input 1 (b - 191))

  long_list-ne-stuck : long_list b input ≢ err stuck
  unfolding long_list
  long_list-ne-stuck h = grind (arith, safe_slice-ne-stuck, decode_length-ne-stuck)

  list_payload-ne-stuck : list_payload b input ≢ err stuck
  unfolding list_payload
  list_payload-ne-stuck h = ground (arith, short_list-ne-stuck, long_list-ne-stuck)

length-safe_slice :
    (input p : List ℕ) (s e : ℕ) → safe_slice input s e ≡ ok p → length p ≤ length input - s
unfolding safe_slice
length-safe_slice input p s e h = ground (arith, length-drop s (take e input), length-take e input)

-- The payload of a list and what follows it are shorter than the input.
list_payload_shorter :
    (b : ℕ) (input p rest : List ℕ)
    → 0xbf < b
    → 0 < length input
    → list_payload b input ≡ ok (p, rest)
    → (length p < length input) × (length rest < length input)
unfolding list_payload short_list long_list
list_payload_shorter b input p rest lo pos h = elim (Bool-cases (leb b 0xf7)) [
  | inl small ↦ ground (arith, length-safe_slice input p 1 (b - 191), length-drop (b - 191) input)
  | inr large ↦ elim (Result-cases (safe_slice input 1 (b - 246))) [
    | inr (er, e) ↦ absurd (ground arith)
    | inl (lens, e) ↦ elim (Result-cases (decode_length lens)) [
      | inr (er, d) ↦ absurd (ground arith)
      | inl (len, d) ↦ ground (
        arith,
        length-safe_slice input p (b - 246) (b - 246 + len),
        length-drop (b - 246 + len) input,
      )
    ]
  ]
]

long_string_shorter :
    (b : ℕ) (input rest : List ℕ) (x : Item)
    → 0xb7 < b
    → 0 < length input
    → long_string b input ≡ ok (x, rest)
    → length rest < length input
unfolding long_string
long_string_shorter b input rest x lo pos h = elim (Result-cases (safe_slice input 1 (b - 182))) [
  | inr (er, e) ↦ absurd (ground arith)
  | inl (lens, e) ↦ elim (Result-cases (decode_length lens)) [
    | inr (er, d) ↦ absurd (ground arith)
    | inl (len, d) ↦ ground (arith, length-drop (len + (b - 182)) input)
  ]
]

short_string_shorter :
    (b : ℕ) (input rest : List ℕ) (x : Item)
    → 0x7f < b
    → 0 < length input
    → short_string b input ≡ ok (x, rest)
    → length rest < length input
unfolding short_string
short_string_shorter b input rest x lo pos h = ground (arith, length-drop (b - 127) input)

-- An item takes a byte at least.
pub decode_item_shorter :
    (f : ℕ) (input rest : List ℕ) (x : Item)
    → decode_item f input ≡ ok (x, rest)
    → length rest < length input
unfolding decode_item
decode_item_shorter zero input rest x h = cc
decode_item_shorter (suc f) [] rest x h = cc
decode_item_shorter (suc f) (b ∷ bs) rest x h = elim (Bool-cases (leb b 0x7f)) [
  | inl single ↦ ground arith
  | inr more ↦ elim (Bool-cases (leb b 0xb7)) [
    | inl short ↦
        short_string_shorter b (b ∷ bs) rest x (ground arith) (ground arith) (ground arith)
    | inr longer ↦ elim (Bool-cases (leb b 0xbf)) [
      | inl long ↦
          long_string_shorter b (b ∷ bs) rest x (ground arith) (ground arith) (ground arith)
      | inr lst ↦ elim (Result-cases (list_payload b (b ∷ bs))) [
        | inr (er, e) ↦ absurd (ground arith)
        | inl ((p, r), e) ↦
            ground (arith, list_payload_shorter b (b ∷ bs) p r (ground arith) (ground arith) e)
      ]
    ]
  ]
]

decode_item_bytes-ne-stuck :
    (f b : ℕ) (bs : List ℕ) → b ≤ 0xbf → decode_item (suc f) (b ∷ bs) ≢ err stuck
unfolding decode_item
decode_item_bytes-ne-stuck f b bs h e =
    ground (arith, short_string-ne-stuck b (b ∷ bs), long_string-ne-stuck b (b ∷ bs))

decode_item_list-ne-stuck :
    (f b : ℕ) (bs : List ℕ)
    → 0xbf < b
    → ((p : List ℕ) → length p < length (b ∷ bs) → decode_items f p ≢ err stuck)
    → decode_item (suc f) (b ∷ bs) ≢ err stuck
unfolding decode_item
decode_item_list-ne-stuck f b bs h ih e = elim (Result-cases (list_payload b (b ∷ bs))) [
  | inr (er, q) ↦ ground (arith, list_payload-ne-stuck b (b ∷ bs))
  | inl ((p, r), q) ↦
      ground (arith, ih p ((list_payload_shorter b (b ∷ bs) p r h (omega arith) q).0))
]

decode_items_step-ne-stuck :
    (f b : ℕ) (bs : List ℕ)
    → decode_item f (b ∷ bs) ≢ err stuck
    → ((rest : List ℕ) → length rest < length (b ∷ bs) → decode_items f rest ≢ err stuck)
    → decode_items (suc f) (b ∷ bs) ≢ err stuck
unfolding decode_item
decode_items_step-ne-stuck f b bs h ih e = elim (Result-cases (decode_item f (b ∷ bs))) [
  | inr (er, q) ↦ ground arith
  | inl ((x, r), q) ↦ ground (arith, ih r (decode_item_shorter f (b ∷ bs) r x q))
]

decode_item_nothing-ne-stuck : (f : ℕ) → decode_item (suc f) [] ≢ err stuck
unfolding decode_item
decode_item_nothing-ne-stuck f e = cc

decode_items_nothing-ne-stuck : (f : ℕ) → decode_items f [] ≢ err stuck
unfolding decode_item
decode_items_nothing-ne-stuck zero e = cc
decode_items_nothing-ne-stuck (suc f) e = cc

mutual
  item-ne-stuck :
      (f : ℕ) (input : List ℕ) → 2 * length input ≤ f → 0 < f → decode_item f input ≢ err stuck
  item-ne-stuck zero input hf pos = absurd (omega arith)
  item-ne-stuck (suc f) [] hf pos = decode_item_nothing-ne-stuck f
  item-ne-stuck (suc f) (b ∷ bs) hf pos = elim (Bool-cases (leb b 0xbf)) [
    | inl str ↦ decode_item_bytes-ne-stuck f b bs (leb→le b 0xbf str)
    | inr lst ↦
        decode_item_list-ne-stuck f b bs (ground arith) (λ p hp. items-ne-stuck f p (omega arith))
  ]

  items-ne-stuck :
      (f : ℕ) (input : List ℕ) → 2 * length input + 1 ≤ f → decode_items f input ≢ err stuck
  items-ne-stuck zero input hf = absurd (omega arith)
  items-ne-stuck (suc f) [] hf = decode_items_nothing-ne-stuck (suc f)
  items-ne-stuck (suc f) (b ∷ bs) hf =
      decode_items_step-ne-stuck f b bs (item-ne-stuck f (b ∷ bs) (omega arith) (omega arith))
        (λ rest hr. items-ne-stuck f rest (omega arith))

-- On every input the fuel of `decode_bytes` is enough: it never reports that it ran out.
pub decode_bytes-ne-stuck : (input : List ℕ) → decode_bytes input ≢ err stuck
unfolding decode_bytes
decode_bytes-ne-stuck input = item-ne-stuck _ input (omega arith) (omega arith)
