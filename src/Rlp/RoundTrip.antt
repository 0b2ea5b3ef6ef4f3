-- ===== src/Rlp/RoundTrip.antt =====
-- `_decode` reads back what `encode` wrote, and leaves what follows.
pub mod Canonical
pub mod Total
pub mod Branches
use Prim.Native.Nat.add
use native.Mathlib.Nat.{zero-add}
use simple_p2p_blockchain.Common.{
  ℕ, zero, suc, ◌+◌, ◌-◌, ◌*◌, ◌^◌, ◌<◌, ◌≤◌, List, [], ◌∷◌, ◌++◌, ltb, leb, ◌==◌, if◌then◌else◌,
  length, get_or, take, drop, take-append, drop-append, Bool, ok, err, ◌≡◌, refl, All, IsByte,
  arith, length-append, Bool-cases, inl, inr, append_assoc, append-nil, false, true, ap, sym, ◌∙◌,
  ltb→lt,
}
use simple_p2p_blockchain.Rlp.{
  Item, Items, remainder_not_zero, bytes, leaf, list, end, next, to_input, to_inputs,
}
use simple_p2p_blockchain.Rlp.Hex.{bytes_to_hex, parse_hex_byte, safe_slice, to_bytes}
use simple_p2p_blockchain.Rlp.Hex.Digits.{of_bytes, parse_hex_byte-bytes_to_hex}
use simple_p2p_blockchain.Rlp.Hex.Bytes.{be, be-IsByte, length-be, of_bytes-be, be_head}
use simple_p2p_blockchain.Rlp.Encode.{encode}
use simple_p2p_blockchain.Rlp.Decode.{
  decode_length, short_string, long_string, short_list, long_list, list_payload, decode_item,
  decode_items, decode_bytes, decode, is_empty_input, plain, decoded,
}
use simple_p2p_blockchain.Rlp.Spec.{header, rlp_bytes, rlp, rlp_all, Fits, FitsAll, encode-eq-rlp}
use simple_p2p_blockchain.Rlp.Payloads.{list_payload-header, decode_item-headed}

drop-drop {ℓ} :
    {A : Type ℓ} (pre xs : List A) (n : ℕ) → drop (length pre + n) (pre ++ xs) ≡ drop n xs
drop-drop [] xs n = rw zero-add
drop-drop (x ∷ pre) xs n = rw add.suc (drop-drop pre xs n)

take-more {ℓ} :
    {A : Type ℓ} (pre xs : List A) (n : ℕ) → take (length pre + n) (pre ++ xs) ≡ pre ++ take n xs
take-more [] xs n = rw zero-add
take-more (x ∷ pre) xs n = rw add.suc (ap (λ l. x ∷ l) (take-more pre xs n))

decode_item_byte :
    (f x : ℕ) (rest : List ℕ) → x < 128 → decode_item (suc f) (x ∷ rest) ≡ ok (leaf (x ∷ []), rest)
unfolding decode_item
decode_item_byte f x rest h = ground arith

not_one : (n : ℕ) → (suc (suc n) == 1) ≡ false
not_one n = ground arith

decode_item-leaf :
    (f : ℕ) (p rest : List ℕ)
    → length p < 256 ^ 8
    → decode_item (suc f) (rlp_bytes p ++ rest) ≡ ok (leaf p, rest)
unfolding rlp_bytes
decode_item-leaf f [] rest h = decode_item-headed f [] rest h (λ e. absurd (omega arith))
decode_item-leaf f (x ∷ []) rest h = elim (Bool-cases (ltb x 128)) [
  | inl small ↦ rw small (decode_item_byte f x rest (omega (arith, ltb→lt _ _ small)))
  | inr large ↦ rw large (decode_item-headed f (x ∷ []) rest h (λ e. ground arith))
]
decode_item-leaf f (x ∷ y ∷ p) rest h =
    rw (not_one (length p)) (decode_item-headed f (x ∷ y ∷ p) rest h (λ e. absurd (omega arith)))

-- A list is read by reading its items.
decode_item-list :
    (f : ℕ) (p rest : List ℕ) (xs : Items)
    → length p < 256 ^ 8
    → decode_items f p ≡ ok xs
    → decode_item (suc f) (header (length p) 192 ++ p ++ rest) ≡ ok (list xs, rest)
unfolding decode_item
decode_item-list f p rest xs h e =
    let (b, bs, eq, big, payload) = list_payload-header p rest h in
    rw eq (ground (arith, big, payload))

length-rlp_bytes : (p : List ℕ) → 0 < length (rlp_bytes p)
unfolding rlp_bytes header
length-rlp_bytes [] = ground arith
length-rlp_bytes (x ∷ p) = ground (arith, length-append (be (length (x ∷ p))) (x ∷ p))

length-header : (n offset : ℕ) → 0 < length (header n offset)
unfolding header
length-header n offset = ground arith

-- No encoding is empty, and that of a list is longer than those of its items.
pub length-rlp : (x : Item) → 0 < length (rlp x)
unfolding rlp
length-rlp (leaf p) = length-rlp_bytes p
length-rlp (list xs) = omega (
  arith,
  length-append (header (length (rlp_all xs)) 192) (rlp_all xs),
  length-header (length (rlp_all xs)) 192,
)

length-rlp-list : (xs : Items) → length (rlp_all xs) < length (rlp (list xs))
unfolding rlp
length-rlp-list xs = omega (
  arith,
  length-append (header (length (rlp_all xs)) 192) (rlp_all xs),
  length-header (length (rlp_all xs)) 192,
)

decode_items_step :
    (f : ℕ) (bs rest : List ℕ) (x : Item) (xs : Items)
    → 0 < length bs
    → decode_item f bs ≡ ok (x, rest)
    → decode_items f rest ≡ ok xs
    → decode_items (suc f) bs ≡ ok (next x xs)
decode_items_step f [] rest x xs p e es = absurd (omega arith)
decode_items_step f (b ∷ bs) rest x xs p e es = unfold decode_item in rw (e, es)

decode_items_end : (f : ℕ) → decode_items f [] ≡ ok end
decode_items_end zero = unfold decode_item in refl
decode_items_end (suc f) = unfold decode_item in refl

mutual
  unfolding rlp Fits

  decode_item-rlp_fuel :
      (x : Item) (f : ℕ) (rest : List ℕ)
      → Fits x
      → 2 * length (rlp x) ≤ f
      → decode_item f (rlp x ++ rest) ≡ ok (x, rest)
  decode_item-rlp_fuel x zero rest h hf = absurd (omega (arith, length-rlp x))
  decode_item-rlp_fuel (leaf p) (suc f) rest h hf = decode_item-leaf f p rest h.1
  decode_item-rlp_fuel (list xs) (suc f) rest h hf =
      decode_item-list f (rlp_all xs) rest xs h.1
        (decode_items-rlp_fuel xs f h.0 (omega (arith, length-rlp-list xs)))

  decode_items-rlp_fuel :
      (xs : Items) (f : ℕ)
      → FitsAll xs
      → 2 * length (rlp_all xs) + 1 ≤ f
      → decode_items f (rlp_all xs) ≡ ok xs
  decode_items-rlp_fuel xs zero h hf = absurd (omega arith)
  decode_items-rlp_fuel end (suc f) h hf = decode_items_end (suc f)
  decode_items-rlp_fuel (next x xs) (suc f) h hf =
      decode_items_step f (rlp x ++ rlp_all xs) (rlp_all xs) x xs
        (omega (arith, length-append (rlp x) (rlp_all xs), length-rlp x))
        (decode_item-rlp_fuel x f (rlp_all xs) h.0
          (omega (arith, length-append (rlp x) (rlp_all xs))))
        (decode_items-rlp_fuel xs f h.1
          (omega (arith, length-append (rlp x) (rlp_all xs), length-rlp x)))

-- `_decode` of an encoding with anything behind it is the item and what is behind it.
pub decode_bytes-rlp :
    (x : Item) (rest : List ℕ) → Fits x → decode_bytes (rlp x ++ rest) ≡ ok (x, rest)
unfolding decode_bytes
decode_bytes-rlp x rest h =
    decode_item-rlp_fuel x _ rest h (omega (arith, length-append (rlp x) rest))

decode_of_bytes :
    (bs rest : List ℕ) (x : Item) (stream : Bool)
    → 0 < length bs
    → decode_bytes bs ≡ ok (x, rest)
    → decode (bytes bs) stream ≡ (
        if stream
        then ok (decoded x rest)
        else (if length rest == 0 then ok (plain x) else err remainder_not_zero))
decode_of_bytes [] rest x stream p e = absurd (omega arith)
decode_of_bytes (b ∷ bs) rest x stream p e =
    unfold decode is_empty_input to_bytes in rw e (ground arith)

-- For every item of byte arrays whose payloads are shorter than 2 ^ 64 bytes, `encode` does not
-- throw, `decode` of its result is the item, and with `stream` the remainder is whatever was
-- appended to the encoding.
pub decode-encode :
    (x : Item) (rest : List ℕ)
    → Fits x
    → (bs : List ℕ) × (encode (to_input x) ≡ ok bs)
      × (decode (bytes bs) false ≡ ok (plain x))
      × (decode (bytes (bs ++ rest)) true ≡ ok (decoded x rest))
decode-encode x rest h = (
  rlp x,
  encode-eq-rlp x h,
  decode_of_bytes (rlp x) [] x false (length-rlp x) (rw append-nil at (decode_bytes-rlp x [] h)),
  decode_of_bytes (rlp x ++ rest) rest x true
      (omega (arith, length-append (rlp x) rest, length-rlp x)) (decode_bytes-rlp x rest h),
)
