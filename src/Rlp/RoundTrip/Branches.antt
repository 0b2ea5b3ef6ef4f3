-- ===== src/Rlp/RoundTrip/Branches.antt =====
-- What each branch of `_decode` has tested when it accepts its input.
use native.Mathlib.Nat.{add-zero, add-suc, add_comm}
use simple_p2p_blockchain.Common.{
  ℕ, zero, suc, ◌+◌, ◌-◌, ◌<◌, ◌≤◌, List, [], ◌∷◌, ◌++◌, leb, ◌==◌, length, get_or, take, drop, ok,
  ◌≡◌, refl, All, IsByte, arith, length-take, length-drop, Bool-cases, Result-cases, ◌≢◌, inl, inr,
  append_assoc, sym, leb→le, take-append-drop, take-append, drop-append, All-take, All-drop,
}
use simple_p2p_blockchain.Rlp.{Item, leaf}
use simple_p2p_blockchain.Rlp.Hex.{safe_slice, bytes_to_hex, parse_hex_byte}
use simple_p2p_blockchain.Rlp.Hex.Digits.{parse_hex_byte-bytes_to_hex}
use simple_p2p_blockchain.Rlp.Hex.Bytes.{be, be-of_bytes}
use simple_p2p_blockchain.Rlp.Decode.{
  decode_length, short_string, long_string, short_list, long_list, list_payload,
}
use simple_p2p_blockchain.Rlp.Spec.{header, rlp_bytes, rlp}

take_pred {ℓ} :
    {A : Type ℓ} (k : ℕ) (x : A) (xs : List A) → 0 < k → take k (x ∷ xs) ≡ x ∷ take (k - 1) xs
take_pred zero x xs h = absurd (omega arith)
take_pred (suc k) x xs h = ground arith

drop_pred {ℓ} :
    {A : Type ℓ} (k : ℕ) (x : A) (xs : List A) → 0 < k → drop k (x ∷ xs) ≡ drop (k - 1) xs
drop_pred zero x xs h = absurd (omega arith)
drop_pred (suc k) x xs h = ground arith

-- A slice that is cut from the front of what follows the first byte.
safe_slice_tail :
    (b k : ℕ) (bs m : List ℕ)
    → 0 < k
    → safe_slice (b ∷ bs) 1 k ≡ ok m
    → (m ≡ take (k - 1) bs) × (k - 1 ≤ length bs)
unfolding safe_slice
safe_slice_tail b k bs m p h = ground (arith, take_pred k b bs)

-- What was sliced, and what is left, are the input.
take-drop_eq : (n : ℕ) (bs m rest : List ℕ) → m ≡ take n bs → rest ≡ drop n bs → m ++ rest ≡ bs
take-drop_eq n bs m rest e d = rw (e, d) (take-append-drop n bs)

length-take_le : (n : ℕ) (bs : List ℕ) → n ≤ length bs → length (take n bs) ≡ n
length-take_le n bs h = omega (arith, length-take n bs)

rlp_bytes_short :
    (p : List ℕ)
    → length p < 56
    → (length p ≡ 1 → 128 ≤ get_or p 0 128)
    → rlp_bytes p ≡ (length p + 128) ∷ p
unfolding rlp_bytes header
rlp_bytes_short [] h c = refl
rlp_bytes_short (x ∷ []) h c = ground arith
rlp_bytes_short (x ∷ y ∷ p) h c = ground arith

-- What the branch for short strings has tested when it returns.
short_string_inv :
    (b : ℕ) (input rest : List ℕ) (x : Item)
    → b ≢ 128
    → short_string b input ≡ ok (x, rest)
    → (c : List ℕ) × (safe_slice input 1 (b - 127) ≡ ok c)
      × (x ≡ leaf c)
      × (rest ≡ drop (b - 127) input)
      × (b ≡ 129 → 128 ≤ get_or c 0 128)
unfolding short_string
short_string_inv b input rest x ne h = elim (Result-cases (safe_slice input 1 (b - 127))) [
  | inl (c, e) ↦ (c, e, ground arith, ground arith, λ p. ground arith)
  | inr (er, e) ↦ absurd (ground arith)
]

pub short_string-canonical :
    (b : ℕ) (bs rest : List ℕ) (x : Item)
    → 128 ≤ b
    → b ≤ 0xb7
    → short_string b (b ∷ bs) ≡ ok (x, rest)
    → rlp x ++ rest ≡ b ∷ bs
unfolding rlp
short_string-canonical b bs rest x lo hi h = elim (Bool-cases (b == 128)) [
  | inl empty ↦ unfold short_string rlp_bytes header in ground arith
  | inr more ↦
      let (c, s, ex, er, single) = short_string_inv b (b ∷ bs) rest x (ground arith) h in
      let (ec, fits) = safe_slice_tail b (b - 127) bs c (omega arith) s in
      rw ex (
        ground (
          arith,
          drop_pred (b - 127) b bs,
          length-take_le (b - 128) bs,
          rlp_bytes_short c,
          single,
          take-drop_eq (b - 128) bs c rest,
        ))
]

take-nil : (n : ℕ) → take {A = ℕ} n [] ≡ []
take-nil zero = refl
take-nil (suc n) = refl

drop-nil : (n : ℕ) → drop {A = ℕ} n [] ≡ []
drop-nil zero = refl
drop-nil (suc n) = refl

drop-take : (k n : ℕ) (xs : List ℕ) → drop k (take (n + k) xs) ≡ take n (drop k xs)
drop-take zero n xs = rw add-zero
drop-take (suc k) n [] = rw add-suc (sym (take-nil n))
drop-take (suc k) n (x ∷ xs) = rw add-suc (drop-take k n xs)

drop-drop : (k n : ℕ) (xs : List ℕ) → drop (n + k) xs ≡ drop n (drop k xs)
drop-drop zero n xs = rw add-zero
drop-drop (suc k) n [] = rw add-suc (sym (drop-nil n))
drop-drop (suc k) n (x ∷ xs) = rw add-suc (drop-drop k n xs)

-- A long payload: the first byte, the bytes of its length, the payload and the rest.
module _ (b l len : ℕ) (bs lens p rest : List ℕ) (pos : 0 < l) where
  long_parts :
      safe_slice (b ∷ bs) 1 l ≡ ok lens
      → safe_slice (b ∷ bs) l (len + l) ≡ ok p
      → rest ≡ drop (len + l) (b ∷ bs)
      → (lens ++ (p ++ rest) ≡ bs) × (length lens ≡ l - 1) × (length p ≡ len)
  long_parts hl hp hr =
      let (el, fits) = safe_slice_tail b l bs lens pos hl in
      let (ep, enough) = payload hp in
      (
        rw el (
            take-drop_eq (l - 1) bs (take (l - 1) bs) (p ++ rest) refl
              (take-drop_eq len (drop (l - 1) bs) p rest ep rest_eq)),
        ground (arith, length-take_le (l - 1) bs),
        ground (arith, length-take_le len (drop (l - 1) bs), length-drop (l - 1) bs),
      )
    where
      payload :
          safe_slice (b ∷ bs) l (len + l) ≡ ok p
          → (p ≡ take len (drop (l - 1) bs)) × (len + l ≤ suc (length bs))
      payload h =
          unfold safe_slice in
          ground (
            arith,
            take_pred (len + l) b bs,
            drop_pred l b (take (len + (l - 1)) bs),
            drop-take (l - 1) len bs,
          )

      rest_eq : rest ≡ drop len (drop (l - 1) bs)
      rest_eq = ground (arith, hr, drop_pred (len + l) b bs, drop-drop (l - 1) len bs)

-- An accepted length is written in its shortest form.
be-decode_length : (bs : List ℕ) (n : ℕ) → All IsByte bs → decode_length bs ≡ ok n → be n ≡ bs
unfolding decode_length
be-decode_length [] n h e = unfold parse_hex_byte bytes_to_hex in cc
be-decode_length (zero ∷ bs) n h e = cc
be-decode_length (suc b ∷ bs) n h e =
    ground (arith, parse_hex_byte-bytes_to_hex (suc b) bs h, be-of_bytes (suc b) bs h)

long_string_inv :
    (b : ℕ) (input rest : List ℕ) (x : Item)
    → long_string b input ≡ ok (x, rest)
    → (lens : List ℕ) × (len : ℕ) × (p : List ℕ) × (safe_slice input 1 (b - 0xb6) ≡ ok lens)
      × (decode_length lens ≡ ok len)
      × (55 < len)
      × (safe_slice input (b - 0xb6) (len + (b - 0xb6)) ≡ ok p)
      × (x ≡ leaf p)
      × (rest ≡ drop (len + (b - 0xb6)) input)
unfolding long_string
long_string_inv b input rest x h = elim (Result-cases (safe_slice input 1 (b - 0xb6))) [
  | inr (er, e) ↦ absurd (ground arith)
  | inl (lens, e) ↦ elim (Result-cases (decode_length lens)) [
    | inr (er, d) ↦ absurd (ground arith)
    | inl (len, d) ↦ elim (Result-cases (safe_slice input (b - 0xb6) (len + (b - 0xb6)))) [
      | inr (er, s) ↦ absurd (ground arith)
      | inl (p, s) ↦ (lens, len, p, e, d, ground arith, s, ground arith, ground arith)
    ]
  ]
]

long_list_inv :
    (b : ℕ) (input p rest : List ℕ)
    → long_list b input ≡ ok (p, rest)
    → (lens : List ℕ) × (len : ℕ) × (safe_slice input 1 (b - 0xf6) ≡ ok lens)
      × (decode_length lens ≡ ok len)
      × (55 < len)
      × (safe_slice input (b - 0xf6) (len + (b - 0xf6)) ≡ ok p)
      × (rest ≡ drop (len + (b - 0xf6)) input)
unfolding long_list
long_list_inv b input p rest h = elim (Result-cases (safe_slice input 1 (b - 0xf6))) [
  | inr (er, e) ↦ absurd (ground arith)
  | inl (lens, e) ↦ elim (Result-cases (decode_length lens)) [
    | inr (er, d) ↦ absurd (ground arith)
    | inl (len, d) ↦ (
      lens,
      len,
      e,
      d,
      ground arith,
      ground (arith, add_comm len (b - 0xf6)),
      ground (arith, add_comm len (b - 0xf6)),
    )
  ]
]

rlp_bytes_long :
    (p : List ℕ)
    → 55 < length p
    → rlp_bytes p ≡ (128 + 55 + length (be (length p))) ∷ (be (length p) ++ p)
unfolding rlp_bytes header
rlp_bytes_long [] h = absurd (omega arith)
rlp_bytes_long (x ∷ []) h = absurd (omega arith)
rlp_bytes_long (x ∷ y ∷ p) h = ground arith

pub long_string-canonical :
    (b : ℕ) (bs rest : List ℕ) (x : Item)
    → All IsByte bs
    → 0xb7 < b
    → long_string b (b ∷ bs) ≡ ok (x, rest)
    → rlp x ++ rest ≡ b ∷ bs
unfolding rlp
long_string-canonical b bs rest x hb lo h =
    let (lens, len, p, sl, dl, big, sp, ex, er) = long_string_inv b (b ∷ bs) rest x h in
    let (parts, ll, lp) = long_parts b (b - 0xb6) len bs lens p rest (omega arith) sl sp er in
    let (el, _) = safe_slice_tail b (b - 0xb6) bs lens (omega arith) sl in
    let bytes : All IsByte lens = rw el (All-take IsByte (b - 0xb6 - 1) bs hb) in
    rw ex (
      ground (
        arith,
        be-decode_length lens len bytes dl,
        rlp_bytes_long p,
        append_assoc lens p rest,
        parts,
      ))

short_list-canonical :
    (b : ℕ) (bs p rest : List ℕ)
    → 0xbf < b
    → b ≤ 0xf7
    → short_list b (b ∷ bs) ≡ ok (p, rest)
    → header (length p) 192 ++ p ++ rest ≡ b ∷ bs
unfolding short_list
short_list-canonical b bs p rest lo hi h = elim (Result-cases (safe_slice (b ∷ bs) 1 (b - 0xbf))) [
  | inr (er, e) ↦ absurd (ground arith)
  | inl (q, e) ↦
      let (eq, fits) = safe_slice_tail b (b - 0xbf) bs q (omega arith) e in
      let q_eq_p : q ≡ p = ground arith in
      let rest_eq : rest ≡ drop (b - 192) bs = ground (arith, drop_pred (b - 0xbf) b bs) in
      unfold header in
      ground (
        arith,
        length-take_le (b - 192) bs,
        take-drop_eq (b - 192) bs p rest (ground arith) rest_eq,
      )
]

-- What precedes the items of a list is the header of their length.
pub list_payload-canonical :
    (b : ℕ) (bs p rest : List ℕ)
    → All IsByte bs
    → 0xbf < b
    → list_payload b (b ∷ bs) ≡ ok (p, rest)
    → header (length p) 192 ++ p ++ rest ≡ b ∷ bs
unfolding list_payload
list_payload-canonical b bs p rest hb lo h = elim (Bool-cases (leb b 0xf7)) [
  | inl small ↦ short_list-canonical b bs p rest lo (leb→le b 0xf7 small) (ground arith)
  | inr large ↦
      let (lens, len, sl, dl, big, sp, er) = long_list_inv b (b ∷ bs) p rest (ground arith) in
      let (parts, ll, lp) = long_parts b (b - 0xf6) len bs lens p rest (ground arith) sl sp er in
      let (el, _) = safe_slice_tail b (b - 0xf6) bs lens (ground arith) sl in
      let bytes : All IsByte lens = rw el (All-take IsByte (b - 0xf6 - 1) bs hb) in
      unfold header in
      ground (arith, be-decode_length lens len bytes dl, append_assoc lens p rest, parts)
]

pub IsByte-inner :
    (h p rest input : List ℕ) → h ++ p ++ rest ≡ input → All IsByte input → All IsByte p
IsByte-inner h p rest input e b =
    rw (drop-append h (p ++ rest), take-append p rest) at
      (All-take IsByte (length p) _ (All-drop IsByte (length h) _ (rw (← e, append_assoc) at b)))

pub IsByte-rest : (h rest input : List ℕ) → h ++ rest ≡ input → All IsByte input → All IsByte rest
IsByte-rest h rest input e b =
    rw (drop-append h rest) at (All-drop IsByte (length h) _ (rw (← e) at b))
