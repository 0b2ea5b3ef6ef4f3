-- ===== src/Rlp/Hex/Bytes.antt =====
-- `numberToHex` writes the shortest bytes of a number, the highest first.
use simple_p2p_blockchain.Common.{
  ℕ, zero, suc, ◌+◌, ◌*◌, ◌/◌, ◌%◌, ◌^◌, ◌<◌, ◌≤◌, ◌≡◌, refl, List, [], ◌∷◌, ◌++◌, length, All,
  IsByte, arith, ltb, if◌then◌else◌, Bool-cases, inl, inr, get_or, append-nil, lt→ltb, le→ltb,
}
use simple_p2p_blockchain.Rlp.Hex.{
  hex_char, bytes_to_hex, to_hex_loop, to_hex, pad_to_even, number_to_hex,
}
use simple_p2p_blockchain.Rlp.Hex.Digits.{length-bytes_to_hex, of_bytes}

-- The bytes of a number before `acc`; `suc n` rounds are enough for `n`.
unfoldable pub be_loop : ℕ → ℕ → List ℕ → List ℕ
be_loop zero n acc = acc
be_loop (suc f) n acc =
    let rest = be_loop f (n / 256) ((n % 256) ∷ acc) in if ltb n 256 then n ∷ acc else rest

unfoldable pub be : ℕ → List ℕ
unfolding be_loop
be n = be_loop (suc n) n []

pad-bytes_to_hex : (bs : List ℕ) → pad_to_even (bytes_to_hex bs) ≡ bytes_to_hex bs
unfolding pad_to_even
pad-bytes_to_hex bs = ground (arith, length-bytes_to_hex bs)

pad-cons-bytes_to_hex :
    (c : ℕ) (bs : List ℕ) → pad_to_even (c ∷ bytes_to_hex bs) ≡ 48 ∷ c ∷ bytes_to_hex bs
unfolding pad_to_even
pad-cons-bytes_to_hex c bs = ground (arith, length-bytes_to_hex bs)

bytes_to_hex-cons :
    (b : ℕ) (bs : List ℕ)
    → bytes_to_hex (b ∷ bs) ≡ hex_char (b / 16) ∷ hex_char (b % 16) ∷ bytes_to_hex bs
unfolding bytes_to_hex
bytes_to_hex-cons b bs = refl

hex_char-zero : hex_char 0 ≡ 48
unfolding hex_char
hex_char-zero = refl

module _ (f n : ℕ) (acc : List ℕ) where
  to_hex_loop_last : n < 16 → to_hex_loop (suc f) n acc ≡ hex_char n ∷ acc
  unfolding to_hex_loop
  to_hex_loop_last h = rw (lt→ltb n 16 h)

  to_hex_loop_more :
      16 ≤ n → to_hex_loop (suc f) n acc ≡ to_hex_loop f (n / 16) (hex_char (n % 16) ∷ acc)
  unfolding to_hex_loop
  to_hex_loop_more h = rw (le→ltb n 16 h)

  be_loop_last : n < 256 → be_loop (suc f) n acc ≡ n ∷ acc
  unfolding be_loop
  be_loop_last h = rw (lt→ltb n 256 h)

  be_loop_more : 256 ≤ n → be_loop (suc f) n acc ≡ be_loop f (n / 256) (n % 256 ∷ acc)
  unfolding be_loop
  be_loop_more h = rw (le→ltb n 256 h)

-- One byte is two digits of the text, the first one padded.
one_byte :
    (f n : ℕ) (acc : List ℕ)
    → n < f
    → n < 256
    → pad_to_even (to_hex_loop f n (bytes_to_hex acc)) ≡ bytes_to_hex (n ∷ acc)
one_byte zero n acc hf h = absurd (omega arith)
one_byte (suc zero) n acc hf h = ground (
  arith,
  to_hex_loop_last 0 n (bytes_to_hex acc),
  pad-cons-bytes_to_hex (hex_char n) acc,
  bytes_to_hex-cons n acc,
  hex_char-zero,
)
one_byte (suc (suc f)) n acc hf h = elim (Bool-cases (ltb n 16)) [
  | inl small ↦ ground (
    arith,
    to_hex_loop_last (suc f) n (bytes_to_hex acc),
    pad-cons-bytes_to_hex (hex_char n) acc,
    bytes_to_hex-cons n acc,
    hex_char-zero,
  )
  | inr large ↦ ground (
    arith,
    to_hex_loop_more (suc f) n (bytes_to_hex acc),
    to_hex_loop_last f (n / 16) (hex_char (n % 16) ∷ bytes_to_hex acc),
    pad-bytes_to_hex (n ∷ acc),
    bytes_to_hex-cons n acc,
  )
]

-- Two rounds of `toString(16)` are one byte.
to_hex_loop-be_loop :
    (g f n : ℕ) (acc : List ℕ)
    → n < f
    → n < g
    → pad_to_even (to_hex_loop f n (bytes_to_hex acc)) ≡ bytes_to_hex (be_loop g n acc)
to_hex_loop-be_loop zero f n acc hf hg = absurd (omega arith)
to_hex_loop-be_loop (suc g) zero n acc hf hg = absurd (omega arith)
to_hex_loop-be_loop (suc g) (suc zero) n acc hf hg =
    ground (arith, one_byte 1 n acc, be_loop_last g n acc)
to_hex_loop-be_loop (suc g) (suc (suc f)) n acc hf hg = elim (Bool-cases (ltb n 256)) [
  | inl small ↦ ground (arith, one_byte (suc (suc f)) n acc, be_loop_last g n acc)
  | inr large ↦ ground (
    arith,
    to_hex_loop_more (suc f) n (bytes_to_hex acc),
    to_hex_loop_more f (n / 16) (hex_char (n % 16) ∷ bytes_to_hex acc),
    bytes_to_hex-cons (n % 256) acc,
    be_loop_more g n acc,
    to_hex_loop-be_loop g f (n / 256) (n % 256 ∷ acc),
  )
]

-- `numberToHex` is the text of the shortest byte array, the highest byte first, that stands for
-- the number.
pub number_to_hex-be : (n : ℕ) → number_to_hex n ≡ bytes_to_hex (be n)
unfolding number_to_hex be to_hex bytes_to_hex
number_to_hex-be n = to_hex_loop-be_loop (suc n) (suc n) n [] (omega arith) (omega arith)

be_loop-IsByte : (f n : ℕ) (acc : List ℕ) → All IsByte acc → All IsByte (be_loop f n acc)
unfolding be_loop
be_loop-IsByte zero n acc h = h
be_loop-IsByte (suc f) n acc h = ground (arith, be_loop-IsByte f (n / 256) (n % 256 ∷ acc))

pub be-IsByte : (n : ℕ) → All IsByte (be n)
unfolding be
be-IsByte n = be_loop-IsByte (suc n) n [] tt

of_bytes-be_loop : (f n : ℕ) (acc : List ℕ) → n < f → of_bytes 0 (be_loop f n acc) ≡ of_bytes n acc
unfolding be_loop of_bytes
of_bytes-be_loop zero n acc h = absurd (omega arith)
of_bytes-be_loop (suc f) n acc h = ground (arith, of_bytes-be_loop f (n / 256) (n % 256 ∷ acc))

-- The bytes of a number stand for it.
pub of_bytes-be : (n : ℕ) → of_bytes 0 (be n) ≡ n
unfolding be of_bytes
of_bytes-be n = of_bytes-be_loop (suc n) n [] (omega arith)

-- The first byte is not 0 unless the number is.
be_loop_head : (f n : ℕ) (acc : List ℕ) → n < f → 0 < n → 0 < get_or (be_loop f n acc) 0 0
unfolding be_loop
be_loop_head zero n acc h p = absurd (omega arith)
be_loop_head (suc f) n acc h p = ground (arith, be_loop_head f (n / 256) (n % 256 ∷ acc))

pub be_head : (n : ℕ) → 0 < n → 0 < get_or (be n) 0 0
unfolding be
be_head n h = be_loop_head (suc n) n [] (omega arith) h

be_loop_fuel : (f g n : ℕ) (acc : List ℕ) → n < f → n < g → be_loop f n acc ≡ be_loop g n acc
be_loop_fuel zero g n acc hf hg = absurd (omega arith)
be_loop_fuel (suc f) zero n acc hf hg = absurd (omega arith)
be_loop_fuel (suc f) (suc g) n acc hf hg = elim (Bool-cases (ltb n 256)) [
  | inl small ↦ ground (arith, be_loop_last f n acc, be_loop_last g n acc)
  | inr large ↦ ground (
    arith,
    be_loop_more f n acc,
    be_loop_more g n acc,
    be_loop_fuel f g (n / 256) (n % 256 ∷ acc),
  )
]

of_bytes-ge : (a : ℕ) (bs : List ℕ) → a ≤ of_bytes a bs
unfolding of_bytes
of_bytes-ge a [] = omega arith
of_bytes-ge a (b ∷ bs) = omega (arith, of_bytes-ge (a * 256 + b) bs)

be_loop-of_bytes :
    (bs : List ℕ) (f g a : ℕ) (acc : List ℕ)
    → All IsByte bs
    → 0 < a
    → of_bytes a bs < f
    → a < g
    → be_loop f (of_bytes a bs) acc ≡ be_loop g a (bs ++ acc)
unfolding of_bytes
be_loop-of_bytes [] f g a acc h p hf hg = be_loop_fuel f g a acc hf hg
be_loop-of_bytes (b ∷ bs) f g a acc h p hf hg = ground (
  arith,
  of_bytes-ge (a * 256 + b) bs,
  be_loop-of_bytes bs f (suc (a * 256 + b)) (a * 256 + b) acc,
  be_loop_more (a * 256 + b) (a * 256 + b) (bs ++ acc),
  be_loop_fuel (a * 256 + b) g a (b ∷ (bs ++ acc)),
)

-- Bytes that do not begin with 0 are those of the number that they stand for.
pub be-of_bytes :
    (b : ℕ) (bs : List ℕ) → All IsByte (b ∷ bs) → 0 < b → be (of_bytes 0 (b ∷ bs)) ≡ b ∷ bs
unfolding be of_bytes
be-of_bytes b bs h p = ground (
  arith,
  be_loop-of_bytes bs (suc (of_bytes b bs)) (suc b) b [],
  be_loop_last b b (bs ++ []),
  append-nil bs,
)

length-be_loop :
    (k f n : ℕ) (acc : List ℕ)
    → n < f
    → n < 256 ^ suc k
    → (length acc < length (be_loop f n acc)) × (length (be_loop f n acc) ≤ length acc + suc k)
length-be_loop k zero n acc hf h = absurd (omega arith)
length-be_loop zero (suc f) n acc hf h = ground (arith, be_loop_last f n acc)
length-be_loop (suc k) (suc f) n acc hf h = elim (Bool-cases (ltb n 256)) [
  | inl small ↦ ground (arith, be_loop_last f n acc)
  | inr large ↦ ground (arith, be_loop_more f n acc, length-be_loop k f (n / 256) (n % 256 ∷ acc))
]

-- A number below 256 ^ (k + 1) has 1 to k + 1 bytes.
pub length-be : (k n : ℕ) → n < 256 ^ suc k → (0 < length (be n)) × (length (be n) ≤ suc k)
unfolding be
length-be k n h = omega (arith, length-be_loop k (suc n) n [] (omega arith) h)
