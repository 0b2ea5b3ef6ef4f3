-- ===== src/Rlp/Hex.antt =====
-- packages/rlp/src/utils.ts: numbers, hexadecimal texts and bytes. A text is the list of its codes.
pub mod Digits
pub mod Bytes
use simple_p2p_blockchain.Common.{
  ℕ, zero, suc, ◌+◌, ◌-◌, ◌*◌, ◌/◌, ◌%◌, Bool, ◌&&◌, Option, none, some, List, [], ◌∷◌, ◌++◌, leb,
  ltb, ◌==◌, if◌then◌else◌, length, drop, take, Result, ok, err, ◌>>=◌,
}
use simple_p2p_blockchain.Rlp.{
  Error, Input, bytes, text, number, negative, nothing, array, invalid_byte_sequence,
  non_hex_character, unpadded_hex, negative_integer, unsupported_type, slice_out_of_bounds,
}

-- One digit of `integer.toString(16)`.
unfoldable pub hex_char : ℕ → ℕ
hex_char d = if ltb d 10 then d + 48 else d + 87

-- `integer.toString(16)`, the last digit first; `suc n` rounds are enough for `n`.
unfoldable pub to_hex_loop : ℕ → ℕ → List ℕ → List ℕ
unfolding hex_char
to_hex_loop zero n acc = acc
to_hex_loop (suc f) n acc =
    let rest = to_hex_loop f (n / 16) (hex_char (n % 16) ∷ acc) in
    if ltb n 16 then hex_char n ∷ acc else rest

unfoldable pub to_hex : ℕ → List ℕ
unfolding to_hex_loop
to_hex n = to_hex_loop (suc n) n []

unfoldable pub pad_to_even : List ℕ → List ℕ
pad_to_even a = if length a % 2 == 0 then a else 48 ∷ a

-- `numberToHex` of an integer that is not negative.
unfoldable pub number_to_hex : ℕ → List ℕ
unfolding to_hex pad_to_even
number_to_hex n = pad_to_even (to_hex n)

-- `cachedHexes[b]` is `b.toString(16).padStart(2, '0')`.
unfoldable pub bytes_to_hex : List ℕ → List ℕ
unfolding hex_char
bytes_to_hex [] = []
bytes_to_hex (b ∷ bs) = hex_char (b / 16) ∷ hex_char (b % 16) ∷ bytes_to_hex bs

unfoldable pub ascii_to_base16 : ℕ → Option ℕ
ascii_to_base16 c =
    if leb 48 c && leb c 57
    then some (c - 48)
    else if leb 65 c && leb c 70
    then some (c - 55)
    else if leb 97 c && leb c 102
    then some (c - 87)
    else none

-- The digits that `Number.parseInt(s, 16)` reads, up to the first character that is none.
unfoldable pub parse_digits : ℕ → List ℕ → ℕ
unfolding ascii_to_base16
parse_digits acc [] = acc
parse_digits acc (c ∷ cs) = elim (ascii_to_base16 c) [
  | none ↦ acc
  | some d ↦ parse_digits (acc * 16 + d) cs
]

-- `Number.parseInt` gives NaN where no digit comes first. The sign, the blanks and the prefix that
-- it also reads are left out: `bytesToHex` writes none of them.
unfoldable pub parse_hex_byte : List ℕ → Result Error ℕ
unfolding parse_digits
parse_hex_byte [] = err invalid_byte_sequence
parse_hex_byte (c ∷ cs) = elim (ascii_to_base16 c) [
  | none ↦ err invalid_byte_sequence
  | some d ↦ ok (parse_digits d cs)
]

-- The loop of `hexToBytes`.
unfoldable pub hex_pairs : List ℕ → Result Error (List ℕ)
unfolding ascii_to_base16
hex_pairs [] = ok []
hex_pairs (c ∷ []) = err unpadded_hex
hex_pairs (c ∷ d ∷ cs) = elim (ascii_to_base16 c) [
  | none ↦ err non_hex_character
  | some n1 ↦ elim (ascii_to_base16 d) [
    | none ↦ err non_hex_character
    | some n2 ↦ do rest ← hex_pairs cs; ok ((n1 * 16 + n2) ∷ rest)
  ]
]

-- Code 48 is '0' and 120 is 'x'.
unfoldable pub is_hex_string : List ℕ → Bool
is_hex_string (a ∷ b ∷ cs) = a == 48 && b == 120
is_hex_string _ = Bool.false

-- A text with the prefix is cut to the prefix, as the source does, not freed of it.
unfoldable pub hex_to_bytes : List ℕ → Result Error (List ℕ)
unfolding hex_pairs is_hex_string
hex_to_bytes hex =
    let cut = if is_hex_string hex then take 2 hex else hex in
    if length cut % 2 == 0 then hex_pairs cut else err unpadded_hex

unfoldable pub strip_hex_prefix : List ℕ → List ℕ
unfolding is_hex_string
strip_hex_prefix str = if is_hex_string str then drop 2 str else str

-- `TextEncoder.encode` on the code points of a text.
unfoldable pub utf8_to_bytes : List ℕ → List ℕ
utf8_to_bytes [] = []
utf8_to_bytes (c ∷ cs) =
    (if ltb c 0x80
      then c ∷ []
      else if ltb c 0x800
      then (0xc0 + c / 64) ∷ (0x80 + c % 64) ∷ []
      else if ltb c 0x10000
      then (0xe0 + c / 4096) ∷ (0x80 + c / 64 % 64) ∷ (0x80 + c % 64) ∷ []
      else (0xf0 + c / 262144)
        ∷ (0x80 + c / 4096 % 64)
        ∷ (0x80 + c / 64 % 64)
        ∷ (0x80 + c % 64)
        ∷ [])
    ++ utf8_to_bytes cs

unfoldable pub to_bytes : Input → Result Error (List ℕ)
unfolding hex_to_bytes pad_to_even strip_hex_prefix utf8_to_bytes number_to_hex
to_bytes (bytes bs) = ok bs
to_bytes (text str) =
    if is_hex_string str
    then hex_to_bytes (pad_to_even (strip_hex_prefix str))
    else ok (utf8_to_bytes str)
to_bytes (number n) = if n == 0 then ok [] else hex_to_bytes (number_to_hex n)
to_bytes (negative n) = err negative_integer
to_bytes nothing = ok []
to_bytes (array xs) = err unsupported_type

unfoldable pub safe_slice : List ℕ → ℕ → ℕ → Result Error (List ℕ)
safe_slice input start end =
    if ltb (length input) end then err slice_out_of_bounds else ok (drop start (take end input))
