-- ===== src/Trie/Compact/RoundTrip.antt =====
-- The compact encoding of a path, read back.
use simple_p2p_blockchain.Common.{
  ℕ, zero, suc, ◌+◌, ◌*◌, ◌/◌, ◌%◌, ◌<◌, ◌≡◌, refl, ap, ap₂, ==_iff, ◌∙◌, arith, bit_or, Bool, true,
  false, ◌&&◌, List, [], ◌∷◌, ◌++◌, ltb, ◌==◌, if◌then◌else◌, length, Bool-cases, inl, inr, ok, All,
  IsByte,
}
use simple_p2p_blockchain.Trie.Nibbles.{bytes_to_nibbles}
use simple_p2p_blockchain.Trie.Compact.{
  has_terminator, but_last, nibbles_to_bytes, even_keybytes, hex_to_keybytes, compact_path,
  nibbles_to_compact_bytes, terminated_nibbles, chop, compact_bytes_to_nibbles,
}

-- A test of every number below a bound.
all_below : ℕ → (ℕ → Bool) → Bool
all_below zero f = true
all_below (suc n) f = f n && all_below n f

all_below-true : (n : ℕ) (f : ℕ → Bool) → all_below n f ≡ true → (k : ℕ) → k < n → f k ≡ true
unfolding all_below
all_below-true zero f e k h = absurd (omega arith)
all_below-true (suc n) f e k h = elim (Bool-cases (k == n)) [
  | inl same ↦ ground arith
  | inr other ↦ all_below-true n f (ground arith) k (ground arith)
]

bit_or_table : all_below 16 (λ x. all_below 16 (λ y. bit_or (x * 16) y == x * 16 + y)) ≡ true
unfolding all_below
bit_or_table = refl

bit_or_nibble : (x y : ℕ) → x < 16 → y < 16 → bit_or (x * 16) y ≡ x * 16 + y
bit_or_nibble x y h k = (==_iff (bit_or (x * 16) y) (x * 16 + y)).0 (
    all_below-true 16 (λ y. bit_or (x * 16) y == x * 16 + y)
      (all_below-true 16 (λ x. all_below 16 (λ y. bit_or (x * 16) y == x * 16 + y)) bit_or_table x
        h)
      y k)

-- The first byte of a path of odd length, by its flag.
odd_head_leaf : all_below 16 (λ x. bit_or (bit_or 32 16) x == 48 + x) ≡ true
unfolding all_below
odd_head_leaf = refl

odd_head_inner : all_below 16 (λ x. bit_or (bit_or 0 16) x == 16 + x) ≡ true
unfolding all_below
odd_head_inner = refl

abbrev IsNibble : ℕ → Type 0
IsNibble n = n < 16

has_terminator-append : (ns : List ℕ) → has_terminator (ns ++ 16 ∷ []) ≡ true
unfolding has_terminator
has_terminator-append [] = refl
has_terminator-append (n ∷ []) = refl
has_terminator-append (n ∷ m ∷ ns) = has_terminator-append (m ∷ ns)

but_last-append : (ns : List ℕ) → but_last (ns ++ 16 ∷ []) ≡ ns
unfolding but_last
but_last-append [] = refl
but_last-append (n ∷ []) = refl
but_last-append (n ∷ m ∷ ns) = ap (λ ms. n ∷ ms) (but_last-append (m ∷ ns))

has_terminator-nibbles : (ns : List ℕ) → All IsNibble ns → has_terminator ns ≡ false
unfolding has_terminator
has_terminator-nibbles [] h = refl
has_terminator-nibbles (n ∷ []) h = ground arith
has_terminator-nibbles (n ∷ m ∷ ns) h = has_terminator-nibbles (m ∷ ns) h.1

terminated_nibbles-nibbles_to_bytes :
    (ns : List ℕ)
    → All IsNibble ns
    → length ns % 2 ≡ 0
    → terminated_nibbles (nibbles_to_bytes ns) ≡ ns ++ 16 ∷ []
unfolding terminated_nibbles nibbles_to_bytes
terminated_nibbles-nibbles_to_bytes [] h e = refl
terminated_nibbles-nibbles_to_bytes (x ∷ []) h e = absurd (omega arith)
terminated_nibbles-nibbles_to_bytes (x ∷ y ∷ ns) h e =
    rw (bit_or_nibble x y h.0 h.1.0, terminated_nibbles-nibbles_to_bytes ns h.1.1 (omega arith))
      (ap₂ (λ a b. a ∷ b ∷ ns ++ 16 ∷ []) (omega arith) (omega arith))

-- The number for the flag of a leaf, which `nibbles_to_compact_bytes` shifts by five.
abbrev flag_of : Bool → ℕ
flag_of true = 32
flag_of false = 0

odd_head : (t : Bool) (x : ℕ) → x < 16 → bit_or (bit_or (flag_of t) 16) x ≡ flag_of t + 16 + x
odd_head true x h =
    (==_iff (bit_or (bit_or 32 16) x) (48 + x)).0 (all_below-true 16 _ odd_head_leaf x h)
odd_head false x h =
    (==_iff (bit_or (bit_or 0 16) x) (16 + x)).0 (all_below-true 16 _ odd_head_inner x h)

-- A path, with the terminator at its end if it is a leaf's.
abbrev pub hex_path : Bool → List ℕ → List ℕ
hex_path leaf path = if leaf then path ++ 16 ∷ [] else path

nibbles_to_compact_bytes-hex_path :
    (t : Bool) (path : List ℕ)
    → All IsNibble path
    → nibbles_to_compact_bytes (hex_path t path) ≡ compact_path (flag_of t) path
unfolding nibbles_to_compact_bytes
nibbles_to_compact_bytes-hex_path true path h =
    rw (has_terminator-append path, but_last-append path)
nibbles_to_compact_bytes-hex_path false path h = rw (has_terminator-nibbles path h)

-- What is read back, by the first byte's two nibbles.
compact_bytes_to_nibbles-head :
    (n a b : ℕ) (path : List ℕ)
    → All IsNibble path
    → length path % 2 ≡ 0
    → n / 16 ≡ a
    → n % 16 ≡ b
    → compact_bytes_to_nibbles (n ∷ nibbles_to_bytes path)
      ≡ (if ltb a 2 then chop (a ∷ b ∷ path) else chop (a ∷ b ∷ path ++ 16 ∷ []))
unfolding compact_bytes_to_nibbles terminated_nibbles
compact_bytes_to_nibbles-head n a b path h e p q =
    rw (p, q, terminated_nibbles-nibbles_to_bytes path h e, but_last-append (a ∷ b ∷ path)) refl

compact_bytes_to_nibbles-odd :
    (t : Bool) (x : ℕ) (path : List ℕ)
    → All IsNibble (x ∷ path)
    → length path % 2 ≡ 0
    → compact_bytes_to_nibbles ((flag_of t + 16 + x) % 256 ∷ nibbles_to_bytes path)
      ≡ hex_path t (x ∷ path)
unfolding chop
compact_bytes_to_nibbles-odd true x path h e =
    compact_bytes_to_nibbles-head ((48 + x) % 256) 3 x path h.1 e (omega (arith, h.0))
      (omega (arith, h.0))
compact_bytes_to_nibbles-odd false x path h e =
    compact_bytes_to_nibbles-head ((16 + x) % 256) 1 x path h.1 e (omega (arith, h.0))
      (omega (arith, h.0))

compact_bytes_to_nibbles-even :
    (t : Bool) (path : List ℕ)
    → All IsNibble path
    → length path % 2 ≡ 0
    → compact_bytes_to_nibbles (flag_of t ∷ nibbles_to_bytes path) ≡ hex_path t path
unfolding chop
compact_bytes_to_nibbles-even true path h e =
    compact_bytes_to_nibbles-head 32 2 0 path h e refl refl
compact_bytes_to_nibbles-even false path h e =
    compact_bytes_to_nibbles-head 0 0 0 path h e refl refl

compact_bytes_to_nibbles-compact_path :
    (leaf : Bool) (path : List ℕ)
    → All IsNibble path
    → compact_bytes_to_nibbles (compact_path (flag_of leaf) path) ≡ hex_path leaf path
unfolding compact_path
compact_bytes_to_nibbles-compact_path leaf [] h = compact_bytes_to_nibbles-even leaf [] h refl
compact_bytes_to_nibbles-compact_path leaf (x ∷ path) h =
    elim (Bool-cases (length (x ∷ path) % 2 == 1)) [
      | inl odd ↦
          rw (odd, odd_head leaf x h.0) (compact_bytes_to_nibbles-odd leaf x path h (ground arith))
      | inr even ↦ rw even (compact_bytes_to_nibbles-even leaf (x ∷ path) h (ground arith))
    ]

-- A path of nibbles of either parity, with the terminator at its end or without it, is read back
-- from its compact encoding.
pub compact_bytes_to_nibbles-nibbles_to_compact_bytes :
    (leaf : Bool) (path : List ℕ)
    → All IsNibble path
    → compact_bytes_to_nibbles (nibbles_to_compact_bytes (hex_path leaf path)) ≡ hex_path leaf path
compact_bytes_to_nibbles-nibbles_to_compact_bytes leaf path h =
    ap compact_bytes_to_nibbles (nibbles_to_compact_bytes-hex_path leaf path h)
    ∙ compact_bytes_to_nibbles-compact_path leaf path h

terminated_nibbles-eq : (bs : List ℕ) → terminated_nibbles bs ≡ bytes_to_nibbles bs ++ 16 ∷ []
unfolding terminated_nibbles bytes_to_nibbles
terminated_nibbles-eq [] = refl
terminated_nibbles-eq (b ∷ bs) = ap (λ ns. b / 16 ∷ b % 16 ∷ ns) (terminated_nibbles-eq bs)

length-bytes_to_nibbles : (bs : List ℕ) → length (bytes_to_nibbles bs) ≡ 2 * length bs
unfolding bytes_to_nibbles
length-bytes_to_nibbles [] = refl
length-bytes_to_nibbles (b ∷ bs) = omega (arith, length-bytes_to_nibbles bs)

nibbles_to_bytes-bytes_to_nibbles :
    (bs : List ℕ) → All IsByte bs → nibbles_to_bytes (bytes_to_nibbles bs) ≡ bs
unfolding nibbles_to_bytes bytes_to_nibbles
nibbles_to_bytes-bytes_to_nibbles [] h = refl
nibbles_to_bytes-bytes_to_nibbles (b ∷ bs) h =
    rw
      (
        bit_or_nibble (b / 16) (b % 16) (omega (arith, h.0)) (omega arith),
        nibbles_to_bytes-bytes_to_nibbles bs h.1,
      )
      (ap (λ c. c ∷ bs) (omega (arith, h.0)))

-- `hexToKeybytes` takes the hex encoding of a key of bytes, which ends with the terminator, back
-- to the key and does not throw.
pub hex_to_keybytes-terminated_nibbles :
    (bs : List ℕ) → All IsByte bs → hex_to_keybytes (terminated_nibbles bs) ≡ ok bs
unfolding hex_to_keybytes even_keybytes
hex_to_keybytes-terminated_nibbles bs h =
    rw
      (
        terminated_nibbles-eq bs,
        has_terminator-append (bytes_to_nibbles bs),
        but_last-append (bytes_to_nibbles bs),
        nibbles_to_bytes-bytes_to_nibbles bs h,
        length-bytes_to_nibbles bs,
      )
      (ground arith)
