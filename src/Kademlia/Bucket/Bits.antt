-- ===== src/Kademlia/Bucket/Bits.antt =====
-- The bits that `_determineNode` reads determine an id of a known length.
use simple_p2p_blockchain.Common.{
  ℕ, zero, suc, ◌+◌, ◌-◌, ◌*◌, ◌/◌, ◌%◌, ◌^◌, ◌<◌, ◌≡◌, refl, sym, ap₂, ◌∙◌, arith, bit_and, Bool,
  true, false, not, ◌&&◌, List, [], ◌∷◌, leb, ◌==◌, ==_iff, if◌then◌else◌, length, get_or,
  Bool-cases, inl, inr, All, IsByte,
}
use simple_p2p_blockchain.Kademlia.Bucket.{goes_right}

-- A bit of a byte, the highest first.
abbrev bit_of : ℕ → ℕ → Bool
bit_of byte k = not (bit_and byte (2 ^ (7 - k)) == 0)

abbrev weight : Bool → ℕ → ℕ
weight b n = if b then n else 0

abbrev rebuilt : (ℕ → Bool) → ℕ
rebuilt f =
    weight (f 0) 128
    + weight (f 1) 64
    + weight (f 2) 32
    + weight (f 3) 16
    + weight (f 4) 8
    + weight (f 5) 4
    + weight (f 6) 2
    + weight (f 7) 1

all_below : ℕ → (ℕ → Bool) → Bool
all_below zero f = true
all_below (suc n) f = f n && all_below n f

all_below-true : (n : ℕ) (f : ℕ → Bool) → all_below n f ≡ true → (k : ℕ) → k < n → f k ≡ true
unfolding all_below
all_below-true zero f e k h = absurd (omega arith)
all_below-true (suc n) f e k h = elim (Bool-cases (k == n)) [
  | inl same ↦ ground arith
  | inr other ↦ all_below-true n f (ground arith) k (ground arith)
]

rebuilt_table : all_below 256 (λ byte. rebuilt (bit_of byte) == byte) ≡ true
unfolding all_below
rebuilt_table = refl

rebuilt-bit_of : (byte : ℕ) → byte < 256 → rebuilt (bit_of byte) ≡ byte
rebuilt-bit_of byte h =
    (==_iff (rebuilt (bit_of byte)) byte).0
      (all_below-true 256 (λ byte. rebuilt (bit_of byte) == byte) rebuilt_table byte h)

byte_ext : (a b : ℕ) → a < 256 → b < 256 → ((k : ℕ) → k < 8 → bit_of a k ≡ bit_of b k) → a ≡ b
byte_ext a b ha hb same =
    sym (rebuilt-bit_of a ha)
    ∙ rw
        (
          same 0 (omega arith),
          same 1 (omega arith),
          same 2 (omega arith),
          same 3 (omega arith),
          same 4 (omega arith),
          same 5 (omega arith),
          same 6 (omega arith),
          same 7 (omega arith),
        )
        refl
    ∙ rebuilt-bit_of b hb

goes_right-bit_of :
    (id : List ℕ) (q k : ℕ)
    → q < length id
    → k < 8
    → goes_right id (8 * q + k) ≡ bit_of (get_or id q 0) k
unfolding goes_right
goes_right-bit_of id q k hq hk = rw (quotient, remainder, within) refl
  where
    quotient : (8 * q + k) / 8 ≡ q
    quotient = omega (arith, hk)

    remainder : (8 * q + k) % 8 ≡ k
    remainder = omega (arith, hk)

    within : leb (length id) q ≡ false
    within = ground arith

get_or-IsByte : (xs : List ℕ) (q : ℕ) → All IsByte xs → get_or xs q 0 < 256
get_or-IsByte [] q h = omega arith
get_or-IsByte (x ∷ xs) zero h = h.0
get_or-IsByte (x ∷ xs) (suc q) h = get_or-IsByte xs q h.1

list_ext :
    (xs ys : List ℕ)
    → length xs ≡ length ys
    → ((q : ℕ) → q < length xs → get_or xs q 0 ≡ get_or ys q 0)
    → xs ≡ ys
list_ext [] [] e same = refl
list_ext [] (y ∷ ys) e same = absurd (omega arith)
list_ext (x ∷ xs) [] e same = absurd (omega arith)
list_ext (x ∷ xs) (y ∷ ys) e same =
    ap₂ ◌∷◌ (same 0 (omega arith))
      (list_ext xs ys (omega arith) (λ q h. same (suc q) (omega (arith, h))))

-- An id of the length that all ids have.
abbrev pub IsId : ℕ → List ℕ → Type 0
IsId l id = (length id ≡ l) × All IsByte id

pub goes_right_ext :
    (l : ℕ) (a b : List ℕ)
    → IsId l a
    → IsId l b
    → ((i : ℕ) → i < 8 * l → goes_right a i ≡ goes_right b i)
    → a ≡ b
goes_right_ext l a b ha hb same = list_ext a b (ha.0 ∙ sym hb.0) (λ q hq.
    byte_ext (get_or a q 0) (get_or b q 0) (get_or-IsByte a q ha.1) (get_or-IsByte b q hb.1)
      (λ k hk.
        sym (goes_right-bit_of a q k hq hk)
        ∙ same (8 * q + k) (omega (arith, hq, hk, ha.0))
        ∙ goes_right-bit_of b q k (omega (arith, hq, ha.0, hb.0)) hk))
