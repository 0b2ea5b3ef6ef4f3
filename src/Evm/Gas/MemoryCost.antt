-- ===== src/Evm/Gas/MemoryCost.antt =====
-- What memory costs, however its growth is divided.
use native.Mathlib.Nat.{le-div_iff_mul-le, div-mul-le_self, mul-le-mul, mul-le-mul_right}
use simple_p2p_blockchain.Common.{
  ℕ, suc, ◌+◌, ◌-◌, ◌*◌, ◌/◌, ◌≤◌, ◌<◌, max, ◌==◌, leb, if◌then◌else◌, List, [], ◌∷◌, ◌≡◌, refl,
  arith, Bool-cases, inl, inr,
}
use simple_p2p_blockchain.Evm.Gas.{MemoryFees, MemoryUsage, words_cost, div_ceil, sub_mem_usage}

-- The accesses of a run, each with its offset and length, and the gas that they are charged together.
unfoldable pub charge_all : MemoryFees → List (ℕ × ℕ) → MemoryUsage → ℕ × MemoryUsage
charge_all fees [] s = (0, s)
charge_all fees ((offset, len) ∷ accesses) s =
    let (cost, t) = sub_mem_usage fees offset len s in
    let (rest, u) = charge_all fees accesses t in (cost + rest, u)

-- The words that an access needs.
abbrev pub words_of : ℕ → ℕ → ℕ
words_of offset len = if len == 0 then 0 else div_ceil (offset + len) 32

abbrev pub most_words : List (ℕ × ℕ) → ℕ
most_words [] = 0
most_words ((offset, len) ∷ accesses) = max (words_of offset len) (most_words accesses)

div_mono : (x y q : ℕ) → 0 < q → x ≤ y → x / q ≤ y / q
div_mono x y q h le = (le-div_iff_mul-le h).1 (omega (arith, div-mul-le_self x q))

-- More words cost more.
words_cost_mono :
    (fees : MemoryFees) (v w : ℕ)
    → 0 < fees.memory_gas
    → 0 < fees.quad_coefficient
    → v < w
    → words_cost fees v < words_cost fees w
words_cost_mono fees v w gas quad lt = omega (
  arith,
  mul-le-mul_right fees.memory_gas (suc-le v w lt),
  div_mono (v * v) (w * w) fees.quad_coefficient quad (mul-le-mul (le-of v w lt) (le-of v w lt)),
)
  where
    suc-le : (v w : ℕ) → v < w → suc v ≤ w
    suc-le v w lt = omega arith

    le-of : (v w : ℕ) → v < w → v ≤ w
    le-of v w lt = omega arith

-- The highest cost is the cost of the words that there are.
abbrev pub IsCharged : MemoryFees → MemoryUsage → Type 0
IsCharged fees s = s.highest_mem_cost ≡ words_cost fees s.memory_word_count

sub_mem_usage_lem :
    (fees : MemoryFees) (offset len : ℕ) (s : MemoryUsage)
    → 0 < fees.memory_gas
    → 0 < fees.quad_coefficient
    → IsCharged fees s
    → (r : ℕ × MemoryUsage) × (sub_mem_usage fees offset len s ≡ r)
      × (words_cost fees s.memory_word_count + r.0 ≡ words_cost fees r.1.memory_word_count)
      × (r.1.memory_word_count ≡ max s.memory_word_count (words_of offset len))
      × IsCharged fees r.1
unfolding sub_mem_usage
sub_mem_usage_lem fees offset len s gas quad charged = elim (Bool-cases (len == 0)) [
  | inl empty ↦ ((0, s), ground (arith, empty), omega arith, ground (arith, empty), charged)
  | inr some_bytes ↦ elim (Bool-cases (leb (div_ceil (offset + len) 32) s.memory_word_count)) [
    | inl fits ↦ (
      (0, s),
      ground (arith, some_bytes, fits),
      omega arith,
      ground (arith, some_bytes, fits),
      charged,
    )
    | inr grows ↦
        let more =
          words_cost_mono fees s.memory_word_count (div_ceil (offset + len) 32) gas quad
            (ground (arith, grows)) in
        (
          (
            words_cost fees (div_ceil (offset + len) 32) - s.highest_mem_cost,
            record {
              memory_word_count = div_ceil (offset + len) 32;
              highest_mem_cost = words_cost fees (div_ceil (offset + len) 32);
            },
          ),
          ground (arith, some_bytes, grows, more, charged),
          omega (arith, more, charged),
          ground (arith, some_bytes, grows),
          refl,
        )
  ]
]

-- With positive parameters and from a state in which the highest cost is that of its words, a
-- sequence of memory accesses is charged together what the words afterwards cost more than those
-- before, however the growth is divided; the words afterwards are the most that an access needs,
-- or those before, and the highest cost is again that of the words.
pub charge_all_lem :
    (fees : MemoryFees) (accesses : List (ℕ × ℕ)) (s : MemoryUsage)
    → 0 < fees.memory_gas
    → 0 < fees.quad_coefficient
    → IsCharged fees s
    → (r : ℕ × MemoryUsage) × (charge_all fees accesses s ≡ r)
      × (words_cost fees s.memory_word_count + r.0 ≡ words_cost fees r.1.memory_word_count)
      × (r.1.memory_word_count ≡ max s.memory_word_count (most_words accesses))
      × IsCharged fees r.1
unfolding charge_all
charge_all_lem fees [] s gas quad charged = ((0, s), refl, omega arith, omega arith, charged)
charge_all_lem fees ((offset, len) ∷ accesses) s gas quad charged =
    let ((cost, t), e, total, words, charged') =
      sub_mem_usage_lem fees offset len s gas quad charged in
    let ((rest, u), e', total', words', charged'') =
      charge_all_lem fees accesses t gas quad charged' in
    (
      (cost + rest, u),
      rw (e, e') refl,
      omega (arith, total, total'),
      ground (arith, words, words'),
      charged'',
    )
