-- ===== src/Kademlia/Xor/Distance.antt =====
-- The bucket index of a distance.
use native.Mathlib.Nat.{pow-suc, pow-le-pow_right}
use simple_p2p_blockchain.Common.{
  ℕ, zero, suc, ◌+◌, ◌*◌, ◌/◌, ◌^◌, ◌<◌, ◌≤◌, ◌≡◌, refl, arith, Bool-cases, ◌∙◌, leb, leb→le, false,
  ap, inl, inr,
}
use simple_p2p_blockchain.Kademlia.Xor.{bit_length_loop, bit_length, bucket_index_from_distance}

-- Fuel of the number itself is enough, and the rounds count its binary digits.
bit_length_loop_lem :
    (fuel n bits : ℕ)
    → n ≤ fuel
    → 0 < n
    → (k : ℕ) × (bit_length_loop fuel n bits ≡ bits + suc k) × (2 ^ k ≤ n) × (n < 2 * 2 ^ k)
unfolding bit_length_loop
bit_length_loop_lem zero n bits f h = absurd (omega arith)
bit_length_loop_lem (suc fuel) zero bits f h = absurd (omega arith)
bit_length_loop_lem (suc fuel) (suc zero) bits f h = (0, last fuel, omega arith, omega arith)
  where
    last : (fuel : ℕ) → bit_length_loop fuel (1 / 2) (bits + 1) ≡ bits + 1
    last zero = refl
    last (suc fuel) = refl
bit_length_loop_lem (suc fuel) (suc (suc n)) bits f h =
    let (k, e, low, high) =
      bit_length_loop_lem fuel (suc (suc n) / 2) (bits + 1) (omega arith) (omega arith) in
    (suc k, ground (arith, e), rw pow-suc (omega (arith, low)), rw pow-suc (omega (arith, high)))

pub bit_length_lem :
    (n : ℕ) → 0 < n → (k : ℕ) × (bit_length n ≡ suc k) × (2 ^ k ≤ n) × (n < 2 * 2 ^ k)
unfolding bit_length
bit_length_lem n h =
    let (k, e, low, high) = bit_length_loop_lem n n 0 (omega arith) h in
    (k, e ∙ omega arith, low, high)

pow-suc' : (k : ℕ) → 2 ^ (k + 1) ≡ 2 ^ k * 2
pow-suc' k = ap (λ n. 2 ^ n) (omega arith) ∙ pow-suc 2 k

index_lem :
    (dist id_bits k : ℕ)
    → 0 < dist
    → bit_length dist ≡ suc k
    → leb id_bits k ≡ false
    → bucket_index_from_distance dist id_bits ≡ k
unfolding bucket_index_from_distance
index_lem dist id_bits k h e out = rw e (ground arith)

-- For a positive distance that `idBits` bits hold, `bucketIndexFromDistance` returns an i below
-- `idBits` with 2 ^ i at most the distance and 2 ^ (i + 1) above it.
pub bucket_index_from_distance_lem :
    (dist id_bits : ℕ)
    → 0 < dist
    → dist < 2 ^ id_bits
    → let i = bucket_index_from_distance dist id_bits in
      (2 ^ i ≤ dist) × (dist < 2 ^ (i + 1)) × (i < id_bits)
bucket_index_from_distance_lem dist id_bits h b =
    let (k, e, low, high) = bit_length_lem dist h in
    elim (Bool-cases (leb id_bits k)) [
      | inl out ↦
          absurd
            (omega (arith, b, low, pow-le-pow_right {n = 2} (omega arith) (leb→le id_bits k out)))
      | inr within ↦
          rw (index_lem dist id_bits k h e within, pow-suc' k)
            (low, omega (arith, high), ground arith)
    ]
