-- ===== src/Block/Fees/BaseFee.antt =====
-- How far a block moves the gas limit and the base fee.
use native.Mathlib.Nat.{
  le-div_iff_mul-le, div-mul-le_self, mul-le-mul_left, div-le_of_le-mul, mul_comm,
}
use simple_p2p_blockchain.Common.{
  ℕ, ◌+◌, ◌-◌, ◌*◌, ◌/◌, ◌≤◌, ◌<◌, max, ◌==◌, ltb, if◌then◌else◌, ok, ◌≡◌, ◌↔◌, arith, true,
  Bool-cases, inl, inr,
}
use simple_p2p_blockchain.Block.Fees.{
  FeeParams, Header, calculated_delta, calc_next_base_fee, parent_gas_limit, validate_gas_limit,
}

div_mono : (x y q : ℕ) → 0 < q → x ≤ y → x / q ≤ y / q
div_mono x y q h le = (le-div_iff_mul-le h).1 (omega (arith, div-mul-le_self x q))

-- A change of at most the target moves by at most one part of the base fee.
calculated_delta_bound :
    (base delta target denominator : ℕ)
    → 0 < denominator
    → delta ≤ target
    → calculated_delta base delta target denominator ≤ base / denominator
calculated_delta_bound base delta target denominator pos_denominator le =
    div_mono (base * delta / target) base denominator pos_denominator
      (div-le_of_le-mul target (omega (arith, mul_comm base target, mul-le-mul_left base le)))

-- Where EIP 1559 is active, the parameters and the gas target are positive and at most twice the
-- target was used, `calcNextBaseFee` throws nothing: the base fee stays if the target was used; if
-- more was used, it rises by at least 1 and by at most its part by the change denominator, or 1 if
-- that is less; if less was used, it does not rise and falls by at most that part.
pub calc_next_base_fee_lem :
    (p : FeeParams) (header : Header)
    → p.eip1559 ≡ true
    → 0 < p.elasticity_multiplier
    → 0 < p.base_fee_max_change_denominator
    → 0 < header.gas_limit / p.elasticity_multiplier
    → header.gas_used ≤ 2 * (header.gas_limit / p.elasticity_multiplier)
    → (fee : ℕ) × (calc_next_base_fee p header ≡ ok fee)
      × (if header.gas_limit / p.elasticity_multiplier == header.gas_used
          then fee ≡ header.base_fee_per_gas
          else if ltb (header.gas_limit / p.elasticity_multiplier) header.gas_used
          then (header.base_fee_per_gas < fee)
            × (fee
                ≤ header.base_fee_per_gas
                  + max 1 (header.base_fee_per_gas / p.base_fee_max_change_denominator))
          else (fee ≤ header.base_fee_per_gas)
            × (header.base_fee_per_gas
                ≤ fee + header.base_fee_per_gas / p.base_fee_max_change_denominator))
unfolding calc_next_base_fee
calc_next_base_fee_lem p header active elasticity denominator target used =
    let goal = header.gas_limit / p.elasticity_multiplier in
    let base = header.base_fee_per_gas in
    let rise =
      calculated_delta base (header.gas_used - goal) goal p.base_fee_max_change_denominator in
    let fall =
      calculated_delta base (goal - header.gas_used) goal p.base_fee_max_change_denominator in
    let up =
      calculated_delta_bound base (header.gas_used - goal) goal p.base_fee_max_change_denominator
        denominator (omega (arith, used)) in
    let down =
      calculated_delta_bound base (goal - header.gas_used) goal p.base_fee_max_change_denominator
        denominator (omega arith) in
    elim (Bool-cases (goal == header.gas_used)) [
      | inl equal ↦ (base, ground (arith, active, target, elasticity, equal), ground (arith, equal))
      | inr differ ↦ elim (Bool-cases (ltb goal header.gas_used)) [
        | inl more ↦ (
          (if ltb 1 rise then rise else 1) + base,
          ground (arith, active, target, elasticity, denominator, differ, more),
          ground (arith, differ, more, up),
        )
        | inr less ↦ (
          if ltb fall base then base - fall else 0,
          ground (arith, active, target, elasticity, denominator, differ, less),
          ground (arith, differ, less, down),
        )
      ]
    ]

-- c
pub validate_gas_limit_iff :
    (p : FeeParams) (header parent : Header)
    → 0 < p.gas_limit_bound_divisor
    → (validate_gas_limit p header parent ≡ ok tt) ↔ (
        (header.gas_limit
          < parent_gas_limit p header parent
            + parent_gas_limit p header parent / p.gas_limit_bound_divisor)
        × (parent_gas_limit p header parent
            < header.gas_limit + parent_gas_limit p header parent / p.gas_limit_bound_divisor)
        × (p.min_gas_limit ≤ header.gas_limit))
unfolding validate_gas_limit
validate_gas_limit_iff p header parent divisor = ground arith
