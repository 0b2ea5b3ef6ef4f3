-- ===== src/Block/Fees.antt =====
-- packages/block/src/header/header.ts and helpers.ts: the rules for gas limits, base fees and blob gas.
pub mod BaseFee
pub mod BlobGas
pub mod BlobPrice
use simple_p2p_blockchain.Common.{
  ℕ, zero, suc, ◌+◌, ◌-◌, ◌*◌, ◌/◌, ◌==◌, ltb, leb, Bool, true, false, if◌then◌else◌, Option, none,
  some, Result, ok, err, ◌>>=◌, ◌>>◌, throw_if, not,
}

-- `division_by_zero` is the RangeError of a bigint; `stuck` is no error of the source: the fuel ran out.
pub data HeaderError : Type 0 where
  not_eip1559 increased_too_much decreased_too_much below_minimum : HeaderError
  no_excess_blob_gas division_by_zero stuck : HeaderError

-- The parameters of the chain at a header, all of them given (`param` throws for a missing one), and
-- its block of the London fork.
pub record FeeParams : Type 0 where
  pub eip1559 : Bool
  pub london_block : Option ℕ
  pub elasticity_multiplier : ℕ
  pub base_fee_max_change_denominator : ℕ
  pub gas_limit_bound_divisor : ℕ
  pub min_gas_limit : ℕ
  pub min_blob_gas : ℕ
  pub blob_gas_price_update_fraction : ℕ
  pub blob_gas_per_blob : ℕ

-- The fields that the rules read. Where EIP 1559 is active, the constructor sets the base fee.
pub record Header : Type 0 where
  pub number : ℕ
  pub gas_limit : ℕ
  pub gas_used : ℕ
  pub base_fee_per_gas : ℕ
  pub excess_blob_gas : Option ℕ

-- `typeof londonHardforkBlock === 'bigint' && ...`
abbrev pub is_london_fork : Option ℕ → ℕ → Bool
is_london_fork none number = false
is_london_fork (some block) number = if block == 0 then false else number == block

-- The parent's gas limit, doubled on the fork block.
unfoldable pub parent_gas_limit : FeeParams → Header → Header → ℕ
parent_gas_limit p header parent =
    if is_london_fork p.london_block header.number
    then parent.gas_limit * p.elasticity_multiplier
    else parent.gas_limit

-- `minGasLimit` of the parent's limit may be negative only where the divisor is 0, which throws.
unfoldable pub validate_gas_limit : FeeParams → Header → Header → Result HeaderError (Unit {0})
validate_gas_limit p header parent =
    let limit = parent_gas_limit p header parent in
    let a = limit / p.gas_limit_bound_divisor in
    do
      throw_if (p.gas_limit_bound_divisor == 0) division_by_zero
      throw_if (leb (limit + a) header.gas_limit) increased_too_much
      throw_if (leb header.gas_limit (limit - a)) decreased_too_much
      throw_if (ltb header.gas_limit p.min_gas_limit) below_minimum

-- `calculatedDelta`
abbrev pub calculated_delta : ℕ → ℕ → ℕ → ℕ → ℕ
calculated_delta base delta target denominator = base * delta / target / denominator

unfoldable pub calc_next_base_fee : FeeParams → Header → Result HeaderError ℕ
calc_next_base_fee p header =
    let target = header.gas_limit / p.elasticity_multiplier in
    let base = header.base_fee_per_gas in
    let up =
      calculated_delta base (header.gas_used - target) target p.base_fee_max_change_denominator in
    let down =
      calculated_delta base (target - header.gas_used) target p.base_fee_max_change_denominator in
    do
      throw_if (not p.eip1559) not_eip1559
      throw_if (p.elasticity_multiplier == 0) division_by_zero
      if target == header.gas_used
          then ok base
          else (throw_if (target == 0) division_by_zero
              >> throw_if (p.base_fee_max_change_denominator == 0) division_by_zero
              >> (if ltb target header.gas_used
                  then ok ((if ltb 1 up then up else 1) + base)
                  else ok (if ltb down base then base - down else 0)))

-- The loop of `fakeExponential`, with its three variables.
unfoldable pub exponential_loop : ℕ → ℕ → ℕ → ℕ → ℕ → ℕ → Option ℕ
exponential_loop zero numerator denominator i output accumulator = none
exponential_loop (suc fuel) numerator denominator i output accumulator =
    let rest =
      exponential_loop fuel numerator denominator (i + 1) (output + accumulator)
        (accumulator * numerator / (denominator * i)) in
    if ltb 0 accumulator then rest else some (output / denominator)

-- The source has no fuel.
unfoldable pub fake_exponential : ℕ → ℕ → ℕ → ℕ → Option ℕ
fake_exponential fuel factor numerator denominator =
    exponential_loop fuel numerator denominator 1 0 (factor * denominator)

unfoldable pub get_blob_gas_price : ℕ → FeeParams → Header → Result HeaderError ℕ
get_blob_gas_price fuel p header = elim header.excess_blob_gas [
  | none ↦ err no_excess_blob_gas
  | some excess ↦
      elim (fake_exponential fuel p.min_blob_gas excess p.blob_gas_price_update_fraction) [
        | none ↦ err stuck
        | some price ↦ ok price
      ]
]

unfoldable pub calc_data_fee : ℕ → FeeParams → Header → ℕ → Result HeaderError ℕ
calc_data_fee fuel p header num_blobs = do
  price ← get_blob_gas_price fuel p header
  ok (p.blob_gas_per_blob * num_blobs * price)
