-- ===== src/Block/Fees/BlobPrice.antt =====
-- What blobs cost: the price of blob gas and the fee for the blobs of a block.
use native.Mathlib.Nat.{le-div_iff_mul-le, mul-le-mul_left, mul-div_cancel, zero-div, mul-zero}
use simple_p2p_blockchain.Common.{
  ℕ, zero, suc, ◌+◌, ◌*◌, ◌/◌, ◌≤◌, ◌<◌, ltb, ◌==◌, if◌then◌else◌, ok, some, ◌≡◌, refl, ap, sym,
  ◌∙◌, arith, Bool-cases, inl, inr, false,
}
use simple_p2p_blockchain.Block.Fees.{
  FeeParams, Header, get_blob_gas_price, calc_data_fee, exponential_loop, fake_exponential,
}
use simple_p2p_blockchain.Block.Fees.BlobGas.{loop_goes_on, loop_is_over, fake_exponential_ends}

-- The output only grows.
exponential_loop_at_least :
    (fuel numerator denominator i output accumulator value low : ℕ)
    → 0 < denominator
    → low * denominator ≤ output
    → exponential_loop fuel numerator denominator i output accumulator ≡ some value
    → low ≤ value
unfolding exponential_loop
exponential_loop_at_least zero numerator denominator i output accumulator value low pos_d le e =
    absurd (ground (arith, e))
exponential_loop_at_least (suc fuel) numerator denominator i output accumulator value low pos_d le
      e =
    elim (Bool-cases (ltb 0 accumulator)) [
      | inl goes_on ↦
          exponential_loop_at_least fuel numerator denominator (i + 1) (output + accumulator)
            (accumulator * numerator / (denominator * i)) value low pos_d (omega (arith, le))
            (sym (loop_goes_on fuel numerator denominator i output accumulator goes_on) ∙ e)
      | inr over ↦
          let ended : output / denominator ≡ value =
            ground (arith, loop_is_over fuel numerator denominator i output accumulator over, e) in
          omega (arith, ended, (le-div_iff_mul-le pos_d).1 le)
    ]

-- The first round adds the factor times the denominator.
fake_exponential_at_least :
    (fuel factor numerator denominator value : ℕ)
    → 0 < denominator
    → fake_exponential fuel factor numerator denominator ≡ some value
    → factor ≤ value
unfolding fake_exponential exponential_loop
fake_exponential_at_least zero factor numerator denominator value pos_d e =
    absurd (ground (arith, e))
fake_exponential_at_least (suc fuel) factor numerator denominator value pos_d e =
    elim (Bool-cases (ltb 0 (factor * denominator))) [
      | inl goes_on ↦
          exponential_loop_at_least fuel numerator denominator (1 + 1) (0 + factor * denominator)
            (factor * denominator * numerator / (denominator * 1)) value factor pos_d (omega arith)
            (sym (loop_goes_on fuel numerator denominator 1 0 (factor * denominator) goes_on) ∙ e)
      | inr over ↦ ground (arith, over, mul-le-mul_left factor pos_d)
    ]

last_round :
    (fuel numerator denominator i output accumulator value : ℕ)
    → ltb 0 accumulator ≡ false
    → exponential_loop (suc fuel) numerator denominator i output accumulator ≡ some value
    → output / denominator ≡ value
last_round fuel numerator denominator i output accumulator value over e =
    ground (arith, loop_is_over fuel numerator denominator i output accumulator over, e)

-- With the numerator 0 nothing is added after the first round.
fake_exponential_zero :
    (fuel factor denominator value : ℕ)
    → 0 < denominator
    → fake_exponential fuel factor 0 denominator ≡ some value
    → value ≡ factor
unfolding fake_exponential exponential_loop
fake_exponential_zero zero factor denominator value pos_d e = absurd (ground (arith, e))
fake_exponential_zero (suc fuel) factor denominator value pos_d e =
    elim (Bool-cases (ltb 0 (factor * denominator))) [
      | inr over ↦
          let ended = last_round fuel 0 denominator 1 0 (factor * denominator) value over e in
          ground (arith, over, ended, mul-le-mul_left factor pos_d, zero-div denominator)
      | inl goes_on ↦
          second fuel (sym (loop_goes_on fuel 0 denominator 1 0 (factor * denominator) goes_on) ∙ e)
    ]
  where
    second :
        (fuel : ℕ)
        → exponential_loop fuel 0 denominator
            (1 + 1)
            (0 + factor * denominator)
            (factor * denominator * 0 / (denominator * 1))
          ≡ some value
        → value ≡ factor
    second zero e = absurd (ground (arith, e))
    second (suc fuel) e =
        let nothing : factor * denominator * 0 / (denominator * 1) ≡ 0 =
          ap (λ n. n / (denominator * 1)) (mul-zero (factor * denominator))
          ∙ zero-div (denominator * 1) in
        let ended =
          last_round fuel 0 denominator (1 + 1) (0 + factor * denominator)
            (factor * denominator * 0 / (denominator * 1)) value (rw nothing refl) e in
        let whole : 0 + factor * denominator ≡ factor * denominator = omega arith in
        sym ended ∙ ap (λ n. n / denominator) whole ∙ mul-div_cancel factor pos_d

-- With an excess of blob gas and a positive fraction for its update, `getBlobGasPrice` returns,
-- from some amount of fuel on, one and the same price, which is at least the minimum, and the
-- minimum for the excess 0; `calcDataFee` returns this price for all the gas of the blobs.
pub get_blob_gas_price_lem :
    (p : FeeParams) (header : Header) (excess : ℕ)
    → header.excess_blob_gas ≡ some excess
    → 0 < p.blob_gas_price_update_fraction
    → (fuel : ℕ) × (price : ℕ) × ((more : ℕ) → get_blob_gas_price (fuel + more) p header ≡ ok price)
      × (if excess == 0 then price ≡ p.min_blob_gas else p.min_blob_gas ≤ price)
      × ((more num_blobs : ℕ)
          → calc_data_fee (fuel + more) p header num_blobs
            ≡ ok (p.blob_gas_per_blob * num_blobs * price))
unfolding get_blob_gas_price calc_data_fee
get_blob_gas_price_lem p header excess present pos_f =
    let (fuel, price, e) =
      fake_exponential_ends p.min_blob_gas excess p.blob_gas_price_update_fraction pos_f in
    (
      fuel,
      price,
      λ more. ground (arith, present, e more),
      elim (Bool-cases (excess == 0)) [
        | inl nothing ↦
            let zero_excess : excess ≡ 0 = ground (arith, nothing) in
            rw nothing (
              fake_exponential_zero (fuel + 0) p.min_blob_gas p.blob_gas_price_update_fraction price
                pos_f
                (ap
                    (λ n.
                      fake_exponential (fuel + 0) p.min_blob_gas n p.blob_gas_price_update_fraction)
                    (sym zero_excess)
                  ∙ e 0))
        | inr some_excess ↦ rw some_excess (
            fake_exponential_at_least (fuel + 0) p.min_blob_gas excess
              p.blob_gas_price_update_fraction price pos_f (e 0))
      ],
      λ more num_blobs. ground (arith, present, e more),
    )
