-- ===== src/Block/Fees/BlobGas.antt =====
-- The price of blob gas: the end of the loop of `fakeExponential`.
use native.Mathlib.Nat.{mul-le-mul_left, mul-le-mul_right, div-lt_iff_lt-mul}
use simple_p2p_blockchain.Common.{
  ℕ, zero, suc, ◌+◌, ◌*◌, ◌/◌, ◌≤◌, ◌<◌, ltb, some, ◌≡◌, ap, sym, ◌∙◌, arith, Bool-cases, inl, inr,
  true, false, ltb→lt,
}
use simple_p2p_blockchain.Block.Fees.{exponential_loop, fake_exponential}

-- Once the divisor is above the numerator, the accumulator shrinks.
div-lt : (a n d : ℕ) → n < d → 0 < a → a * n / d < a
div-lt a n d lt pos_a =
    (div-lt_iff_lt-mul (omega arith)).1 (omega (arith, mul-le-mul_left a (suc-le n d lt)))
  where
    suc-le : (n d : ℕ) → n < d → suc n ≤ d
    suc-le n d lt = omega arith

exponential_loop_shrinks :
    (bound numerator denominator i output accumulator : ℕ)
    → numerator < denominator * i
    → accumulator < bound
    → (value : ℕ) × (exponential_loop bound numerator denominator i output accumulator ≡ some value)
unfolding exponential_loop
exponential_loop_shrinks zero numerator denominator i output accumulator above small =
    absurd (omega arith)
exponential_loop_shrinks (suc bound) numerator denominator i output accumulator above small =
    elim (Bool-cases (ltb 0 accumulator)) [
      | inr ended ↦ (output / denominator, ground (arith, ended))
      | inl goes_on ↦
          let less =
            div-lt accumulator numerator (denominator * i) above (ltb→lt 0 accumulator goes_on) in
          let (value, e) =
            exponential_loop_shrinks bound numerator denominator (i + 1) (output + accumulator)
              (accumulator * numerator / (denominator * i)) (omega (arith, above))
              (omega (arith, less, small)) in
          (value, ground (arith, goes_on, e))
    ]

-- Rounds until the divisor is above the numerator, and then as many as the accumulator is large.
exponential_loop_ends :
    (rounds numerator denominator i output accumulator : ℕ)
    → 0 < denominator
    → numerator < rounds + i
    → (fuel : ℕ) × (value : ℕ) × (exponential_loop fuel numerator denominator i output accumulator
        ≡ some value)
unfolding exponential_loop
exponential_loop_ends zero numerator denominator i output accumulator pos_d far =
    let (value, e) =
      exponential_loop_shrinks (suc accumulator) numerator denominator i output accumulator
        (omega (arith, far, mul-le-mul_right i pos_d)) (omega arith) in
    (suc accumulator, value, e)
exponential_loop_ends (suc rounds) numerator denominator i output accumulator pos_d far =
    let (fuel, value, e) =
      exponential_loop_ends rounds numerator denominator (i + 1) (output + accumulator)
        (accumulator * numerator / (denominator * i)) pos_d (omega (arith, far)) in
    elim (Bool-cases (ltb 0 accumulator)) [
      | inr ended ↦ (suc fuel, output / denominator, ground (arith, ended))
      | inl goes_on ↦ (suc fuel, value, ground (arith, goes_on, e))
    ]

pub loop_goes_on :
    (fuel numerator denominator i output accumulator : ℕ)
    → ltb 0 accumulator ≡ true
    → exponential_loop (suc fuel) numerator denominator i output accumulator
      ≡ exponential_loop fuel numerator denominator
          (i + 1)
          (output + accumulator)
          (accumulator * numerator / (denominator * i))
unfolding exponential_loop
loop_goes_on fuel numerator denominator i output accumulator goes_on = ground (arith, goes_on)

pub loop_is_over :
    (fuel numerator denominator i output accumulator : ℕ)
    → ltb 0 accumulator ≡ false
    → exponential_loop (suc fuel) numerator denominator i output accumulator
      ≡ some (output / denominator)
unfolding exponential_loop
loop_is_over fuel numerator denominator i output accumulator over = ground (arith, over)

-- More fuel changes nothing.
exponential_loop_more :
    (fuel more numerator denominator i output accumulator value : ℕ)
    → exponential_loop fuel numerator denominator i output accumulator ≡ some value
    → exponential_loop (fuel + more) numerator denominator i output accumulator ≡ some value
unfolding exponential_loop
exponential_loop_more zero more numerator denominator i output accumulator value h =
    absurd (ground (arith, h))
exponential_loop_more (suc fuel) more numerator denominator i output accumulator value h =
    let shift : suc fuel + more ≡ suc (fuel + more) = omega arith in
    ap (λ n. exponential_loop n numerator denominator i output accumulator) shift
    ∙ elim (Bool-cases (ltb 0 accumulator)) [
      | inr over ↦
          loop_is_over (fuel + more) numerator denominator i output accumulator over
          ∙ sym (loop_is_over fuel numerator denominator i output accumulator over)
          ∙ h
      | inl goes_on ↦
          loop_goes_on (fuel + more) numerator denominator i output accumulator goes_on
          ∙ exponential_loop_more fuel more numerator denominator (i + 1) (output + accumulator)
              (accumulator * numerator / (denominator * i)) value
              (sym (loop_goes_on fuel numerator denominator i output accumulator goes_on) ∙ h)
    ]

-- With a positive denominator the loop of `fakeExponential` ends: from some amount of fuel on it
-- returns one and the same value.
pub fake_exponential_ends :
    (factor numerator denominator : ℕ)
    → 0 < denominator
    → (fuel : ℕ) × (value : ℕ) × ((more : ℕ)
        → fake_exponential (fuel + more) factor numerator denominator ≡ some value)
unfolding fake_exponential
fake_exponential_ends factor numerator denominator pos_d =
    let (fuel, value, e) =
      exponential_loop_ends numerator numerator denominator 1 0 (factor * denominator) pos_d
        (omega arith) in
    (
      fuel,
      value,
      λ more.
          exponential_loop_more fuel more numerator denominator 1 0 (factor * denominator) value e,
    )
