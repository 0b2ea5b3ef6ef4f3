-- ===== src/Tx/Fees/Bounds.antt =====
-- What a transaction pays at most, and that the cache of the data fee changes nothing.
use native.Mathlib.Nat.{mul-le-mul_left}
use simple_p2p_blockchain.Common.{
  ℕ, ◌+◌, ◌-◌, ◌*◌, ◌≤◌, ◌==◌, List, Bool, true, false, Option, none, some, ltb, ◌≡◌, refl, arith,
  Bool-cases, inl, inr, ◌∙◌, ap, sym,
}
use simple_p2p_blockchain.Tx.Fees.{
  TxParams, LegacyTx, Recipient, Eip1559Tx, get_upfront_cost, get_effective_priority_fee, data_cost,
  compute_data_gas, get_data_gas,
}

-- Where the base fee is at most the maximal fee, `getEffectivePriorityFee` throws nothing and
-- returns at most the maximal priority fee; `getUpfrontCost` is the gas limit at that fee and the
-- base fee, with the value, and at most the gas limit at the maximal fee, with the value.
pub get_upfront_cost_lem :
    (tx : Eip1559Tx) (base_fee : ℕ)
    → base_fee ≤ tx.max_fee_per_gas
    → (fee : ℕ) × (get_effective_priority_fee tx (some base_fee) ≡ some fee)
      × (fee ≤ tx.max_priority_fee_per_gas)
      × (get_upfront_cost tx base_fee ≡ tx.gas_limit * (fee + base_fee) + tx.value)
      × (get_upfront_cost tx base_fee ≤ tx.gas_limit * tx.max_fee_per_gas + tx.value)
unfolding get_upfront_cost get_effective_priority_fee
get_upfront_cost_lem tx base_fee payable =
    elim (Bool-cases (ltb (tx.max_priority_fee_per_gas + base_fee) tx.max_fee_per_gas)) [
      | inl room ↦ (
        tx.max_priority_fee_per_gas,
        ground (arith, room, payable),
        omega arith,
        ground (arith, room),
        ground (
          arith,
          room,
          mul-le-mul_left {m = tx.max_priority_fee_per_gas + base_fee} {n = tx.max_fee_per_gas}
              tx.gas_limit (ground (arith, room)),
        ),
      )
      | inr tight ↦
          let whole : tx.max_fee_per_gas - base_fee + base_fee ≡ tx.max_fee_per_gas =
            omega (arith, payable) in
          (
            tx.max_fee_per_gas - base_fee,
            ground (arith, tight, payable),
            ground (arith, tight),
            rw whole (ground (arith, tight)),
            ground (arith, tight),
          )
    ]

-- The cache holds the cost under its hard fork.
abbrev pub IsCached : (ℕ → TxParams) → LegacyTx → Type 0
IsCached params tx = elim tx.data_fee as (λ o. Type 0) [
  | none ↦ Unit
  | some fee ↦ fee.1 ≡ data_cost (params fee.0) tx
]

-- The cost does not depend on the cache.
data_cost-uncached :
    (p : TxParams) (tx : LegacyTx) (fee : Option (ℕ × ℕ))
    → data_cost p (record tx { data_fee = fee }) ≡ data_cost p tx
unfolding data_cost
data_cost-uncached p tx fee = refl

abbrev legacy_tx : List ℕ → Recipient → Option (ℕ × ℕ) → Bool → LegacyTx
legacy_tx data_bytes to fee frozen = record {
  data_bytes = data_bytes;
  to = to;
  data_fee = fee;
  frozen = frozen;
}

compute_data_gas-fields :
    (params : ℕ → TxParams) (hardfork : ℕ) (data_bytes : List ℕ) (to : Recipient)
    (fee : Option (ℕ × ℕ)) (frozen : Bool)
    → IsCached params (legacy_tx data_bytes to fee frozen)
    → (t : LegacyTx) × (compute_data_gas params hardfork (legacy_tx data_bytes to fee frozen)
        ≡ (data_cost (params hardfork) (legacy_tx data_bytes to fee frozen), t))
      × (data_cost (params hardfork) t
          ≡ data_cost (params hardfork) (legacy_tx data_bytes to fee frozen))
      × IsCached params t
unfolding compute_data_gas
compute_data_gas-fields params hardfork data_bytes to fee false cached =
    (legacy_tx data_bytes to fee false, refl, refl, cached)
compute_data_gas-fields params hardfork data_bytes to fee true cached =
    let tx = legacy_tx data_bytes to fee true in
    let t = record tx { data_fee = some (hardfork, data_cost (params hardfork) tx) } in
    (
      t,
      refl,
      data_cost-uncached (params hardfork) tx (some (hardfork, data_cost (params hardfork) tx)),
      sym (
          data_cost-uncached (params hardfork) tx
            (some (hardfork, data_cost (params hardfork) tx))),
    )

get_data_gas-fields :
    (params : ℕ → TxParams) (hardfork : ℕ) (data_bytes : List ℕ) (to : Recipient)
    (fee : Option (ℕ × ℕ)) (frozen : Bool)
    → IsCached params (legacy_tx data_bytes to fee frozen)
    → (t : LegacyTx) × (get_data_gas params hardfork (legacy_tx data_bytes to fee frozen)
        ≡ (data_cost (params hardfork) (legacy_tx data_bytes to fee frozen), t))
      × (data_cost (params hardfork) t
          ≡ data_cost (params hardfork) (legacy_tx data_bytes to fee frozen))
      × IsCached params t
unfolding get_data_gas
get_data_gas-fields params hardfork data_bytes to none frozen cached =
    compute_data_gas-fields params hardfork data_bytes to none frozen cached
get_data_gas-fields params hardfork data_bytes to (some (fork, cost)) frozen cached =
    elim (Bool-cases (fork == hardfork)) [
      | inr stale ↦
          rw stale (
            compute_data_gas-fields params hardfork data_bytes to (some (fork, cost)) frozen cached)
      | inl current ↦
          let same_fork : fork ≡ hardfork = ground (arith, current) in
          let tx = legacy_tx data_bytes to (some (fork, cost)) frozen in
          (
            tx,
            rw current (ap (λ c. (c, tx)) (cached ∙ ap (λ h. data_cost (params h) tx) same_fork)),
            refl,
            cached,
          )
    ]

-- Where a cached data fee is the cost under its hard fork, `getDataGas` returns the cost under the
-- hard fork asked for, whether it reads the cache or not, changes nothing that the cost depends
-- on, and leaves a cached fee that is the cost under its hard fork.
pub get_data_gas_lem :
    (params : ℕ → TxParams) (hardfork : ℕ) (tx : LegacyTx)
    → IsCached params tx
    → (t : LegacyTx) × (get_data_gas params hardfork tx ≡ (data_cost (params hardfork) tx, t))
      × (data_cost (params hardfork) t ≡ data_cost (params hardfork) tx)
      × IsCached params t
get_data_gas_lem params hardfork tx cached =
    get_data_gas-fields params hardfork tx.data_bytes tx.to tx.data_fee tx.frozen cached
