-- ===== src/Tx/Fees.antt =====
-- packages/tx/src/capabilities: eip1559.ts, legacy.ts and eip2930.ts, what a transaction costs.
pub mod Bounds
use simple_p2p_blockchain.Common.{
  ℕ, ◌+◌, ◌-◌, ◌*◌, ◌/◌, ◌==◌, ◌&&◌, List, [], ◌∷◌, Bool, true, false, Option, none, some, ltb,
  if◌then◌else◌, length,
}

-- The parameters of a hard fork, all of them given (`param` throws for a missing one).
pub record TxParams : Type 0 where
  pub tx_data_zero_gas : ℕ
  pub tx_data_non_zero_gas : ℕ
  pub init_code_word_gas : ℕ
  pub tx_gas : ℕ
  pub tx_creation_gas : ℕ
  pub eip3860 : Bool
  pub homestead : Bool

-- `to`, an address as the number of its bytes.
pub data Recipient : Type 0 where
  undefined_to null_to : Recipient
  address_to : ℕ → Recipient

-- `data_fee` is the cache: a hard fork and the cost under it.
pub record LegacyTx : Type 0 where
  pub data_bytes : List ℕ
  pub to : Recipient
  pub data_fee : Option (ℕ × ℕ)
  pub frozen : Bool

pub record Eip1559Tx : Type 0 where
  pub max_priority_fee_per_gas : ℕ
  pub max_fee_per_gas : ℕ
  pub gas_limit : ℕ
  pub value : ℕ

-- The inclusion fee is the smaller of the priority fee and the maximal fee without the base fee, which may
-- be negative; with the base fee it is the smaller of the two sums.
unfoldable pub get_upfront_cost : Eip1559Tx → ℕ → ℕ
get_upfront_cost tx base_fee =
    let gas_price =
      if ltb (tx.max_priority_fee_per_gas + base_fee) tx.max_fee_per_gas
      then tx.max_priority_fee_per_gas + base_fee
      else tx.max_fee_per_gas in
    tx.gas_limit * gas_price + tx.value

-- `none` is the error.
unfoldable pub get_effective_priority_fee : Eip1559Tx → Option ℕ → Option ℕ
get_effective_priority_fee tx none = none
get_effective_priority_fee tx (some base_fee) =
    if ltb tx.max_fee_per_gas base_fee
    then none
    else some (
        if ltb tx.max_priority_fee_per_gas (tx.max_fee_per_gas - base_fee)
        then tx.max_priority_fee_per_gas
        else tx.max_fee_per_gas - base_fee)

-- The loop of `getDataGas`.
unfoldable pub bytes_gas : TxParams → ℕ → List ℕ → ℕ
bytes_gas p cost [] = cost
bytes_gas p cost (b ∷ bs) =
    bytes_gas p (cost + (if b == 0 then p.tx_data_zero_gas else p.tx_data_non_zero_gas)) bs

abbrev pub no_recipient : Recipient → Bool
no_recipient undefined_to = true
no_recipient null_to = true
no_recipient (address_to n) = false

-- What `getDataGas` computes where the cache does not serve.
unfoldable pub data_cost : TxParams → LegacyTx → ℕ
data_cost p tx =
    let cost = bytes_gas p 0 tx.data_bytes in
    if no_recipient tx.to && p.eip3860
    then cost + p.init_code_word_gas * ((length tx.data_bytes + 31) / 32)
    else cost

-- `params` has the parameters of each hard fork.
module _ (params : ℕ → TxParams) where
  unfoldable pub compute_data_gas : ℕ → LegacyTx → ℕ × LegacyTx
  compute_data_gas hardfork tx =
      let cost = data_cost (params hardfork) tx in
      (cost, if tx.frozen then record tx { data_fee = some (hardfork, cost) } else tx)

  -- A cached cost of 0 serves too: the cache is an object, which is never falsy.
  unfoldable pub get_data_gas : ℕ → LegacyTx → ℕ × LegacyTx
  get_data_gas hardfork tx = elim tx.data_fee [
    | none ↦ compute_data_gas hardfork tx
    | some fee ↦ if fee.0 == hardfork then (fee.1, tx) else compute_data_gas hardfork tx
  ]

  -- `toCreationAddress`; `none` is the TypeError for the bytes of null.
  abbrev pub to_creation_address : Recipient → Option Bool
  to_creation_address undefined_to = some true
  to_creation_address null_to = none
  to_creation_address (address_to n) = some (n == 0)

  -- The test of `getIntrinsicGas`, in which an error counts as false.
  abbrev pub is_contract_creation : LegacyTx → Bool
  is_contract_creation tx = elim (to_creation_address tx.to) [ none ↦ false | some b ↦ b ]

  unfoldable pub get_intrinsic_gas : ℕ → LegacyTx → ℕ × LegacyTx
  get_intrinsic_gas hardfork tx =
      let (fee, cached) = get_data_gas hardfork tx in
      let p = params hardfork in
      (
        if p.homestead && is_contract_creation tx
            then fee + p.tx_gas + p.tx_creation_gas
            else fee + p.tx_gas,
        cached,
      )
