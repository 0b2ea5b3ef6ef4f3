-- ===== src/Tests/Tx.antt =====
-- What transactions pay.
use simple_p2p_blockchain.Common.{ℕ, ◌+◌, ◌*◌, ◌≤◌, [], ◌∷◌, some, ◌≡◌, refl, arith, true}
use simple_p2p_blockchain.Tx.Fees.{
  TxParams, LegacyTx, undefined_to, Eip1559Tx, get_upfront_cost, get_effective_priority_fee,
  data_cost, get_data_gas, bytes_gas,
}
use simple_p2p_blockchain.Tx.Fees.Bounds.{IsCached, get_upfront_cost_lem, get_data_gas_lem}

abbrev capped_tx : Eip1559Tx
capped_tx = record {
  max_priority_fee_per_gas = 30;
  max_fee_per_gas = 100;
  gas_limit = 21000;
  value = 5;
}

get_upfront_cost_lem_example :
    (fee : ℕ) × (get_effective_priority_fee capped_tx (some 90) ≡ some fee)
    × (fee ≤ 30)
    × (get_upfront_cost capped_tx 90 ≡ 21000 * (fee + 90) + 5)
    × (get_upfront_cost capped_tx 90 ≤ 21000 * 100 + 5)
get_upfront_cost_lem_example = get_upfront_cost_lem capped_tx 90 (omega arith)

abbrev fork_params : ℕ → TxParams
fork_params hardfork = record {
  tx_data_zero_gas = 4;
  tx_data_non_zero_gas = 16 + hardfork;
  init_code_word_gas = 2;
  tx_gas = 21000;
  tx_creation_gas = 32000;
  eip3860 = true;
  homestead = true;
}

-- The cache is of the hard fork 1.
abbrev creation_tx : LegacyTx
creation_tx = record {
  data_bytes = 0 ∷ 7 ∷ [];
  to = undefined_to;
  data_fee = some (1, 23);
  frozen = true;
}

creation_tx-IsCached : IsCached fork_params creation_tx
unfolding data_cost bytes_gas
creation_tx-IsCached = refl

get_data_gas_lem_example :
    (t : LegacyTx) × (get_data_gas fork_params 2 creation_tx
      ≡ (data_cost (fork_params 2) creation_tx, t))
    × (data_cost (fork_params 2) t ≡ data_cost (fork_params 2) creation_tx)
    × IsCached fork_params t
get_data_gas_lem_example = get_data_gas_lem fork_params 2 creation_tx creation_tx-IsCached
