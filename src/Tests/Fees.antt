-- ===== src/Tests/Fees.antt =====
-- The gas of memory and calls, and the fees of blocks.
use simple_p2p_blockchain.Common.{
  ℕ, ◌+◌, ◌*◌, ◌/◌, ◌≤◌, ◌<◌, max, ◌==◌, ltb, if◌then◌else◌, List, [], ◌∷◌, some, length, get_or,
  ok, ◌≡◌, refl, arith, true,
}
use simple_p2p_blockchain.Evm.Gas.{
  MemoryFees, MemoryUsage, words_cost, get_data_slice, max_call_gas,
}
use simple_p2p_blockchain.Evm.Gas.MemoryCost.{charge_all, charge_all_lem, most_words, IsCharged}
use simple_p2p_blockchain.Evm.Gas.Slices.{get_data_slice_lem, max_call_gas_lem}
use simple_p2p_blockchain.Block.Fees.{
  FeeParams, Header, get_blob_gas_price, calc_data_fee, calc_next_base_fee, fake_exponential,
}
use simple_p2p_blockchain.Block.Fees.BaseFee.{calc_next_base_fee_lem}
use simple_p2p_blockchain.Block.Fees.BlobGas.{fake_exponential_ends}
use simple_p2p_blockchain.Block.Fees.BlobPrice.{get_blob_gas_price_lem}

abbrev fees : MemoryFees
fees = record { memory_gas = 3; quad_coefficient = 512 }

abbrev fresh : MemoryUsage
fresh = record { memory_word_count = 0; highest_mem_cost = 0 }

-- An access of no bytes, one within the memory, and two that let it grow.
abbrev accesses : List (ℕ × ℕ)
accesses = (0, 32) ∷ (5000, 0) ∷ (16, 16) ∷ (100, 64000) ∷ []

charge_all_lem_example :
    (r : ℕ × MemoryUsage) × (charge_all fees accesses fresh ≡ r)
    × (words_cost fees 0 + r.0 ≡ words_cost fees r.1.memory_word_count)
    × (r.1.memory_word_count ≡ max 0 (most_words accesses))
    × IsCharged fees r.1
charge_all_lem_example = charge_all_lem fees accesses fresh (omega arith) (omega arith) refl

get_data_slice_lem_example :
    (length (get_data_slice (1 ∷ 2 ∷ 3 ∷ []) 2 4) ≡ 4)
    × ((i : ℕ)
        → get_or (get_data_slice (1 ∷ 2 ∷ 3 ∷ []) 2 4) i 0
          ≡ (if ltb i 4 then get_or (1 ∷ 2 ∷ 3 ∷ []) (2 + i) 0 else 0))
get_data_slice_lem_example = get_data_slice_lem (1 ∷ 2 ∷ 3 ∷ []) 2 4

max_call_gas_lem_example :
    (max_call_gas true 5000 6400 ≤ 5000) × (6400 / 64 + max_call_gas true 5000 6400 ≤ 6400)
max_call_gas_lem_example = max_call_gas_lem true 5000 6400

abbrev params : FeeParams
params = record {
  eip1559 = true;
  london_block = some 10;
  elasticity_multiplier = 2;
  base_fee_max_change_denominator = 8;
  gas_limit_bound_divisor = 1024;
  min_gas_limit = 5000;
  min_blob_gas = 1;
  blob_gas_price_update_fraction = 100;
  blob_gas_per_blob = 131072;
}

abbrev full_header : Header
full_header = record {
  number = 12;
  gas_limit = 30000;
  gas_used = 30000;
  base_fee_per_gas = 1000;
  excess_blob_gas = some 150;
}

calc_next_base_fee_lem_example :
    (fee : ℕ) × (calc_next_base_fee params full_header ≡ ok fee)
    × (if 30000 / 2 == 30000
        then fee ≡ 1000
        else if ltb (30000 / 2) 30000
        then (1000 < fee) × (fee ≤ 1000 + max 1 (1000 / 8))
        else (fee ≤ 1000) × (1000 ≤ fee + 1000 / 8))
calc_next_base_fee_lem_example =
    calc_next_base_fee_lem params full_header refl (omega arith) (omega arith) (omega arith)
      (omega arith)

fake_exponential_ends_example :
    (fuel : ℕ) × (value : ℕ) × ((more : ℕ) → fake_exponential (fuel + more) 1 150 100 ≡ some value)
fake_exponential_ends_example = fake_exponential_ends 1 150 100 (omega arith)

abbrev some_excess : ℕ
some_excess = 150

get_blob_gas_price_lem_example :
    (fuel : ℕ) × (price : ℕ) × ((more : ℕ)
      → get_blob_gas_price (fuel + more) params full_header ≡ ok price)
    × (if some_excess == 0 then price ≡ 1 else 1 ≤ price)
    × ((more num_blobs : ℕ)
        → calc_data_fee (fuel + more) params full_header num_blobs
          ≡ ok (131072 * num_blobs * price))
get_blob_gas_price_lem_example =
    get_blob_gas_price_lem params full_header some_excess refl (omega arith)
