-- ===== src/Evm/Gas.antt =====
-- packages/evm/src/opcodes/util.ts: what a call may use, and what memory and storage cost.
pub mod MemoryCost
pub mod Slices
use simple_p2p_blockchain.Common.{
  ℕ, ◌+◌, ◌-◌, ◌*◌, ◌/◌, ◌%◌, ◌==◌, ◌&&◌, ◌||◌, Bool, true, false, ltb, leb, if◌then◌else◌, List,
  [], ◌∷◌, ◌++◌, length, take, drop, replicate,
}

-- On numbers that are not negative; the divisor is 32 in every call.
unfoldable pub div_ceil : ℕ → ℕ → ℕ
div_ceil a b = let div = a / b in if a % b == 0 then div else div + 1

-- `setLengthRight`: zeros are added on the right, or the end is cut off.
unfoldable pub set_length_right : List ℕ → ℕ → List ℕ
set_length_right msg len =
    if ltb (length msg) len then msg ++ replicate (len - length msg) 0 else take len msg

unfoldable pub get_data_slice : List ℕ → ℕ → ℕ → List ℕ
get_data_slice bytes offset len =
    let start = if ltb (length bytes) offset then length bytes else offset in
    let end' = if ltb (length bytes) (start + len) then length bytes else start + len in
    set_length_right (drop start (take end' bytes)) len

-- The flag is `gteHardfork(Hardfork.TangerineWhistle)`.
unfoldable pub max_call_gas : Bool → ℕ → ℕ → ℕ
max_call_gas tangerine_whistle gas_limit gas_left =
    if tangerine_whistle
    then (let gas_allowed = gas_left - gas_left / 64 in
        if ltb gas_allowed gas_limit then gas_allowed else gas_limit)
    else gas_limit

-- The parameters `memoryGas` and `quadCoefficientDivGas`.
pub record MemoryFees : Type 0 where
  pub memory_gas : ℕ
  pub quad_coefficient : ℕ

-- The fields of `RunState` that `subMemUsage` changes.
pub record MemoryUsage : Type 0 where
  pub memory_word_count : ℕ
  pub highest_mem_cost : ℕ

abbrev pub words_cost : MemoryFees → ℕ → ℕ
words_cost fees words = words * fees.memory_gas + words * words / fees.quad_coefficient

unfoldable pub sub_mem_usage : MemoryFees → ℕ → ℕ → MemoryUsage → ℕ × MemoryUsage
sub_mem_usage fees offset len s =
    let words = div_ceil (offset + len) 32 in
    let cost = words_cost fees words in
    if len == 0
    then (0, s)
    else if leb words s.memory_word_count
    then (0, s)
    else if ltb s.highest_mem_cost cost
    then (cost - s.highest_mem_cost, record { memory_word_count = words; highest_mem_cost = cost })
    else (cost, record s { memory_word_count = words })

-- `updateSstoreGas`: the gas, and what is refunded. The parameters are `sstoreResetGas`,
-- `sstoreRefundGas` and `sstoreSetGas`.
unfoldable pub update_sstore_gas : ℕ → ℕ → ℕ → List ℕ → List ℕ → ℕ × ℕ
update_sstore_gas reset_gas refund_gas set_gas current_storage value =
    if (length value == 0 && length current_storage == 0)
      || (ltb 0 (length value) && ltb 0 (length current_storage))
    then (reset_gas, 0)
    else if length value == 0 && ltb 0 (length current_storage)
    then (reset_gas, refund_gas)
    else (set_gas, 0)
