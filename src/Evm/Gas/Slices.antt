-- ===== src/Evm/Gas/Slices.antt =====
-- Slices of byte arrays as the bytes that they hold, and the share of the gas that a call may use.
use simple_p2p_blockchain.Common.{
  ℕ, ◌+◌, ◌-◌, ◌/◌, ◌≤◌, Bool, true, ltb, if◌then◌else◌, List, length, take, drop, replicate,
  get_or, ◌≡◌, ◌∙◌, arith, length-append, length-take, length-replicate,
}
use simple_p2p_blockchain.Evm.Memory.Contents.{
  get_or-append, get_or-replicate, get_or_beyond, get_or-drop, get_or-take,
}
use simple_p2p_blockchain.Evm.Gas.{set_length_right, get_data_slice, max_call_gas}

pub set_length_right_lem :
    (msg : List ℕ) (len : ℕ)
    → (length (set_length_right msg len) ≡ len)
      × ((i : ℕ)
          → get_or (set_length_right msg len) i 0 ≡ (if ltb i len then get_or msg i 0 else 0))
unfolding set_length_right
set_length_right_lem msg len = (
  ground (
    arith,
    length-append msg (replicate (len - length msg) 0),
    length-replicate {A = ℕ} (len - length msg) 0,
    length-take len msg,
  ),
  λ i. ground (
    arith,
    get_or-append msg (replicate (len - length msg) 0) i,
    get_or-replicate (len - length msg) (i - length msg),
    get_or_beyond msg i,
    get_or-take len i msg,
  ),
)

-- `getDataSlice` has exactly the length asked for, and its bytes are those of the array from the
-- offset on, 0 where the array has ended.
pub get_data_slice_lem :
    (bytes : List ℕ) (offset len : ℕ)
    → (length (get_data_slice bytes offset len) ≡ len)
      × ((i : ℕ)
          → get_or (get_data_slice bytes offset len) i 0
            ≡ (if ltb i len then get_or bytes (offset + i) 0 else 0))
unfolding get_data_slice
get_data_slice_lem bytes offset len =
    let start = if ltb (length bytes) offset then length bytes else offset in
    let end' = if ltb (length bytes) (start + len) then length bytes else start + len in
    let (size, at) = set_length_right_lem (drop start (take end' bytes)) len in
    (
      size,
      λ i.
          at i
          ∙ ground (
            arith,
            get_or-drop start i (take end' bytes),
            get_or-take end' (start + i) bytes,
            get_or_beyond bytes (offset + i),
            get_or_beyond bytes (start + i),
          ),
    )

-- A call is given at most the gas that it asks for, and from Tangerine Whistle on at least a 64th
-- of the gas that is left stays with the caller.
pub max_call_gas_lem :
    (tangerine_whistle : Bool) (gas_limit gas_left : ℕ)
    → (max_call_gas tangerine_whistle gas_limit gas_left ≤ gas_limit)
      × (gas_left / 64 + max_call_gas true gas_limit gas_left ≤ gas_left)
unfolding max_call_gas
max_call_gas_lem tangerine_whistle gas_limit gas_left = (ground arith, ground arith)
